-- ===== src/Delivery/Text.antt =====
-- A line of chat from `net_chat_send` of kernel/net_chat.cc on one machine to the inbox of the other.
use networking_p.Prelude.{
  ℕ, map, length-take, ◌≤◌, ◌≡◌, ◌≢◌, refl, sym, ap, ◌∙◌, Bool, true, ==_refl, ne→==, some, List,
  length, drop, arith,
}
use networking_p.Address.{Ip, ip_bytes}
use networking_p.ArpCache.{arp_cache_lookup}
use networking_p.NetStats.{NetStatCounter}
use networking_p.World.{World, count, Invoke}
use networking_p.Wire.{IsBytes}
use networking_p.VirtioNet.State.{fake, max_frame_size}
use networking_p.VirtioNet.Api.{net_copy_last_tx_for_test}
use networking_p.VirtioNet.Transmit.{IsIdle}
use networking_p.Udp.Table.{find_handler, udp_register_handler}
use networking_p.Udp.Send.{udp_send_to}
use networking_p.Chat.Store.{chat_port, message_of, chat_udp_handler}
use networking_p.Chat.Text.{
  dotted, before_zero, sanitize_cstr_lem, line, line_message, message_of-line,
}
use networking_p.Chat.Queues.{IsValid, unread, push_bounded, unread-store_message}
use networking_p.Chat.Api.{net_chat_init, net_chat_send, run_handler}
use networking_p.Resolution.Exchange.{deliver}
use networking_p.Delivery.Sent.{udp_send_to-copied, udp_send_to-deliver}

length-line : (text : List ℕ) → length (line text) ≤ 127
length-line text = omega (arith, length-take 127 (map dotted (before_zero text)))

module _ (address : ℕ) (a : World) (dst : Ip) (text : List ℕ)
    (ready : (udp_register_handler a.udp chat_port address).0 ≡ true)
    (some_text : length (line text) ≢ 0) where
  abbrev registered : World
  registered = record a { udp = (udp_register_handler a.udp chat_port address).1 }

  sends_line :
      net_chat_send address a (some dst) (some text)
      ≡ udp_send_to registered
          (some dst)
          chat_port
          chat_port
          (some (line text))
          (length (line text))
  unfolding net_chat_send net_chat_init
  sends_line =
      rw (net_chat_send, ready, sanitize_cstr_lem text 127, ne→== (length (line text)) 0 some_text)
        refl

-- `chat_udp_handler` at its address puts the message in the inbox.
stores_line :
    (address : ℕ) (others : Invoke) (b : World) (src : Ip) (port : ℕ) (payload : List ℕ) (n : ℕ)
    → IsValid b.chat
    → unread (run_handler address others address src port payload n b).chat
      ≡ push_bounded (unread b.chat) (message_of src port payload n)
unfolding run_handler chat_udp_handler
stores_line address others b src port payload n v =
    rw (==_refl address) (unread-store_message b.chat (message_of src port payload n) v)

-- A text with a line in it that `net_chat_send` is given, for a resolved address and over an idle
-- fake backend, when the sender can register the chat handler: the call succeeds, and the frame that
-- went out holds the printed line behind its 42 bytes of headers: the bytes of the text before its
-- first zero, 127 at most, with a dot for each that is not an ASCII character from the space to the
-- tilde. When the receiver, whose chat port runs the chat handler, handles the frame, its unread
-- messages have one more behind them, as the bounded queue of eight has it: the sender's address, the
-- chat port, and this line with zeros up to 128 bytes.
pub net_chat_send-deliver :
    (address : ℕ) (others : Invoke) (a b : World) (text : List ℕ)
    → IsBytes (ip_bytes a.my_ip)
    → IsBytes (ip_bytes b.my_ip)
    → address ≢ 0
    → (udp_register_handler a.udp chat_port address).0 ≡ true
    → find_handler b.udp chat_port ≡ address
    → length (line text) ≢ 0
    → (arp_cache_lookup a.arp (some b.my_ip) true).0 ≡ some b.my_mac
    → a.net.backend ≡ fake
    → IsIdle a.net
    → IsValid b.chat
    → let (ok, a1) = net_chat_send address a (some b.my_ip) (some text) in
      (ok ≡ true)
      × ((frame : List ℕ) × (net_copy_last_tx_for_test a1 true (some max_frame_size) ≡ some frame)
          × (drop 42 frame ≡ line text))
      × (b1 : World) × (deliver (run_handler address others) a1 b ≡ some b1)
      × (unread b1.chat ≡ push_bounded (unread b.chat) (line_message a.my_ip chat_port text))
net_chat_send-deliver address others a b text ia ib real ready served some_text known e v chat =
    let sent = sends_line address a b.my_ip text ready some_text in
    let short = length-line text in
    let got =
      udp_send_to-deliver (run_handler address others)
        (registered address a b.my_ip text ready some_text) b (line text) chat_port chat_port ia ib
        (omega arith) (omega arith) (omega arith) (omega arith) (omega (arith, short))
        (λ z. real (sym served ∙ z)) known e v in
    let b_rx = count (count b NetStatCounter.ipv4_rx) NetStatCounter.udp_rx in
    let n = length (line text) in
    rw (ap (λ (r : Bool × World). r.0) sent, ap (λ (r : Bool × World). r.1) sent)
      (
        got.0,
        udp_send_to-copied (registered address a b.my_ip text ready some_text) b.my_ip b.my_mac
            chat_port chat_port (line text) (omega arith) (omega arith) (omega (arith, short)) known
            e v,
        run_handler address others (find_handler b.udp chat_port) a.my_ip chat_port (line text) n
            b_rx,
        got.1,
        rw served (
            stores_line address others b_rx a.my_ip chat_port (line text) n chat
            ∙ ap (push_bounded (unread b.chat)) (message_of-line a.my_ip chat_port text short)),
      )
