-- ===== src/Tests/Text.antt =====
-- A run of kernel/net_chat.cc between two machines.
use networking_p.Prelude.{ℕ, ◌≡◌, refl, true, some, List, [], ◌∷◌, drop, arith}
use networking_p.World.{World, Invoke}
use networking_p.Udp.Table.{find_handler, udp_register_handler, replace_handler}
use networking_p.Chat.Store.{chat_port}
use networking_p.Chat.Text.{line_message}
use networking_p.Chat.Queues.{unread, push_bounded}
use networking_p.Chat.Api.{net_chat_send, run_handler, sanitize_cstr}
use networking_p.VirtioNet.Api.{net_init_fake, net_copy_last_tx_for_test}
use networking_p.Resolution.Exchange.{deliver}
use networking_p.Resolution.Frames.{lookup-insert}
use networking_p.Delivery.Text.{net_chat_send-deliver}
use networking_p.Tests.Rings.{knower, owner, started, empty_cache}
use networking_p.Tests.Chat.{no_chat-IsValid}
use networking_p.Tests.Fixtures.{no_arp, no_chat, sender_ip, responder_ip, responder_mac}

abbrev nothing_else : Invoke
nothing_else = λ handler ip port payload len w. w

-- "hi", a tab and the zero.
abbrev hi : List ℕ
hi = 104 ∷ 105 ∷ 9 ∷ 0 ∷ []

net_chat_send-deliver_example :
    let (ok, a1) = net_chat_send 7 knower (some responder_ip) (some hi) in
    (ok ≡ true)
    × ((frame : List ℕ) × (net_copy_last_tx_for_test a1 true (some 2048) ≡ some frame)
        × (drop 42 frame ≡ 104 ∷ 105 ∷ 46 ∷ []))
    × (b1 : World) × (deliver (run_handler 7 nothing_else) a1 owner ≡ some b1)
    × (unread b1.chat ≡ push_bounded (unread no_chat) (line_message sender_ip chat_port hi))
unfolding net_init_fake find_handler udp_register_handler replace_handler sanitize_cstr
net_chat_send-deliver_example =
    net_chat_send-deliver 7 nothing_else knower owner hi (omega arith) (omega arith) (omega arith)
      refl refl (omega arith)
      (lookup-insert no_arp responder_ip responder_mac empty_cache (omega arith)) refl started
      no_chat-IsValid
