-- ===== src/Chat/Api.antt =====
-- `net_chat_init`, `net_chat_send` and `net_chat_poll` of kernel/net_chat.cc. The address of
-- `chat_udp_handler` is a parameter, and so is the code behind the other function pointers.
use networking_p.Prelude.{
  ℕ, zero, suc, ◌-◌, Bool, false, not, ◌||◌, ◌==◌, if◌then◌else◌, Option, none, some, List, [], ◌∷◌,
  length,
}
use networking_p.Address.{Ip}
use networking_p.World.{World, Invoke}
use networking_p.Udp.Table.{udp_register_handler}
use networking_p.Udp.Send.{udp_send_to}
use networking_p.NetProto.Handle.{net_poll_once, Polled}
use networking_p.Chat.Store.{chat_port, text_size, clean, chat_udp_handler}

-- The loop of `sanitize_cstr`: the cleaned characters up to the zero, `limit` of them at most.
-- The list is the memory from `text` on.
unfoldable pub sanitize_cstr : List ℕ → ℕ → List ℕ
sanitize_cstr text zero = []
sanitize_cstr [] (suc limit) = []
sanitize_cstr (ch ∷ text) (suc limit) =
    let rest = sanitize_cstr text limit in if ch == 0 then [] else clean ch ∷ rest

module _ (handler_address : ℕ) where
  unfoldable pub net_chat_init : World → Bool × World
  net_chat_init w =
      let (ok, udp') = udp_register_handler w.udp chat_port handler_address in
      (ok, record w { udp = udp' })

  -- The handler is registered before the text is looked at.
  unfoldable pub net_chat_send : World → Option Ip → Option (List ℕ) → Bool × World
  net_chat_send w none text = (false, w)
  net_chat_send w (some dst_ip) none = (false, w)
  net_chat_send w (some dst_ip) (some text) =
      let (ok, w1) = net_chat_init w in
      let cleaned = sanitize_cstr text (text_size - 1) in
      if not ok || length cleaned == 0
      then (false, w1)
      else udp_send_to w1 (some dst_ip) chat_port chat_port (some cleaned) (length cleaned)

  -- The code behind the pointers: the chat handler at its address, `others` elsewhere.
  unfoldable pub run_handler : Invoke → Invoke
  run_handler others address src_ip src_port payload payload_len w =
      if address == handler_address
      then record w { chat = chat_udp_handler w.chat src_ip src_port payload payload_len }
      else others address src_ip src_port payload payload_len w

  -- `none` if the handler cannot be registered.
  unfoldable pub net_chat_poll : Invoke → World → Option Polled × World
  net_chat_poll others w =
      let (ok, w1) = net_chat_init w in
      if not ok then (none, w1) else (some (net_poll_once (run_handler others) w1), w1)
