-- ===== src/Tests/Chat.antt =====
-- Runs of kernel/net_chat.cc.
use networking_p.Prelude.{ℕ, min, ◌≡◌, refl, true, [], ◌∷◌, map, take, arith}
use networking_p.Chat.Store.{
  ChatState, ChatMessage, zero_message, message_of, recv_loop, store_message, net_chat_recv,
}
use networking_p.Chat.Queues.{
  IsValid, unread, recent, push_bounded, pop_unread, store_message-IsValid, unread-store_message,
  unread-net_chat_recv,
}
use networking_p.Chat.Text.{dotted, recv-message_of}
use networking_p.Tests.Fixtures.{no_chat, sender_ip}

abbrev note : ℕ → ChatMessage
note n = record zero_message { valid = true; src_port = n }

pub no_chat-IsValid : IsValid no_chat
no_chat-IsValid = record {
  history_array = refl;
  inbox_array = refl;
  next_in = omega arith;
  history_fits = omega arith;
  not_wrapped = λ _. refl;
  read_in = omega arith;
  inbox_fits = omega arith;
  write_behind = refl;
}

abbrev one_note : ChatState
one_note = store_message no_chat (note 1)

one_note-IsValid : IsValid one_note
one_note-IsValid = store_message-IsValid no_chat (note 1) no_chat-IsValid

unread-store_message_example :
    unread (store_message one_note (note 2)) ≡ push_bounded (unread one_note) (note 2)
unread-store_message_example = unread-store_message one_note (note 2) one_note-IsValid

unread-net_chat_recv_example :
    let (out, s') = net_chat_recv one_note true 16 in
    ((out, unread s') ≡ pop_unread (unread one_note) true 16) × (recent s' ≡ recent one_note)
unread-net_chat_recv_example = unread-net_chat_recv one_note true 16 one_note-IsValid

recv-message_of_example :
    recv_loop 4 (message_of sender_ip 4390 (104 ∷ 7 ∷ 105 ∷ 106 ∷ []) 4).text
    ≡ take 3 (map dotted (take (min 4 127) (104 ∷ 7 ∷ 105 ∷ 106 ∷ [])))
recv-message_of_example = recv-message_of sender_ip 4390 (104 ∷ 7 ∷ 105 ∷ 106 ∷ []) 4 (omega arith)
