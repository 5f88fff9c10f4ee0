-- ===== src/Chat/Store.antt =====
-- The state of kernel/net_chat.cc: the history, the inbox of unread messages, and the handler
-- that stores what arrives. Each function holds the lock while it works on the state.
use networking_p.Prelude.{
  ℕ, zero, suc, ◌+◌, ◌-◌, ◌%◌, Bool, true, false, not, ◌&&◌, ltb, leb, ◌==◌, if◌then◌else◌, List,
  [], ◌∷◌, get_or, set, replicate,
}
use networking_p.Prelude.Words.{u8}
use networking_p.Address.{Ip, zero_ip}

abbrev pub text_size : ℕ
text_size = 128

abbrev pub history_size : ℕ
history_size = 8

abbrev pub chat_port : ℕ
chat_port = 4390

pub record ChatMessage : Type 0 where
  pub valid : Bool
  pub src_ip : Ip
  pub src_port : ℕ
  pub text : List ℕ

abbrev pub zero_message : ChatMessage
zero_message = record {
  valid = false;
  src_ip = zero_ip;
  src_port = 0;
  text = replicate text_size 0;
}

pub record ChatState : Type 0 where
  pub history : List ChatMessage
  pub inbox : List ChatMessage
  pub history_next : ℕ
  pub history_count : ℕ
  pub inbox_read : ℕ
  pub inbox_write : ℕ
  pub inbox_count : ℕ

unfoldable pub is_printable : ℕ → Bool
is_printable ch = leb 32 ch && leb ch 126

-- A byte that is not printable becomes a dot.
unfoldable pub clean : ℕ → ℕ
unfolding is_printable
clean ch = if is_printable ch then ch else b'.'

-- The loop of `sanitize_payload`: `n` characters of `payload` over the start of `out`.
unfoldable pub sanitize_loop : List ℕ → List ℕ → ℕ → List ℕ
sanitize_loop out payload zero = out
sanitize_loop [] payload (suc n) = []
sanitize_loop (o ∷ os) [] (suc n) = o ∷ os
sanitize_loop (o ∷ os) (p ∷ ps) (suc n) = clean p ∷ sanitize_loop os ps n

-- The text and its length.
unfoldable pub sanitize_payload : List ℕ → List ℕ → ℕ → List ℕ × ℕ
sanitize_payload out payload payload_len =
    let limit = text_size - 1 in
    let to_copy = if ltb payload_len limit then payload_len else limit in
    (set (sanitize_loop out payload to_copy) to_copy 0, to_copy)

unfoldable pub store_message : ChatState → ChatMessage → ChatState
store_message s m =
    let full = s.inbox_count == history_size in
    let read = if full then u8 ((s.inbox_read + 1) % history_size) else s.inbox_read in
    let count = if full then s.inbox_count - 1 else s.inbox_count in
    record {
      history = set s.history s.history_next m;
      history_next = u8 ((s.history_next + 1) % history_size);
      history_count =
          if ltb s.history_count history_size then u8 (s.history_count + 1) else s.history_count;
      inbox = set s.inbox s.inbox_write m;
      inbox_read = read;
      inbox_write = u8 ((s.inbox_write + 1) % history_size);
      inbox_count = u8 (count + 1);
    }

-- The message that `chat_udp_handler` makes of a datagram.
unfoldable pub message_of : Ip → ℕ → List ℕ → ℕ → ChatMessage
message_of src_ip src_port payload payload_len = record {
  valid = true;
  src_ip = src_ip;
  src_port = src_port;
  text = (sanitize_payload (replicate text_size 0) payload payload_len).0;
}

unfoldable pub chat_udp_handler : ChatState → Ip → ℕ → List ℕ → ℕ → ChatState
chat_udp_handler s src_ip src_port payload payload_len =
    store_message s (message_of src_ip src_port payload payload_len)

unfoldable pub net_chat_reset : ChatState → ChatState
net_chat_reset s = record {
  history = replicate history_size zero_message;
  inbox = replicate history_size zero_message;
  history_next = 0;
  history_count = 0;
  inbox_read = 0;
  inbox_write = 0;
  inbox_count = 0;
}

-- The loop of `net_chat_recv`, over the message's text from `len` on; `left` is what is left of
-- `max_len`. The characters copied; the terminating zero follows them.
unfoldable pub recv_loop : ℕ → List ℕ → List ℕ
recv_loop left [] = []
recv_loop zero (ch ∷ text) = []
recv_loop (suc left) (ch ∷ text) =
    let rest = recv_loop left text in if ltb 0 left && not (ch == 0) then ch ∷ rest else []

-- What `net_chat_recv` does to `out`.
pub data Popped : Type 0 where
  refused : Popped
  no_message : Popped
  message : List ℕ → Popped

-- `has_out` says that `out` is not null. `message text` is true, with `text` and a zero written
-- to `out`; `no_message` is false, with a zero written; `refused` is false, with nothing written.
unfoldable pub net_chat_recv : ChatState → Bool → ℕ → Popped × ChatState
net_chat_recv s false max_len = (refused, s)
net_chat_recv s true max_len =
    if max_len == 0 then (refused, s) else if s.inbox_count == 0 then (no_message, s) else (
      message (recv_loop max_len (get_or s.inbox s.inbox_read zero_message).text),
      record s {
        inbox = set s.inbox s.inbox_read zero_message;
        inbox_read = u8 ((s.inbox_read + 1) % history_size);
        inbox_count = s.inbox_count - 1;
      },
    )
