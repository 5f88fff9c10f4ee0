-- ===== src/Chat/Queues.antt =====
-- The two rings of kernel/net_chat.cc against bounded queues that give up their oldest message.
use networking_p.Prelude.{
  ℕ, suc, ◌+◌, ◌-◌, ◌%◌, ◌≤◌, ◌<◌, ◌≡◌, refl, sym, ap, ap₂, ◌∙◌, ◌≢◌, inl, inr, Bool, true, false,
  Bool-cases, ltb, lt→ltb, ◌==◌, ==_iff, if◌then◌else◌, List, [], ◌∷◌, ◌++◌, length, get_or, set,
  drop, length-set, arith,
}
use networking_p.Prelude.Ring.{
  window, length-window, window_mod, window-set_out, window-set_end, window_first,
}
use networking_p.Prelude.Words.{u8}
use networking_p.Chat.Store.{
  ChatMessage, ChatState, zero_message, history_size, store_message, Popped, refused, no_message,
  message, net_chat_recv, recv_loop,
}

pub record IsValid (s : ChatState) : Type 0 where
  pub history_array : length s.history ≡ history_size
  pub inbox_array : length s.inbox ≡ history_size
  pub next_in : s.history_next < history_size
  pub history_fits : s.history_count ≤ history_size
  pub not_wrapped : s.history_count < history_size → s.history_next ≡ s.history_count
  pub read_in : s.inbox_read < history_size
  pub inbox_fits : s.inbox_count ≤ history_size
  pub write_behind : s.inbox_write ≡ (s.inbox_read + s.inbox_count) % history_size

-- The unread messages, oldest first.
unfoldable pub unread : ChatState → List ChatMessage
unread s = window zero_message s.inbox s.inbox_read s.inbox_count

-- The messages of the history, in the order of `net_chat_print_history`: from `start` on.
unfoldable pub recent : ChatState → List ChatMessage
recent s =
    window zero_message s.history (if s.history_count == history_size then s.history_next else 0)
      s.history_count

-- A bounded queue: a full one gives up its oldest message.
unfoldable pub push_bounded : List ChatMessage → ChatMessage → List ChatMessage
push_bounded q m = (if length q == history_size then drop 1 q else q) ++ m ∷ []

-- `store_message_locked` keeps the invariant.
pub store_message-IsValid :
    (s : ChatState) (m : ChatMessage) → IsValid s → IsValid (store_message s m)
unfolding store_message
store_message-IsValid s m v =
    ground (arith, length-set s.history s.history_next m, length-set s.inbox s.inbox_write m)

full_window :
    (buf : List ChatMessage) (m : ChatMessage) (h h' i : ℕ)
    → length buf ≡ 8
    → h' % 8 ≡ (h + 1) % 8
    → i ≡ h % 8
    → window zero_message (set buf i m) h' 8 ≡ drop 1 (window zero_message buf h 8) ++ m ∷ []
unfolding window
full_window buf m h h' i size e p =
    window-set_end zero_message buf m i 7 h' size (omega arith) (omega arith)
    ∙ ap (λ (q : List ChatMessage). q ++ m ∷ []) (window_mod zero_message buf h' (h + 1) 7 e)

-- An arriving message goes to the end of the unread messages; if eight are unread the oldest is
-- dropped.
pub unread-store_message :
    (s : ChatState) (m : ChatMessage)
    → IsValid s
    → unread (store_message s m) ≡ push_bounded (unread s) m
unfolding unread push_bounded store_message
unread-store_message s m v = rw length-window (elim (Bool-cases (s.inbox_count == history_size)) [
  | inl full ↦
      let eight : s.inbox_count ≡ 8 = (==_iff _ _).0 full in
      rw eight (
        full_window s.inbox m s.inbox_read _ s.inbox_write v.inbox_array (omega arith)
          (omega (arith, v.write_behind, v.read_in)))
  | inr room ↦
      let below : s.inbox_count < 8 = ground (arith, v.inbox_fits) in
      let more : u8 (s.inbox_count + 1) ≡ suc s.inbox_count = omega arith in
      rw (room, unread, store_message, more)
        (window-set_end zero_message s.inbox m s.inbox_write s.inbox_count s.inbox_read
          v.inbox_array below v.write_behind)
])

-- It goes to the end of the history too, which keeps the last eight.
pub recent-store_message :
    (s : ChatState) (m : ChatMessage)
    → IsValid s
    → recent (store_message s m) ≡ push_bounded (recent s) m
unfolding recent push_bounded store_message
recent-store_message s m v = rw length-window (elim (Bool-cases (s.history_count == history_size)) [
  | inl full ↦
      let eight : s.history_count ≡ 8 = (==_iff _ _).0 full in
      rw eight (
        full_window s.history m s.history_next _ s.history_next v.history_array (omega arith)
          (omega (arith, v.next_in)))
  | inr room ↦
      let below : s.history_count < 8 = ground (arith, v.history_fits) in
      let lt : ltb s.history_count 8 ≡ true = lt→ltb _ _ below in
      let more : u8 (s.history_count + 1) ≡ suc s.history_count = omega arith in
      let next : s.history_next ≡ s.history_count = v.not_wrapped below in
      let start : (if suc s.history_count == history_size
            then u8 ((s.history_next + 1) % history_size)
            else 0)
          ≡ 0 =
        ground arith in
      rw (room, recent, store_message, lt, more, start)
        (window-set_end zero_message s.history m s.history_next s.history_count 0 v.history_array
          below (omega arith))
])

-- What a client sees of a receive: the oldest unread message, cut to its buffer, and the rest.
unfoldable pub pop_unread : List ChatMessage → Bool → ℕ → Popped × List ChatMessage
pop_unread q false max_len = (refused, q)
pop_unread [] true max_len = (if max_len == 0 then refused else no_message, [])
pop_unread (m ∷ q) true max_len =
    if max_len == 0 then (refused, m ∷ q) else (message (recv_loop max_len m.text), q)

-- What is left behind the oldest unread message once its place is cleared.
rest_unread :
    (s : ChatState)
    → IsValid s
    → s.inbox_count ≢ 0
    → (unread s
        ≡ get_or s.inbox s.inbox_read zero_message
          ∷ window zero_message s.inbox (s.inbox_read + 1) (s.inbox_count - 1))
      × (window zero_message
            (set s.inbox s.inbox_read zero_message)
            (u8 ((s.inbox_read + 1) % history_size))
            (s.inbox_count - 1)
          ≡ window zero_message s.inbox (s.inbox_read + 1) (s.inbox_count - 1))
unfolding unread
rest_unread s v some_unread =
    let here : s.inbox_read % 8 ≡ s.inbox_read = omega (arith, v.read_in) in
    (
      window_first zero_message s.inbox s.inbox_read s.inbox_count (omega arith) ∙ rw here refl,
      window_mod zero_message _ (u8 ((s.inbox_read + 1) % history_size)) (s.inbox_read + 1)
            (s.inbox_count - 1) (omega arith)
          ∙ window-set_out zero_message s.inbox zero_message s.inbox_read (s.inbox_count - 1)
              (s.inbox_read + 1) (λ j lt e. absurd (omega (arith, v.read_in, v.inbox_fits))),
    )

pop_no_out : (max_len : ℕ) (q : List ChatMessage) → pop_unread q false max_len ≡ (refused, q)
unfolding pop_unread
pop_no_out max_len [] = refl
pop_no_out max_len (m ∷ q) = refl

pop_refused :
    (max_len : ℕ) (q : List ChatMessage)
    → (max_len == 0) ≡ true
    → pop_unread q true max_len ≡ (refused, q)
unfolding pop_unread
pop_refused max_len [] e = rw e refl
pop_refused max_len (m ∷ q) e = rw e refl

pop_empty : (max_len : ℕ) → (max_len == 0) ≡ false → pop_unread [] true max_len ≡ (no_message, [])
unfolding pop_unread
pop_empty max_len ne = rw ne refl

pop_first :
    (max_len : ℕ) (m : ChatMessage) (q : List ChatMessage)
    → (max_len == 0) ≡ false
    → pop_unread (m ∷ q) true max_len ≡ (message (recv_loop max_len m.text), q)
unfolding pop_unread
pop_first max_len m q ne = rw ne refl

pub net_chat_recv-IsValid :
    (s : ChatState) (has_out : Bool) (max_len : ℕ)
    → IsValid s
    → IsValid (net_chat_recv s has_out max_len).1
unfolding net_chat_recv
net_chat_recv-IsValid s false max_len v = v
net_chat_recv-IsValid s true max_len v =
    ground (arith, length-set s.inbox s.inbox_read zero_message)

-- `net_chat_recv` hands over the oldest unread message, takes it from the unread ones, and leaves
-- the history alone; with none unread, or no room in the buffer, nothing changes.
pub unread-net_chat_recv :
    (s : ChatState) (has_out : Bool) (max_len : ℕ)
    → IsValid s
    → let (out, s') = net_chat_recv s has_out max_len in
      ((out, unread s') ≡ pop_unread (unread s) has_out max_len) × (recent s' ≡ recent s)
unfolding net_chat_recv unread recent window
unread-net_chat_recv s false max_len v = (sym (pop_no_out max_len (unread s)), refl)
unread-net_chat_recv s true max_len v = elim (Bool-cases (max_len == 0)) [
  | inl e ↦ rw e (sym (pop_refused max_len (unread s) e), refl)
  | inr ne ↦ elim (Bool-cases (s.inbox_count == 0)) [
    | inl e ↦
        let count : s.inbox_count ≡ 0 = (==_iff _ _).0 e in
        let nothing : unread s ≡ [] = rw (count, unread) refl in
        rw (ne, e)
          (
            ap₂ (λ (o : Popped) (q : List ChatMessage). (o, q)) refl nothing
                ∙ sym (
                    ap (λ (q : List ChatMessage). pop_unread q true max_len) nothing
                    ∙ pop_empty max_len ne),
            refl,
          )
    | inr some_unread ↦
        let r = rest_unread s v (λ z. cc (some_unread, (==_iff _ _).1 z)) in
        rw (ne, some_unread)
          (
            ap
                  (λ (q : List ChatMessage). (
                    message (recv_loop max_len (get_or s.inbox s.inbox_read zero_message).text),
                    q,
                  ))
                  r.1
                ∙ sym (
                    ap (λ (q : List ChatMessage). pop_unread q true max_len) r.0
                    ∙ pop_first max_len _ _ ne),
            refl,
          )
  ]
]
