-- ===== src/Chat/Text.antt =====
-- The text of a chat message, from the bytes of a datagram to the reader's buffer.
use networking_p.Prelude.{
  ℕ, zero, suc, ◌+◌, ◌-◌, ◌≤◌, ◌<◌, min, ◌≡◌, refl, sym, ap, ◌∙◌, inl, inr, true, take_all, ap₂,
  ne→==, ◌&&◌, Bool-cases, false, ltb, lt→ltb, ◌==◌, if◌then◌else◌, List, [], ◌∷◌, ◌++◌, map,
  length, take, set, replicate, arith,
}
use native.Mathlib.Nat.{le_refl}
use networking_p.Address.{Ip}
use networking_p.Chat.Api.{sanitize_cstr}
use networking_p.Chat.Store.{
  text_size, ChatMessage, clean, sanitize_loop, sanitize_payload, message_of, recv_loop,
}

-- What a reader is to see of a byte: the ASCII characters from the space to the tilde as they are, a
-- dot for any other byte.
abbrev pub dotted : ℕ → ℕ
dotted ch = if ltb 31 ch && ltb ch 127 then ch else 46

-- The bytes before the first zero.
abbrev pub before_zero : List ℕ → List ℕ
before_zero [] = []
before_zero (zero ∷ text) = []
before_zero (suc ch ∷ text) = suc ch ∷ before_zero text

pub clean_lem : (ch : ℕ) → clean ch ≡ dotted ch
unfolding clean
clean_lem ch = ground arith

dotted_printable : (ch : ℕ) → (32 ≤ dotted ch) × (dotted ch ≤ 126)
dotted_printable ch = ground arith

abbrev pub cleaned : List ℕ → ℕ → ℕ → List ℕ
cleaned payload k room = map dotted (take k payload) ++ replicate room 0

-- Writing `k` cleaned bytes and a zero over zeros.
sanitize_zeros :
    (payload : List ℕ) (k r m : ℕ)
    → k ≤ length payload
    → m ≡ k + suc r
    → set (sanitize_loop (replicate m 0) payload k) k 0 ≡ cleaned payload k (suc r)
unfolding sanitize_loop
sanitize_zeros payload zero r m le e = let here : m ≡ suc r = omega arith in rw here refl
sanitize_zeros [] (suc k) r m le e = absurd (omega arith)
sanitize_zeros (p ∷ ps) (suc k) r zero le e = absurd (omega arith)
sanitize_zeros (p ∷ ps) (suc k) r (suc m) le e =
    ap₂ ◌∷◌ (clean_lem p) (sanitize_zeros ps k r m (omega arith) (omega arith))

take-nil : (n : ℕ) → take {A = ℕ} n [] ≡ []
take-nil zero = refl
take-nil (suc n) = refl

dotted-ne-zero : (ch : ℕ) → (dotted ch == 0) ≡ false
dotted-ne-zero ch = ground (arith, dotted_printable ch)

-- The reader's loop copies up to the first zero, and leaves room for a zero of its own.
recv_cleaned :
    (left : ℕ) (payload : List ℕ) (k r : ℕ)
    → 0 < left
    → recv_loop left (cleaned payload k (suc r)) ≡ take (left - 1) (map dotted (take k payload))
unfolding recv_loop
recv_cleaned zero payload k r pos = absurd (omega arith)
recv_cleaned (suc left) payload zero r pos = elim (Bool-cases (ltb 0 left)) [
  | inl t ↦ rw t (sym (take-nil (suc left - 1)))
  | inr f ↦ rw f (sym (take-nil (suc left - 1)))
]
recv_cleaned (suc left) [] (suc k) r pos = elim (Bool-cases (ltb 0 left)) [
  | inl t ↦ rw t (sym (take-nil (suc left - 1)))
  | inr f ↦ rw f (sym (take-nil (suc left - 1)))
]
recv_cleaned (suc zero) (p ∷ ps) (suc k) r pos = refl
recv_cleaned (suc (suc left)) (p ∷ ps) (suc k) r pos =
    let more : suc (suc left) - 1 ≡ suc left = omega arith in
    let one : suc left - 1 ≡ left = omega arith in
    rw (more, lt→ltb 0 (suc left) (omega arith), dotted-ne-zero p)
      (ap (◌∷◌ (dotted p)) (recv_cleaned (suc left) ps k r (omega arith) ∙ rw one refl))

-- The text that `chat_udp_handler` stores of a datagram: its first 127 bytes, a dot for each one that is
-- not printable, and zeros behind them.
pub text-message_of :
    (src : Ip) (port : ℕ) (payload : List ℕ)
    → (message_of src port payload (length payload)).text
      ≡ cleaned payload (min (length payload) 127) (128 - min (length payload) 127)
unfolding message_of sanitize_payload
text-message_of src port payload =
    let k = min (length payload) 127 in
    let shorter : (if ltb (length payload) 127 then length payload else 127) ≡ k = ground arith in
    let room : suc (127 - k) ≡ 128 - k = omega arith in
    rw (shorter, ← room) (sanitize_zeros payload k (127 - k) text_size (omega arith) (omega arith))

-- What a reader with a buffer of `max_len` bytes, one at least, gets of a datagram: its first 127 bytes,
-- each one that is not an ASCII character from the space to the tilde replaced by a dot, cut to
-- `max_len - 1` of them.
pub recv-message_of :
    (src : Ip) (port : ℕ) (payload : List ℕ) (max_len : ℕ)
    → 0 < max_len
    → recv_loop max_len (message_of src port payload (length payload)).text
      ≡ take (max_len - 1) (map dotted (take (min (length payload) 127) payload))
recv-message_of src port payload max_len pos =
    let k = min (length payload) 127 in
    let room : 128 - k ≡ suc (127 - k) = omega arith in
    rw (text-message_of src port payload, room) (recv_cleaned max_len payload k (127 - k) pos)

-- `sanitize_cstr` takes the bytes before the zero, `limit` of them at most.
pub sanitize_cstr_lem :
    (text : List ℕ) (limit : ℕ)
    → sanitize_cstr text limit ≡ take limit (map dotted (before_zero text))
unfolding sanitize_cstr
sanitize_cstr_lem text zero = refl
sanitize_cstr_lem [] (suc limit) = refl
sanitize_cstr_lem (zero ∷ text) (suc limit) = refl
sanitize_cstr_lem (suc ch ∷ text) (suc limit) =
    let more = ne→== (suc ch) 0 (λ e. omega arith) in
    rw more (ap₂ ◌∷◌ (clean_lem (suc ch)) (sanitize_cstr_lem text limit))

-- The printed line of a text: the bytes before the zero, 127 at most, with the dots.
abbrev pub line : List ℕ → List ℕ
line text = take 127 (map dotted (before_zero text))

-- Dots and printable characters stay as they are.
dotted_twice : (n : ℕ) (xs : List ℕ) → map dotted (take n (map dotted xs)) ≡ take n (map dotted xs)
dotted_twice zero xs = refl
dotted_twice (suc n) [] = refl
dotted_twice (suc n) (x ∷ xs) =
    let one : dotted (dotted x) ≡ dotted x = ground (arith, dotted_printable x) in
    ap₂ ◌∷◌ one (dotted_twice n xs)

-- The message that holds a printed line.
abbrev pub line_message : Ip → ℕ → List ℕ → ChatMessage
line_message src port text = record {
  valid = true;
  src_ip = src;
  src_port = port;
  text = line text ++ replicate (128 - length (line text)) 0;
}

pub message_of-line :
    (src : Ip) (port : ℕ) (text : List ℕ)
    → length (line text) ≤ 127
    → message_of src port (line text) (length (line text)) ≡ line_message src port text
unfolding message_of
message_of-line src port text short =
    let n = length (line text) in
    let all : min n 127 ≡ n = omega arith in
    let stored = text-message_of src port (line text) in
    let same : cleaned (line text) n (128 - n) ≡ line text ++ replicate (128 - n) 0 =
      rw (take_all n (line text) (le_refl _), dotted_twice 127 (before_zero text)) refl in
    ap (λ t. (record { valid = true; src_ip = src; src_port = port; text = t }))
      (stored ∙ rw all same)
