-- ===== src/BlockIo/Image.antt =====
-- What a device holds, and that `read` and `read_all` give the bytes of it.
use networking_p.Prelude.{
  ℕ, zero, suc, ◌+◌, ◌-◌, ◌*◌, ◌/◌, ◌%◌, ◌^◌, ◌≤◌, ◌<◌, min, ◌≡◌, refl, sym, ap, ap₂, ◌∙◌, true,
  false, ltb, ◌==◌, ==_iff, ne→==, lt→ltb, le→ltb, ltb→lt, ltb→le, Bool-cases, ==-cases, inl, inr,
  if◌then◌else◌, some, List, [], ◌++◌, append-nil, append_assoc, length, take, drop, take-take,
  drop-take, drop-drop, take-add, arith,
}
use native.Mathlib.Nat.{div-add-mod', mod-lt, le_refl}
use networking_p.BlockIo.{
  BlockIo, ReadResult, stopped, error, got, read_part, read, read_loop, read_all,
}
use networking_p.Prelude.Words.{u32}

-- The device holds `content`: a block's bytes are those at its place, and past the end any.
pub record IsImage (d : BlockIo) (content : List ℕ) : Type 0 where
  pub block_pos : 0 < d.block_size
  pub size : d.size_in_bytes ≡ length content
  pub word : length content < 2 ^ 32
  pub block :
      (b : ℕ)
      → b * d.block_size < length content
      → (bytes : List ℕ) × (d.read_block b ≡ some bytes)
        × (length bytes ≡ d.block_size)
        × (take (length content - b * d.block_size) bytes
            ≡ take d.block_size (drop (b * d.block_size) content))

-- The bytes of a block from `skip` on, as bytes of the content.
part_of_block :
    (content bytes : List ℕ) (start size skip n : ℕ)
    → take (length content - start) bytes ≡ take size (drop start content)
    → skip + n ≤ size
    → start + skip + n ≤ length content
    → take n (drop skip bytes) ≡ take n (drop (start + skip) content)
part_of_block content bytes start size skip n same inside within =
    sym (take-take n (length content - start - skip) (drop skip bytes) (omega arith))
    ∙ ap (take n) (sym (drop-take skip (length content - start) bytes))
    ∙ ap (λ (xs : List ℕ). take n (drop skip xs)) same
    ∙ ap (take n) (drop-take skip size (drop start content))
    ∙ take-take n (size - skip) (drop skip (drop start content)) (omega arith)
    ∙ ap (take n) (drop-drop skip start content)

module _ (d : BlockIo) (content : List ℕ) (v : IsImage d content) where
  -- How many bytes one `read` gives.
  abbrev pub chunk : ℕ → ℕ → ℕ
  chunk offset n = min (d.block_size - offset % d.block_size) (min n (length content - offset))

  read_part-IsImage :
      (offset n : ℕ)
      → offset % d.block_size + n ≤ d.block_size
      → offset + n ≤ length content
      → 0 < n
      → read_part d (offset / d.block_size) (offset % d.block_size) n
        ≡ got n (take n (drop offset content))
  unfolding read_part
  read_part-IsImage offset n inside within pos =
      let parts = div-add-mod' offset d.block_size in
      let (bytes, e, size, same) = v.block (offset / d.block_size) (omega (arith, parts)) in
      rw (read_part, e)
        (ap (got n) (
          part_of_block content bytes _ d.block_size _ n same inside (omega (arith, parts))
          ∙ ap (λ (k : ℕ). take n (drop k content)) parts))

  -- The branch that `read` takes, with the tests decided.
  read-chunk :
      (offset n : ℕ)
      → offset < length content
      → 0 < n
      → read d offset n ≡ (
          if chunk offset n == d.block_size
          then (if offset % d.block_size == 0
              then read_part d (offset / d.block_size) 0 d.block_size
              else stopped)
          else read_part d (offset / d.block_size) (offset % d.block_size) (chunk offset n))
  unfolding read
  read-chunk offset n lt pos =
      let inside : ltb (length content) offset ≡ false = le→ltb _ _ (omega arith) in
      let before : (offset == length content) ≡ false = ne→== _ _ (λ e. absurd (omega arith)) in
      simp (v.size, inside, before)

  read_end : (offset n : ℕ) → offset ≡ length content → read d offset n ≡ got 0 []
  unfolding read
  read_end offset n e =
      let inside : ltb (length content) offset ≡ false = le→ltb _ _ (omega arith) in
      let at_end : (offset == length content) ≡ true = (==_iff _ _).1 e in
      simp (v.size, inside, at_end)

  read_past : (offset n : ℕ) → length content < offset → read d offset n ≡ error
  unfolding read
  read_past offset n lt =
      let outside : ltb (length content) offset ≡ true = lt→ltb _ _ lt in simp (v.size, outside)

  chunk_fits :
      (offset n : ℕ)
      → offset < length content
      → 0 < n
      → (offset % d.block_size + chunk offset n ≤ d.block_size)
        × (offset + chunk offset n ≤ length content)
        × (0 < chunk offset n)
        × (chunk offset n ≤ n)
  chunk_fits offset n lt pos = omega (arith, mod-lt offset v.block_pos, v.block_pos)

  pub read-IsImage :
      (offset n : ℕ)
      → offset < length content
      → 0 < n
      → read d offset n ≡ got (chunk offset n) (take (chunk offset n) (drop offset content))
  read-IsImage offset n lt pos =
      let (inside, within, some_left, _) = chunk_fits offset n lt pos in
      let part = read_part-IsImage offset (chunk offset n) inside within some_left in
      read-chunk offset n lt pos ∙ elim (Bool-cases (chunk offset n == d.block_size)) [
        | inl whole ↦
            let all : chunk offset n ≡ d.block_size = (==_iff _ _).0 whole in
            let start : offset % d.block_size ≡ 0 = omega (arith, all, inside) in
            let aligned : (offset % d.block_size == 0) ≡ true = (==_iff _ _).1 start in
            rw (whole, aligned)
              (ap₂ (read_part d (offset / d.block_size)) (sym start) (sym all) ∙ part)
        | inr cut ↦ rw cut part
      ]

  -- What the loop should return, and that this is what it has when no byte is left to read.
  abbrev Reads : ReadResult → ℕ → ℕ → ℕ → List ℕ → Type 0
  Reads r offset n total bytes =
      let m = min n (length content - offset) in
      r ≡ got (total + m) (bytes ++ take m (drop offset content))

  Reads-all :
      (offset n total : ℕ) (bytes : List ℕ)
      → min n (length content - offset) ≡ 0
      → Reads (got total bytes) offset n total bytes
  Reads-all offset n total bytes e = rw e (ap₂ got (omega arith) (sym (append-nil bytes)))

  -- A chunk, and what follows it.
  Reads-more :
      (r : ReadResult) (offset n total : ℕ) (bytes : List ℕ)
      → offset < length content
      → 0 < n
      → let c = chunk offset n in
        Reads r (offset + c) (n - c) (total + c) (bytes ++ take c (drop offset content))
        → Reads r offset n total bytes
  Reads-more r offset n total bytes lt pos rest =
      let c = chunk offset n in
      let m' = min (n - c) (length content - (offset + c)) in
      let (_, within, _, most) = chunk_fits offset n lt pos in
      let sum : min n (length content - offset) ≡ c + m' = omega arith in
      rw sum (
        rest
        ∙ ap₂ got (omega arith) (
            append_assoc bytes (take c (drop offset content)) (take m' (drop (offset + c) content))
            ∙ ap (λ (xs : List ℕ). bytes ++ (take c (drop offset content) ++ take m' xs))
                (sym (drop-drop c offset content))
            ∙ ap (◌++◌ bytes) (sym (take-add c m' (drop offset content)))))

  -- The loop of `read_all` gives all bytes from `offset` on that there are, `n` at most.
  read_loop-IsImage :
      (fuel offset n total : ℕ) (bytes : List ℕ)
      → n ≤ fuel
      → offset ≤ length content
      → Reads (read_loop d fuel offset n total bytes) offset n total bytes
  unfolding read_loop
  read_loop-IsImage zero offset n total bytes enough in_range =
      let nothing : (n == 0) ≡ true = (==_iff _ _).1 (omega arith) in
      rw nothing (Reads-all offset n total bytes (omega arith))
  read_loop-IsImage (suc fuel) offset n total bytes enough in_range = elim (Bool-cases (n == 0)) [
    | inl none_left ↦
        rw (read_loop, none_left)
          (Reads-all offset n total bytes (omega (arith, (==_iff n 0).0 none_left)))
    | inr more ↦ elim (==-cases offset (length content)) [
      | inl e ↦
          rw (read_loop, more, read_end offset n e) (Reads-all offset n total bytes (omega arith))
      | inr ne ↦
          let lt : offset < length content = omega arith in
          let pos : 0 < n = ground arith in
          let c = chunk offset n in
          let (_, within, some_left, most) = chunk_fits offset n lt pos in
          let step : (c == 0) ≡ false = ne→== _ _ (λ e. absurd (omega (arith, some_left))) in
          let wrap : u32 (offset + c) ≡ offset + c = omega (arith, v.word, within) in
          rw (read_loop, more, read-IsImage offset n lt pos, step, wrap)
            (Reads-more _ offset n total bytes lt pos (
              read_loop-IsImage fuel (offset + c) (n - c) (total + c)
                (bytes ++ take c (drop offset content)) (omega (arith, some_left)) within))
    ]
  ]

  read_loop_past :
      (offset n : ℕ)
      → length content < offset
      → read_loop d n offset n 0 [] ≡ (if n == 0 then got 0 [] else error)
  unfolding read_loop
  read_loop_past offset zero lt = refl
  read_loop_past offset (suc k) lt =
      let more : (suc k == 0) ≡ false = ne→== _ _ (λ e. absurd (omega arith)) in
      rw (read_loop, more, read_past offset (suc k) lt) refl

-- On a device that holds `content`, `read_all` from an offset that is not past the end returns the
-- number of bytes there are, `n` at most, with exactly those bytes of the content, whatever the block
-- size; past the end it is the error, unless no byte is asked for.
pub read_all-IsImage :
    (d : BlockIo) (content : List ℕ) (offset n : ℕ)
    → IsImage d content
    → let m = min n (length content - offset) in
      read_all d offset n ≡ (
        if ltb (length content) offset
        then (if n == 0 then got 0 [] else error)
        else got m (take m (drop offset content)))
unfolding read_all
read_all-IsImage d content offset n v = elim (Bool-cases (ltb (length content) offset)) [
  | inl outside ↦ rw outside (read_loop_past d content v offset n (ltb→lt _ _ outside))
  | inr inside ↦
      let m = min n (length content - offset) in
      let sum : 0 + m ≡ m = omega arith in
      rw inside (
        read_loop-IsImage d content v n offset n 0 [] (le_refl n) (ltb→le _ _ inside)
        ∙ ap (λ (k : ℕ). got k (take m (drop offset content))) sum)
]
