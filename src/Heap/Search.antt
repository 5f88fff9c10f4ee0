-- ===== src/Heap/Search.antt =====
-- The loop of `malloc` of kernel/heap.cc over the available blocks.
use networking_p.Prelude.{
  ℕ, zero, suc, ◌+◌, ◌-◌, ◌^◌, ◌≤◌, ◌<◌, ◌≡◌, ◌≢◌, ◌⊎◌, inl, inr, refl, sym, ◌∙◌, subst, Bool, true,
  false, ◌&&◌, ◌||◌, leb, ltb, ◌==◌, if◌then◌else◌, Option, some, ==_iff, ==-cases, ne→==,
  Bool-cases, arith,
}
use mathlib.Core.Bool.{false≢true}
use networking_p.Prelude.Sets.{card, card_bound, card_less}
use networking_p.Heap.{Heap, is_taken, size, next, search}
use networking_p.Heap.Words.{next_lem}
use networking_p.Heap.Links.{IsLinked}

module _ (h : Heap) (free : ℕ → Bool) (rank : ℕ → ℕ) (l : IsLinked h free rank)
    (untaken : (i : ℕ) → free i ≡ true → is_taken h i ≡ false)
    (sized : (i : ℕ) → free i ≡ true → size h i < 2 ^ 31) (entries : ℕ) where
  -- The free blocks that the list holds from `p` on.
  pub up_to : ℕ → ℕ → Bool
  up_to p j = free j && leb (rank j) (rank p)

  pub ahead : ℕ → ℕ
  ahead p = card h.len (up_to p)

  -- Nothing is found yet, or a block that is large enough.
  abbrev pub IsFound : ℕ → ℕ → Type 0
  IsFound it mx =
      ((it ≡ 0) × (mx ≡ 2 ^ 64 - 1)) ⊎ ((free it ≡ true) × (mx ≡ size h it) × (entries ≤ size h it))

  up_to_next : (p : ℕ) → free p ≡ true → h.array (p + 1) ≢ 0 → ahead (h.array (p + 1)) < ahead p
  unfolding ahead up_to
  up_to_next p f nz =
      let after = l.next_free p f nz in
      let in_heap = l.inside p f in
      card_less (up_to (h.array (p + 1))) (up_to p) (λ j e. ground (arith, after.2)) h.len p
        (omega arith) (ground (arith, after.2)) (ground (arith, f))

  some_ahead : (p : ℕ) → free p ≡ true → 0 < ahead p
  unfolding ahead up_to
  some_ahead p f =
      let in_heap = l.inside p f in
      let more =
        card_less (λ j. false) (up_to p) (λ j e. absurd (false≢true e)) h.len p (omega arith) refl
          (ground (arith, f)) in
      omega arith

  -- The blocks from `p` on that are too small.
  abbrev pub TooSmall : ℕ → Type 0
  TooSmall p = (j : ℕ) → free j ≡ true → p ≢ 0 → rank j ≤ rank p → size h j < entries

  small_step :
      (p : ℕ) → free p ≡ true → size h p < entries → TooSmall (h.array (p + 1)) → TooSmall p
  small_step p f lt rest j fj nz le = elim (==-cases (rank j) (rank p)) [
    | inl e ↦ subst (λ k. size h k < entries) (sym (l.distinct j p fj f e)) lt
    | inr ne ↦ let after = l.tight p j f fj (omega arith) in rest j fj after.0 after.1
  ]

  better-IsFound :
      (p mx it : ℕ)
      → free p ≡ true
      → entries ≤ size h p
      → IsFound it mx
      → IsFound (if ltb (size h p) mx then p else it) (if ltb (size h p) mx then size h p else mx)
        × ((if ltb (size h p) mx then p else it) ≢ 0)
  better-IsFound p mx it f fits found = elim (Bool-cases (ltb (size h p) mx)) [
    | inl e ↦ rw e (inr (f, refl, fits), λ z. omega (arith, (l.inside p f).0))
    | inr e ↦ rw e (
      found,
      elim found [
        | inl g ↦ absurd (ground (arith, e, g.1, sized p f))
        | inr g ↦ λ z. omega (arith, (l.inside it g.0).0)
      ],
    )
  ]

  pub ahead-le-len : (p : ℕ) → ahead p ≤ h.len
  unfolding ahead
  ahead-le-len p = card_bound h.len (up_to p)

  -- A place in the list that the rounds are enough for.
  abbrev pub IsReached : ℕ → ℕ → Type 0
  IsReached p fuel = (p ≡ 0) ⊎ ((free p ≡ true) × (ahead p ≤ fuel))

  -- As many rounds as the heap has words are enough from the head of the list.
  pub avail-IsReached : IsReached h.avail h.len
  avail-IsReached = elim (==-cases h.avail 0) [
    | inl z ↦ inl z
    | inr ne ↦ inr ((l.head_free ne).0, ahead-le-len h.avail)
  ]

  abbrev pub Ends : ℕ → ℕ → Option (ℕ × ℕ) → Type 0
  Ends p it o =
      (it' : ℕ) × (mx' : ℕ) × (o ≡ some (it', mx'))
      × IsFound it' mx'
      × (it' ≡ 0 → (it ≡ 0) × TooSmall p)

  next-IsReached : (p fuel : ℕ) → free p ≡ true → ahead p ≤ suc fuel → IsReached (next h p) fuel
  next-IsReached p fuel f enough =
      let same = next_lem h p (omega (arith, (l.inside p f).1, l.small)) in
      elim (==-cases (h.array (p + 1)) 0) [
        | inl z ↦ inl (same ∙ z)
        | inr nz ↦ rw same (inr ((l.next_free p f nz).0, omega (arith, up_to_next p f nz)))
      ]

  -- The loop ends within the rounds that it has, and finds a block if one is large enough.
  pub search_lem :
      (fuel p count_down mx it : ℕ)
      → IsReached p fuel
      → IsFound it mx
      → Ends p it (search h entries fuel p count_down mx it)
  unfolding search
  search_lem zero p c mx it (inl z) found =
      let end = (==_iff p 0).1 z in
      rw end (it, mx, refl, found, λ e. (e, λ j fj nz le. absurd (nz z)))
  search_lem zero p c mx it (inr (f, enough)) found = absurd (omega (arith, some_ahead p f))
  search_lem (suc fuel) p c mx it (inl z) found =
      let end = (==_iff p 0).1 z in
      rw (search, end) (it, mx, refl, found, λ e. (e, λ j fj nz le. absurd (nz z)))
  search_lem (suc fuel) p c mx it (inr (f, enough)) found =
      let more = ne→== p 0 (λ z. omega (arith, (l.inside p f).0)) in
      let taken = untaken p f in
      let reached = next-IsReached p fuel f enough in
      elim (Bool-cases (leb entries (size h p))) [
        | inr small ↦
            let (it', mx', e, found', none_left) =
              search_lem fuel (next h p) c mx it reached found in
            let same = next_lem h p (omega (arith, (l.inside p f).1, l.small)) in
            rw (search, more, taken, small)
              (
                it',
                mx',
                e,
                found',
                λ z. (
                  (none_left z).0,
                  small_step p f (ground (arith, small)) (subst TooSmall same (none_left z).1),
                ),
              )
        | inl fits ↦
            let (found', nz) = better-IsFound p mx it f (ground (arith, fits)) found in
            elim (Bool-cases (c - 1 == 0 || size h p == entries)) [
              | inl stop ↦
                  rw (search, more, taken, fits, stop) (_, _, refl, found', λ z. absurd (nz z))
              | inr go ↦
                  let (it', mx', e, found'', none_left) =
                    search_lem fuel (next h p) (c - 1) _ _ reached found' in
                  rw (search, more, taken, fits, go)
                    (it', mx', e, found'', λ z. absurd (nz (none_left z).0))
            ]
      ]
