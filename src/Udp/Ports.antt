-- ===== src/Udp/Ports.antt =====
-- Registering a handler and finding it, in kernel/udp.cc.
use networking_p.Prelude.{
  ℕ, ◌≡◌, refl, Bool, true, false, not, ◌&&◌, ◌||◌, ◌==◌, if◌then◌else◌, Option, none, some, List,
  [], ◌∷◌, Bool-cases, inl, inr, arith,
}
use networking_p.Udp.Table.{
  UdpHandlerEntry, serves, replace_handler, add_handler, udp_register_handler, find_handler,
}

-- Some live entry is for the port; some entry is free.
unfoldable pub has_port : List UdpHandlerEntry → ℕ → Bool
has_port [] port = false
has_port (e ∷ es) port = serves e port || has_port es port

unfoldable pub has_room : List UdpHandlerEntry → Bool
has_room [] = false
has_room (e ∷ es) = not e.valid || has_room es

module _ (port handler : ℕ) where
  -- The table finds the handler for the port, and for other ports what `es` finds.
  abbrev Finds : List UdpHandlerEntry → List UdpHandlerEntry → Type 0
  Finds es es' =
      (other : ℕ)
      → find_handler es' other ≡ (if other == port then handler else find_handler es other)

  -- What the two loops should do.
  abbrev Replaced : List UdpHandlerEntry → Option (List UdpHandlerEntry) → Type 0
  Replaced es none = has_port es port ≡ false
  Replaced es (some es') = (has_port es port ≡ true) × Finds es es'

  abbrev Added : List UdpHandlerEntry → Option (List UdpHandlerEntry) → Type 0
  Added es none = has_room es ≡ false
  Added es (some es') = (has_room es ≡ true) × (has_port es port ≡ false → Finds es es')

  keep-Finds :
      (e : UdpHandlerEntry) (es es' : List UdpHandlerEntry)
      → serves e port ≡ false
      → Finds es es'
      → Finds (e ∷ es) (e ∷ es')
  unfolding find_handler
  keep-Finds e es es' s rest other = ground (arith, rest other)

  Replaced-cons :
      (e : UdpHandlerEntry) (es : List UdpHandlerEntry) (o : Option (List UdpHandlerEntry))
      → serves e port ≡ false
      → Replaced es o
      → Replaced (e ∷ es) (elim o [ none ↦ none | some es' ↦ some (e ∷ es') ])
  unfolding has_port
  Replaced-cons e es none s r = rw s r
  Replaced-cons e es (some es') s r = (rw s r.0, keep-Finds e es es' s r.1)

  replace_handler-Replaced :
      (es : List UdpHandlerEntry) → Replaced es (replace_handler es port handler)
  unfolding replace_handler find_handler has_port
  replace_handler-Replaced [] = refl
  replace_handler-Replaced (e ∷ es) = elim (Bool-cases (serves e port)) [
    | inl s ↦ rw s (rw s refl, λ other. ground arith)
    | inr s ↦
        rw s (Replaced-cons e es (replace_handler es port handler) s (replace_handler-Replaced es))
  ]

  Added-cons :
      (e : UdpHandlerEntry) (es : List UdpHandlerEntry) (o : Option (List UdpHandlerEntry))
      → e.valid ≡ true
      → Added es o
      → Added (e ∷ es) (elim o [ none ↦ none | some es' ↦ some (e ∷ es') ])
  unfolding has_room has_port
  Added-cons e es none s r = rw s r
  Added-cons e es (some es') s r =
      (rw s r.0, λ unserved. keep-Finds e es es' (ground arith) (r.1 (ground arith)))

  -- A free entry serves nothing.
  free-Finds :
      (e : UdpHandlerEntry) (es : List UdpHandlerEntry)
      → e.valid ≡ false
      → has_port es port ≡ false
      → Finds (e ∷ es) (record { valid = true; port = port; handler = handler } ∷ es)
  unfolding find_handler
  free-Finds e es dead unserved other = ground arith

  add_handler-Added : (es : List UdpHandlerEntry) → Added es (add_handler es port handler)
  unfolding add_handler has_room has_port
  add_handler-Added [] = refl
  add_handler-Added (e ∷ es) = by_mark e.valid refl (add_handler-Added es)
    where
      by_mark :
          (b : Bool)
          → e.valid ≡ b
          → Added es (add_handler es port handler)
          → Added (e ∷ es) (
              if not b
              then some (record { valid = true; port = port; handler = handler } ∷ es)
              else elim (add_handler es port handler) [ none ↦ none | some es' ↦ some (e ∷ es') ])
      by_mark true live rest = Added-cons e es (add_handler es port handler) live rest
      by_mark false dead rest = (rw dead refl, λ unserved. free-Finds e es dead (ground arith))

-- A registration succeeds exactly if the port and the handler are not zero and the table serves
-- the port already or has a free entry. After it the port finds the new handler; every other port,
-- and after a failure every port, finds what it found before.
pub udp_register_handler_lem :
    (es : List UdpHandlerEntry) (port handler : ℕ)
    → let (ok, es') = udp_register_handler es port handler in
      (ok ≡ (not (port == 0 || handler == 0) && (has_port es port || has_room es)))
      × ((other : ℕ)
          → find_handler es' other
            ≡ (if ok && other == port then handler else find_handler es other))
unfolding udp_register_handler
udp_register_handler_lem es port handler =
    by_case (port == 0 || handler == 0) (replace_handler es port handler)
      (add_handler es port handler) (replace_handler-Replaced port handler es)
      (add_handler-Added port handler es)
  where
    by_case :
        (bad : Bool) (o p : Option (List UdpHandlerEntry))
        → Replaced port handler es o
        → Added port handler es p
        → let (ok, es') : Bool × List UdpHandlerEntry = if bad then (false, es) else elim o [
          | some es' ↦ (true, es')
          | none ↦ elim p [ some es' ↦ (true, es') | none ↦ (false, es) ]
        ] in
          (ok ≡ (not bad && (has_port es port || has_room es)))
          × ((other : ℕ)
              → find_handler es' other
                ≡ (if ok && other == port then handler else find_handler es other))
    by_case true o p r a = (refl, λ other. refl)
    by_case false (some es') p r a = (rw r.0 refl, r.1)
    by_case false none (some es') r a = (rw (r, a.0) refl, a.1 r)
    by_case false none none r a = (rw (r, a) refl, λ other. refl)
