-- ===== src/Udp/Table.antt =====
-- The handler table of kernel/udp.cc. A handler is a function pointer: a number, 0 for null.
-- Each function holds the lock throughout, so a call is one step on the table.
use networking_p.Prelude.{
  ℕ, Bool, true, false, not, ◌&&◌, ◌||◌, ◌==◌, if◌then◌else◌, Option, none, some, List, [], ◌∷◌,
  replicate,
}

abbrev pub handler_capacity : ℕ
handler_capacity = 8

pub record UdpHandlerEntry : Type 0 where
  pub valid : Bool
  pub port : ℕ
  pub handler : ℕ

abbrev pub zero_handler : UdpHandlerEntry
zero_handler = record { valid = false; port = 0; handler = 0 }

-- The test of the loops: a live entry for the port.
abbrev pub serves : UdpHandlerEntry → ℕ → Bool
serves e port = e.valid && e.port == port

-- The first loop of `udp_register_handler`: `none` if no entry serves the port.
unfoldable pub replace_handler : List UdpHandlerEntry → ℕ → ℕ → Option (List UdpHandlerEntry)
replace_handler [] port handler = none
replace_handler (e ∷ es) port handler =
    let rest = replace_handler es port handler in
    if serves e port
    then some (record e { handler = handler } ∷ es)
    else elim rest [ none ↦ none | some es' ↦ some (e ∷ es') ]

-- Its second loop: `none` if no entry is free.
unfoldable pub add_handler : List UdpHandlerEntry → ℕ → ℕ → Option (List UdpHandlerEntry)
add_handler [] port handler = none
add_handler (e ∷ es) port handler =
    let rest = add_handler es port handler in
    if not e.valid
    then some (record { valid = true; port = port; handler = handler } ∷ es)
    else elim rest [ none ↦ none | some es' ↦ some (e ∷ es') ]

unfoldable pub udp_register_handler : List UdpHandlerEntry → ℕ → ℕ → Bool × List UdpHandlerEntry
udp_register_handler es port handler =
    if port == 0 || handler == 0 then (false, es) else elim (replace_handler es port handler) [
      | some es' ↦ (true, es')
      | none ↦ elim (add_handler es port handler) [ some es' ↦ (true, es') | none ↦ (false, es) ]
    ]

unfoldable pub udp_clear_handlers : List UdpHandlerEntry → List UdpHandlerEntry
udp_clear_handlers es = replicate handler_capacity zero_handler

-- The search of `udp_handle_packet`: the handler of the first entry that serves the port, or null.
unfoldable pub find_handler : List UdpHandlerEntry → ℕ → ℕ
find_handler [] port = 0
find_handler (e ∷ es) port = if serves e port then e.handler else find_handler es port
