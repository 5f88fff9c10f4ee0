-- ===== src/Tests/Memory.antt =====
-- A machine with two usable ranges of memory, the second above the tracked frames, for the theorems
-- on kernel/physmem.cc.
use networking_p.Prelude.{
  ℕ, ◌+◌, ◌-◌, ◌*◌, ◌^◌, ◌<◌, ◌≡◌, ◌↔◌, refl, inl, Bool, true, false, some, none, List, [], ◌∷◌,
  arith,
}
use networking_p.Prelude.Assert.{◌>>=◌}
use networking_p.Prelude.Sets.{updated}
use networking_p.PhysMem.{
  MemMapEntry, PhysMem, phys_mem, alloc, free, usable_in, usable_at, add_ranges, zero_frame,
  take_range, check_canonical, rest_ranges,
}
use networking_p.PhysMem.Memory.{IsDirectMap, va}
use networking_p.PhysMem.Usable.{IsMemMap}
use networking_p.PhysMem.Owned.{IsUsable, IsOwned}
use networking_p.PhysMem.Claim.{claimed}
use networking_p.PhysMem.Steps.{
  Reach, start, next, allocates, Reach-IsOwned, alloc_fresh, alloc_full,
}
use networking_p.PhysMem.Twice.{free-free}

abbrev offset : ℕ
offset = 2 ^ 64 - 2 ^ 47

abbrev memmap : List MemMapEntry
memmap =
    record { base = 4096; length = 8192; kind = 0 }
    ∷ record { base = 16384; length = 4096; kind = 1 }
    ∷ record { base = 2 ^ 28; length = 4096; kind = 0 }
    ∷ []

abbrev blank : ℕ → ℕ
blank a = 7

direct : IsDirectMap offset
direct = record { upper = omega arith; word = omega arith; aligned = refl }

memmap-IsMemMap : IsMemMap offset memmap
memmap-IsMemMap = (
  record {
    base_aligned = refl;
    length_aligned = refl;
    some_frames = omega arith;
    not_first = omega arith;
    mapped = omega arith;
  },
  (inl (omega arith), tt),
  (
    record {
      base_aligned = refl;
      length_aligned = refl;
      some_frames = omega arith;
      not_first = omega arith;
      mapped = omega arith;
    },
    tt,
    tt,
  ),
)

abbrev booted : PhysMem
booted = phys_mem (some memmap) blank

abbrev nothing_used : ℕ → Bool
nothing_used p = false

abbrev one_taken : PhysMem
one_taken = claimed offset booted (2 ^ 16) 0 (record { base = 4096; length = 8192 } ∷ [])

first_alloc : alloc offset booted ≡ some (2 ^ 16, one_taken)
unfolding alloc phys_mem add_ranges zero_frame take_range check_canonical rest_ranges
first_alloc = refl

booted-Reach : Reach offset memmap blank booted nothing_used
booted-Reach = start

one_taken-Reach : Reach offset memmap blank one_taken (updated nothing_used (2 ^ 16) true)
one_taken-Reach = next booted-Reach (allocates (2 ^ 16) one_taken first_alloc)

Reach-IsOwned_example : IsOwned offset memmap one_taken (updated nothing_used (2 ^ 16) true)
Reach-IsOwned_example =
    Reach-IsOwned offset memmap direct memmap-IsMemMap blank one_taken
      (updated nothing_used (2 ^ 16) true) one_taken-Reach

alloc_fresh_example :
    (nothing_used (2 ^ 16) ≡ false)
    × IsUsable memmap (2 ^ 16)
    × ((i : ℕ) → i < 512 → one_taken.memory (va offset (2 ^ 16) + 8 * i) ≡ 0)
alloc_fresh_example =
    alloc_fresh offset memmap direct memmap-IsMemMap blank booted nothing_used booted-Reach (2 ^ 16)
      one_taken first_alloc

alloc_full_example :
    (alloc offset booted ≡ none) ↔ ((p : ℕ) → IsUsable memmap p → nothing_used p ≡ true)
alloc_full_example =
    alloc_full offset memmap direct memmap-IsMemMap blank booted nothing_used booted-Reach

free-free_example :
    (t u : PhysMem) × ((free offset (some memmap) (2 ^ 16) one_taken
        >>= free offset (some memmap) (2 ^ 16)
        >>= alloc offset)
      ≡ some (2 ^ 16, t))
    × (alloc offset t ≡ some (2 ^ 16, u))
    × (u.avail ≡ 0)
unfolding usable_in usable_at
free-free_example =
    free-free offset memmap direct memmap-IsMemMap one_taken (2 ^ 16) refl (omega arith)
      (omega arith)
