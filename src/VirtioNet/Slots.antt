-- ===== src/VirtioNet/Slots.antt =====
-- The slots after `reset_rings_locked` of kernel/virtio_net.cc.
use networking_p.Prelude.{ℕ, zero, suc, ◌≡◌, refl, ap, List, [], ◌∷◌, length, map}
use networking_p.VirtioNet.State.{FrameSlot, slot_at}
use networking_p.VirtioNet.Fake.{reset_slot}

pub reset_at :
    (ss : List FrameSlot) (i : ℕ) → slot_at (map reset_slot ss) i ≡ reset_slot (slot_at ss i)
unfolding reset_slot
reset_at [] i = refl
reset_at (x ∷ ss) zero = refl
reset_at (x ∷ ss) (suc i) = reset_at ss i

pub length-map_reset : (ss : List FrameSlot) → length (map reset_slot ss) ≡ length ss
length-map_reset [] = refl
length-map_reset (x ∷ ss) = ap suc (length-map_reset ss)
