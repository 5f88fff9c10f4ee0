-- ===== src/Tests/Refs.antt =====
-- A run on the references of kernel/shared.h: an object, a weak reference to it, a second strong one
-- made from that, and the end of the first.
use networking_p.Prelude.{Member, IsDistinct, ℕ, ◌≡◌, ◌≢◌, ◌↔◌, refl, Option, none, some, arith}
use networking_p.Shared.{
  Store, strong_ref, weak_ref, put, add_strong, remove_strong, drop_strong, add_weak, middle_of,
  construct_strong, construct_weak, make_strong, clear_strong, assign_strong, dereference,
  strong_at, weak_at,
}
use networking_p.Shared.Runs.{
  new_object, copy_weak, end_strong, set_strong, perform, IsReady, nothing_made, Reach, begin, next,
  perform_lem, dereference_lem,
}
use networking_p.Shared.Lives.{IsReferred, deleted_lem, freed_lem}

abbrev result : Option Store → Store
result none = nothing_made 2 1
result (some s) = s

abbrev one_object : Store
one_object = result (perform (new_object 0 7 100) (nothing_made 2 1))

abbrev watched : Store
watched = result (perform (copy_weak 0 (strong_ref 0)) one_object)

abbrev shared : Store
shared = result (perform (set_strong 1 (weak_ref 0)) watched)

abbrev handed_on : Store
handed_on = result (perform (end_strong 0) shared)

one_object-Reach : Reach 2 1 one_object
unfolding perform make_strong IsReady put
one_object-Reach =
    next (new_object 0 7 100) begin
      (omega arith, refl, omega arith, λ i. i, (λ e. omega arith), refl) refl

watched-Reach : Reach 2 1 watched
unfolding perform make_strong construct_weak add_weak middle_of IsReady put
watched-Reach = next (copy_weak 0 (strong_ref 0)) one_object-Reach (omega arith, refl) refl

shared-Reach : Reach 2 1 shared
unfolding perform make_strong construct_weak construct_strong assign_strong add_strong remove_strong
    add_weak middle_of IsReady put
shared-Reach = next (set_strong 1 (weak_ref 0)) watched-Reach (omega arith) refl

handed_on-Reach : Reach 2 1 handed_on
unfolding perform make_strong construct_weak construct_strong assign_strong add_strong remove_strong
    add_weak clear_strong drop_strong middle_of IsReady put
handed_on-Reach = next (end_strong 0) shared-Reach (omega arith) refl

perform_lem_example : (t : Store) × (perform (end_strong 0) shared ≡ some t) × Reach 2 1 t
unfolding perform make_strong construct_weak construct_strong assign_strong add_strong remove_strong
    add_weak middle_of IsReady put
perform_lem_example =
    perform_lem 2 1 (omega arith) (omega arith) shared shared-Reach (end_strong 0) (omega arith)

dereference_lem_example :
    (t : ℕ) × (dereference 1 handed_on ≡ some t)
    × Member t handed_on.made
    × (¬ Member t handed_on.deleted)
unfolding perform make_strong construct_weak construct_strong assign_strong add_strong remove_strong
    add_weak clear_strong drop_strong middle_of IsReady put
dereference_lem_example =
    dereference_lem 2 1 (omega arith) (omega arith) handed_on handed_on-Reach 1 (λ e. omega arith)

deleted_lem_example :
    IsDistinct handed_on.deleted
    × ((t : ℕ) → Member t handed_on.made → Member t handed_on.deleted ↔ (¬ IsReferred handed_on t))
deleted_lem_example = deleted_lem 2 1 (omega arith) (omega arith) handed_on handed_on-Reach

freed_lem_example :
    (handed_on.middles 100 ≡ none)
    ↔ (((i : ℕ) → strong_at handed_on i ≢ 100) × ((i : ℕ) → weak_at handed_on i ≢ 100))
freed_lem_example =
    freed_lem 2 1 (omega arith) (omega arith) handed_on handed_on-Reach 100 (λ e. omega arith)
