-- ===== src/Tests/Verify.antt =====
-- One address under a cap of one.
use signbyte_bff.Base.{String, ◌≤◌, ◌≡◌, refl, true, [], ◌∷◌, pos, lookup, insert}
use signbyte_bff.Routes.Verify.{InflightGate, at_least_one, new_inflight_gate, acquire, number}
use signbyte_bff.Routes.Verify.Inflight.{
  Reach, IsCounted, running_for, starts, goes_on, begins, Reach-IsCounted_one,
}

abbrev busy : InflightGate
busy = record { max = 1; per_ip = ("a", 1) ∷ [] }

admitted : acquire "a" (new_inflight_gate (pos 0)) ≡ (true, busy)
unfolding acquire new_inflight_gate at_least_one number lookup insert
admitted = refl

reached : Reach (pos 0) (busy, "a" ∷ [])
reached = goes_on starts (begins "a" (new_inflight_gate (pos 0)) busy [] admitted)

one : at_least_one (pos 0) ≡ 1
unfolding at_least_one
one = refl

Reach-IsCounted_one_example :
    IsCounted (pos 0) (busy, "a" ∷ []) × ((j : String) → running_for j ("a" ∷ []) ≤ 1)
Reach-IsCounted_one_example = Reach-IsCounted_one (pos 0) (busy, "a" ∷ []) one reached
