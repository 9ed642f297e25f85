-- ===== src/Clients/Offer.antt =====
-- clients/offer.go, `OfferedFlows`: what the signing service runs, remembered for a while. What the
-- service answers, if it is asked, is an argument. A call runs whole under the mutex.
pub mod Remembered
pub mod Reads
use signbyte_bff.Base.{
  ℕ, suc, ◌-◌, String, Bool, true, false, ◌&&◌, List, Option, none, some, ltb, if◌then◌else◌,
}
use signbyte_bff.Errors.{Result, ok, err, Error, offer_stale}

pub record OfferedFlows : Type 0 where
  pub ttl : ℕ
  pub asked : Bool
  pub at : ℕ
  pub flows : Option (List String)
  pub error : Option Error

unfoldable pub new_offered_flows : ℕ → OfferedFlows
new_offered_flows ttl = record { ttl = ttl; asked = false; at = 0; flows = none; error = none }

-- the error that an attempt that failed leaves
unfoldable pub failed : Option (List String) → Error → Error
failed none e = e
failed (some last) e = offer_stale e

-- what is remembered of an answer that came at `now`
unfoldable pub learned : ℕ → Result (List String) → OfferedFlows → OfferedFlows
learned now (ok answer) o = record o { asked = true; at = now; flows = some answer; error = none }
learned now (err e) o = record o { asked = true; at = now; error = some (failed o.flows e) }

-- `asked && now.Sub(at) < ttl`, for a clock that does not go back
unfoldable pub is_remembered : ℕ → OfferedFlows → Bool
is_remembered now o = o.asked && ltb (now - o.at) o.ttl

-- `Get`, which starts at `now` and has an answer, if it asks, at `after`. What it returns is the flows and
-- the error of the state that it leaves.
unfoldable pub get : Result (List String) → ℕ → ℕ → OfferedFlows → OfferedFlows
get answer now after o = if is_remembered now o then o else learned after answer o
