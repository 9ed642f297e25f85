-- ===== src/Routes/Verify.antt =====
-- routes/verify.go, `inflightGate`: the cap on concurrent public verifications of one address. Each
-- operation runs whole under the gate's mutex. A key is a value here; in the source it is a view over the
-- request's buffer, which keeps its text until the request ends. Under a cap of one an entry is made and
-- dropped by the same request.
pub mod Inflight
pub mod Handler
pub mod Evidence
pub mod Forwarded
pub mod Attested
pub mod Released
use signbyte_bff.Base.{
  ℕ, suc, ◌-◌, String, Bool, true, false, [], ◌∷◌, Option, none, some, leb, Map, lookup, insert,
  remove, ℤ, pos, negsuc, if◌then◌else◌,
}

pub record InflightGate : Type 0 where
  pub max : ℕ
  pub per_ip : Map ℕ

-- `max` of a new gate
unfoldable pub at_least_one : ℤ → ℕ
at_least_one (negsuc n) = 1
at_least_one (pos n) = if leb n 0 then 1 else n

unfoldable pub new_inflight_gate : ℤ → InflightGate
new_inflight_gate max_per_key = record { max = at_least_one max_per_key; per_ip = [] }

-- `g.perIP[key]`, 0 when the key is absent
unfoldable pub number : Option ℕ → ℕ
number none = 0
number (some n) = n

unfoldable pub acquire : String → InflightGate → Bool × InflightGate
acquire key g =
    let n : ℕ = number (lookup key g.per_ip) in
    if leb g.max n then (false, g) else (true, record g { per_ip = insert key (suc n) g.per_ip })

unfoldable pub release : String → InflightGate → InflightGate
release key g =
    let n : ℕ = number (lookup key g.per_ip) in
    if leb n 1
    then record g { per_ip = remove key g.per_ip }
    else record g { per_ip = insert key (n - 1) g.per_ip }
