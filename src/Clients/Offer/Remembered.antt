-- ===== src/Clients/Offer/Remembered.antt =====
-- How often the signing service is asked.
use signbyte_bff.Base.{ℕ, ◌-◌, ◌<◌, String, ◌≡◌, false, List, arith}
use signbyte_bff.Errors.{Result, ok, err}
use signbyte_bff.Clients.Offer.{OfferedFlows, learned, is_remembered, get}

-- A call that asks, and is answered or refused, is the last to ask for the lifetime: a later call within
-- it changes nothing and so returns the same, whatever the service would answer.
pub get-get :
    (answer other : Result (List String)) (now after later end : ℕ) (o : OfferedFlows)
    → is_remembered now o ≡ false
    → later - after < o.ttl
    → get other later end (get answer now after o) ≡ get answer now after o
unfolding get learned is_remembered
get-get (ok flows) other now after later end o p lt = ground (arith, p)
get-get (err e) other now after later end o p lt = ground (arith, p)
