-- ===== src/Tests/Offer.antt =====
-- The signing service is asked once, and then fails.
use signbyte_bff.Base.{◌≡◌, refl, ◌-◌, ◌<◌, false, [], ◌∷◌, arith}
use signbyte_bff.Errors.{ok, err, unreachable}
use signbyte_bff.Clients.Offer.{new_offered_flows, is_remembered, get}
use signbyte_bff.Clients.Offer.Remembered.{get-get}

not_asked : is_remembered 3 (new_offered_flows 60) ≡ false
unfolding is_remembered new_offered_flows
not_asked = refl

within : 50 - 4 < (new_offered_flows 60).ttl
unfolding new_offered_flows
within = omega arith

get-get_example :
    get (err (unreachable "signer")) 50 51 (get (ok ("webEid" ∷ [])) 3 4 (new_offered_flows 60))
    ≡ get (ok ("webEid" ∷ [])) 3 4 (new_offered_flows 60)
get-get_example =
    get-get (ok ("webEid" ∷ [])) (err (unreachable "signer")) 3 4 50 51 (new_offered_flows 60)
      not_asked within
