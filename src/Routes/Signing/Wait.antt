-- ===== src/Routes/Signing/Wait.antt =====
-- How long a status poll may be held.
use signbyte_bff.Base.{◌≡◌, refl, Option, none, some, ℤ, pos, negsuc, IsAtMost, arith}
use signbyte_bff.Routes.Signing.{clamped_wait}

-- Whatever the query says, at most ten seconds are passed on; what is not above ten is passed on as it
-- came, and no parameter counts as 0.
pub clamped_wait-IsAtMost :
    (w : Option ℤ)
    → IsAtMost (clamped_wait w) 10
      × ((n : ℤ) → w ≡ some n → IsAtMost n 10 → clamped_wait w ≡ n)
      × (w ≡ none → clamped_wait w ≡ pos 0)
unfolding clamped_wait
clamped_wait-IsAtMost none = (omega arith, λ n e h. cc, λ e. refl)
clamped_wait-IsAtMost (some (negsuc n)) = (tt, λ m e h. cc, λ e. cc)
clamped_wait-IsAtMost (some (pos n)) = (ground arith, λ m e h. ground arith, λ e. cc)
