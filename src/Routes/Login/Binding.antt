-- ===== src/Routes/Login/Binding.antt =====
-- A return from the Auth Service to a browser that did not start the sign-in.
use signbyte_bff.Base.{String, ◌≡◌, refl, Bool, true, false, not, ◌==◌, arith}
use signbyte_bff.Server.{Env, Request}
use signbyte_bff.Server.Monad.{M, replied, St, ret, reply, ◌>>=◌}
use signbyte_bff.Routes.Relay.{require, redirect_with_error}
use signbyte_bff.Routes.Cookies.{browser_binding}
use signbyte_bff.Routes.Login.{login_callback}

-- The action has answered with an error redirect and changed nothing.
abbrev pub OnlyRedirects : {Db Key Any : Type 0} → Env Db Key Any → M Db (Unit {0}) → Type 0
OnlyRedirects {Db} env m =
    (s : St Db) → (marker : String) × (m s ≡ (replied (redirect_with_error env marker), s))

module _ {Db Key Any : Type 0} (env : Env Db Key Any) where
  guarded :
      (b : Bool) (marker : String) (f : Unit {0} → M Db (Unit {0}))
      → (b ≡ true → OnlyRedirects env (f tt))
      → OnlyRedirects env (require b (redirect_with_error env marker) >>= f)
  unfolding ◌>>=◌ require ret reply
  guarded true marker f h s = h refl s
  guarded false marker f h s = (marker, refl)

  -- A return without the sign-in binding of the browser leaves the store, and so every parked sign-in,
  -- as it was, asks the Auth Service nothing, sets no cookie and ends in an error redirect.
  pub login_callback_unbound :
      (req : Request) → browser_binding env req ≡ "" → OnlyRedirects env (login_callback env req)
  unfolding login_callback
  login_callback_unbound req e =
      guarded _ _ _ λ p. guarded _ _ _ λ q. guarded _ _ _ λ r. guarded _ _ _ λ b. absurd (bound b)
    where
      bound : not (browser_binding env req == "") ≡ true → ⊥
      bound b = ground (arith, rw e at b)
