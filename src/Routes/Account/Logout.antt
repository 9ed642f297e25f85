-- ===== src/Routes/Account/Logout.antt =====
-- A sign-out ends the session here, whatever the Auth Service does.
use signbyte_bff.Base.{
  ℕ, suc, String, ◌≡◌, ◌≢◌, refl, ap, Bool, true, false, ◌==◌, Bool-cases, inl, inr, List, ◌∷◌,
  arith, eq_iff, if◌then◌else◌,
}
use signbyte_bff.Errors.{Result, ok, err, not_found}
use signbyte_bff.Session.{Session}
use signbyte_bff.Session.Keys.{parse_key}
use signbyte_bff.Session.Interface.{IsStore}
use signbyte_bff.Server.{Env, Request, Effect, cookie_cleared, revoked}
use signbyte_bff.Server.Monad.{
  M, value, replied, json, logout_answer, St, ret, reply, ◌>>=◌, emit, sample, on_store,
}
use signbyte_bff.Routes.Cookies.{clear_session_cookies, cookie_name, secure_cookies, csrf_cookie}
use signbyte_bff.Routes.Account.{logout, logout_url, revoke_with}

module _ {Db Key Any : Type 0} (env : Env Db Key Any) where
  -- The step before leaves the store alone and goes on.
  abbrev GoesOn : M Db (Unit {0}) → St Db → Type 0
  GoesOn m s = (t : St Db) × (m s ≡ (value tt, t)) × (t.db ≡ s.db)

  revoke-GoesOn :
      (token : String) (key : Result Key) (s : St Db) → GoesOn (revoke_with env token key) s
  unfolding revoke_with ret emit
  revoke-GoesOn token (err e) s = (s, refl, refl)
  revoke-GoesOn token (ok key) s = elim (Bool-cases (token == "")) [
    | inl p ↦ (s, rw p refl, refl)
    | inr p ↦ (record s { step = suc s.step; trace = revoked token ∷ s.trace }, rw p refl, refl)
  ]

  ended-GoesOn :
      (b : Bool) (token : String) (key : Result Key) (s : St Db)
      → GoesOn (if b then revoke_with env token key else ret tt) s
  unfolding ret
  ended-GoesOn true token key s = revoke-GoesOn token key s
  ended-GoesOn false token key s = (s, refl, refl)

  -- A sign-out answers that it is done, clears both cookies last, and leaves a store in which the session
  -- is not found at any time: for a session id that is not empty and a store that keeps its contract and
  -- does not fail to delete.
  pub logout-not_found :
      {session_ttl flow_ttl : ℕ} (req : Request) (sid : String) (sess : Session) (s : St Db) (u : ℕ)
      → IsStore env.store session_ttl flow_ttl
      → ((t : ℕ) (d : Db) → (env.store.delete_session t sid d).0 ≡ ok tt)
      → sid ≢ ""
      → ((logout env req sid sess s).0 ≡ replied (json 200 (logout_answer (logout_url env sess))))
        × (env.store.get_session u sid (logout env req sid sess s).1.db ≡ err not_found)
        × ((rest : List Effect) × ((logout env req sid sess s).1.trace
              ≡ cookie_cleared (cookie_name req csrf_cookie) (secure_cookies req)
                ∷ cookie_cleared (cookie_name req env.config.cookie_name) (secure_cookies req)
                ∷ rest))
  unfolding logout ◌>>=◌ sample on_store clear_session_cookies emit reply
  logout-not_found req sid sess s u laws works named =
      let (t, e, same) =
        ended-GoesOn env.has_auth_service sess.refresh_token (parse_key env.format sess.key) s in
      rw (e, other) (refl, gone t.db (env.now t.step), (t.trace, refl))
    where
      other : (sid == "") ≡ false
      other = ground (arith, eq_iff sid "")

      gone :
          (d : Db) (now : ℕ)
          → env.store.get_session u sid (env.store.delete_session now sid d).1 ≡ err not_found
      gone d now = laws.get-delete now u sid d _ (pair (works now d))
        where
          pair : {x : Result (Unit {0}) × Db} → x.0 ≡ ok tt → x ≡ (ok tt, x.1)
          pair {x} p = ap (λ r. (r, x.1)) p
