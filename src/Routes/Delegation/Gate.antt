-- ===== src/Routes/Delegation/Gate.antt =====
-- The authenticated group as a whole: the gate, then the handler.
use signbyte_bff.Base.{
  suc, String, ◌≡◌, ◌≢◌, refl, sym, All, List, [], ◌∷◌, true, ◌==◌, Bool-cases, In, All-In, inl,
  inr, arith,
}
use mathlib.Core.Path.{subst}
use signbyte_bff.Errors.{Result, ok, err, Error}
use signbyte_bff.Session.{Session}
use signbyte_bff.Server.{Env, Request, Response, Call, Effect, called}
use signbyte_bff.Server.Monad.{M, St, ret, reply, ◌>>=◌, ◌>>◌, emit, sample, from_store}
use signbyte_bff.Routes.Cookies.{read_cookie, clear_session_cookies}
use signbyte_bff.Routes.Gate.{csrf_passes, csrf_denied, csrf_refused, with_session, require_session}
use signbyte_bff.Routes.Table.{Route, handler, authed}
use signbyte_bff.Routes.Delegation.Base.{IsDelegated}
use signbyte_bff.Routes.Delegation.All.{handler-Delegates}

-- A call comes from the handler, once the session was found and the anti-forgery check was passed.
module _ {Db Key Any : Type 0} (env : Env Db Key Any) (req : Request) where
  In-empty : (xs : List Effect) (c : Call) (a : Result Response) → xs ≡ [] → In (called c a) xs → ⊥
  In-empty [] c a e m = absurd m
  In-empty (x ∷ xs) c a e m = cc

  refused-silent :
      (sess : Session) (s : St Db) (c : Call) (a : Result Response)
      → In (called c a) ((csrf_denied env sess >> reply {A = Unit {0}} csrf_refused) s).1.trace
      → In (called c a) s.trace
  unfolding csrf_denied emit ret reply ◌>>=◌
  refused-silent sess s c a m = elim (Bool-cases env.has_sec_events) [
    | inl p ↦ ground (arith, p)
    | inr p ↦ ground (arith, p)
  ]

  module _ (next : String → Session → M Db (Unit {0})) (sid : String) where
    passed :
        (sess : Session) (s : St Db) (c : Call) (a : Result Response)
        → s.trace ≡ []
        → In (called c a) (with_session env req sid next (ok sess) s).1.trace
        → (csrf_passes req sess ≡ true) × In (called c a) (next sid sess s).1.trace
    unfolding with_session
    passed sess s c a e m = elim (Bool-cases (csrf_passes req sess)) [
      | inl p ↦ (p, rw p at m)
      | inr p ↦ absurd (In-empty s.trace c a e (refused-silent sess s c a (rw p at m)))
    ]

    cleared :
        (x : Error) (s : St Db) (c : Call) (a : Result Response)
        → In (called c a) (with_session env req sid next (err x) s).1.trace
        → In (called c a) s.trace
    unfolding with_session clear_session_cookies emit ◌>>=◌ reply
    cleared x s c a (inl e) = cc
    cleared x s c a (inr (inl e)) = cc
    cleared x s c a (inr (inr m)) = m

    found :
        (r : Result Session) (s : St Db) (c : Call) (a : Result Response)
        → s.trace ≡ []
        → In (called c a) (with_session env req sid next r s).1.trace
        → (sess : Session) × (r ≡ ok sess)
          × (csrf_passes req sess ≡ true)
          × In (called c a) (next sid sess s).1.trace
    found (ok sess) s c a e m = let (p, k) = passed sess s c a e m in (sess, refl, p, k)
    found (err x) s c a e m = absurd (In-empty s.trace c a e (cleared x s c a m))

  -- The session that the store has for the request's cookie at the time of the state.
  abbrev pub found_session : St Db → Result Session
  found_session s =
      env.store.get_session (env.now s.step) (read_cookie req env.config.cookie_name) s.db

-- A request to a modelled route of the authenticated group, from an empty trace, calls a composed service
-- only if the store has a session for its cookie at that time and it passes that session's anti-forgery
-- check; and each call is made with that session's subject and a token that is not empty.
pub authed_calls :
    {Db Key Any : Type 0} (env : Env Db Key Any) (route : Route) (req : Request) (s : St Db)
    (c : Call) (a : Result Response)
    → s.trace ≡ []
    → In (called c a) (authed env route req s).1.trace
    → (sess : Session) × (found_session env req s ≡ ok sess)
      × (csrf_passes req sess ≡ true)
      × (c.sub ≡ sess.subject)
      × (c.token ≢ "")
unfolding authed require_session ◌>>=◌ sample from_store reply
authed_calls env route req s c a e m =
    elim (Bool-cases (read_cookie req env.config.cookie_name == "")) [
      | inl p ↦ absurd (In-empty env req s.trace c a e (rw p at m))
      | inr p ↦
          let s' : St _ = record s { step = suc s.step } in
          let (sess, q, k, n) =
            found env req (handler env route req) (read_cookie req env.config.cookie_name)
              (found_session env req s) s' c a e (rw p at m) in
          let h =
            (handler-Delegates env route req _ sess).at s'
              (subst (All (IsDelegated sess.subject)) (sym e) tt) in
          let (sub, token) = All-In (IsDelegated sess.subject) _ _ h.0 n in (sess, q, k, sub, token)
    ]
