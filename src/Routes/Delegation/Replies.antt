-- ===== src/Routes/Delegation/Replies.antt =====
-- Every request to a route of the authenticated group is answered.
use signbyte_bff.Base.{suc, String, ◌==◌, [], ◌≡◌, sym, Bool-cases, inl, inr, if◌then◌else◌}
use mathlib.Core.Path.{subst}
use signbyte_bff.Errors.{Result, ok, err}
use signbyte_bff.Session.{Session}
use signbyte_bff.Server.{Env, Request, denied}
use signbyte_bff.Server.Monad.{St, ret, reply, ◌>>=◌, emit, sample, from_store}
use signbyte_bff.Server.Safe.{
  Never, Responds, Outcome, Any as Whatever, Safe-then, Safe-ret, Safe-reply, Safe-if,
}
use signbyte_bff.Routes.Cookies.{read_cookie}
use signbyte_bff.Routes.Gate.{csrf_passes, csrf_denied, csrf_refused, with_session, require_session}
use signbyte_bff.Routes.Table.{Route, handler, authed}
use signbyte_bff.Routes.Delegation.Base.{AreDelegated, Delegates, clear-Safe, emit-Delegates}
use signbyte_bff.Routes.Delegation.All.{handler-Delegates}

module _ {Db Key Any : Type 0} (env : Env Db Key Any) (route : Route) (req : Request) where
  csrf_denied-Safe :
      (sub : String) (sess : Session)
      → Delegates env.has_documents sub Whatever (csrf_denied env sess)
  unfolding csrf_denied
  csrf_denied-Safe sub sess =
      Safe-if env.has_sec_events (emit (denied sess.subject)) (ret tt)
        (λ k. emit-Delegates sub _ tt) (λ k. Safe-ret _ tt)

  with_session-Replies :
      (sid : String) (r : Result Session) (s : St Db)
      → s.trace ≡ []
      → Outcome Never
          (Responds env.has_documents)
          (with_session env req sid (handler env route req) r s).0
  unfolding with_session
  with_session-Replies sid (err x) s e =
      ((Safe-then _ _ (clear-Safe {d = env.has_documents} "" req env.config.cookie_name)
          λ u. Safe-reply {Q = Never} _ tt).at
        s (empty e)).1
    where
      empty : s.trace ≡ [] → AreDelegated "" s.trace
      empty p = subst (AreDelegated "") (sym p) tt
  with_session-Replies sid (ok sess) s e =
      (all.at s (subst (AreDelegated sess.subject) (sym e) tt)).1
    where
      all : Delegates env.has_documents sess.subject Never (
          if csrf_passes req sess
          then handler env route req sid sess
          else (csrf_denied env sess >>= λ u. reply csrf_refused))
      all =
          Safe-if (csrf_passes req sess) (handler env route req sid sess)
            (csrf_denied env sess >>= λ u. reply csrf_refused)
            (λ k. handler-Delegates env route req sid sess)
            (λ k. Safe-then _ _ (csrf_denied-Safe sess.subject sess) λ u. Safe-reply _ tt)

  answered :
      (s : St Db)
      → s.trace ≡ []
      → Outcome Never (Responds env.has_documents) (authed env route req s).0
  unfolding authed require_session ◌>>=◌ sample from_store reply
  answered s e = elim (Bool-cases (read_cookie req env.config.cookie_name == "")) [
    | inl p ↦ rw p tt
    | inr p ↦ rw p (with_session-Replies _ _ (record s { step = suc s.step }) e)
  ]
