-- ===== src/Routes/Public.antt =====
-- routes/router.go, routes/health.go and routes/signinmethods.go: what needs no session.
pub mod Blocked
use signbyte_bff.Base.{ℕ, String, Bool, ◌==◌, List, Option, none, some, nat_eq, if◌then◌else◌}
use signbyte_bff.Errors.{Result, ok, err}
use signbyte_bff.Server.{Env, edge_blocked}
use signbyte_bff.Server.Monad.{
  M, Reply, problem, refused, relayed, json, raw, no_body, redirect, panicked, methods_answer,
  status_answer, Res, value, replied, St, ret, reply, ◌>>=◌, ◌>>◌, emit, sample, from_store,
}
use signbyte_bff.Server.Public.{PublicRequest, PublicEnv}
use signbyte_bff.Clients.Offer.{OfferedFlows}
use signbyte_bff.Clients.Offer.Reads.{get_from, sign_in_flows}
use signbyte_bff.Routes.Verify.{InflightGate}
use signbyte_bff.Routes.Verify.Handler.{verify_client_ip, verify_document}

unfoldable pub ready_reply : Result (Unit {0}) → Reply
ready_reply (ok u) = json 200 (status_answer "ready")
ready_reply (err e) = json 503 (status_answer "not_ready")

unfoldable pub healthz : {Db : Type 0} → M Db (Unit {0})
healthz = reply (json 200 (status_answer "ok"))

module _ {Db Key Any : Type 0} (env : Env Db Key Any) where
  -- `readyz`, with `notReady`
  unfoldable pub readyz : M Db (Unit {0})
  readyz = do
    now ← sample env.now
    pinged ← from_store (env.store.ping now)
    reply (ready_reply pinged)

-- `signInMethods`, after `Get`
unfoldable pub methods_reply : Option (List String) → Reply
methods_reply none = problem "err:upstream:unavailable" (some 503)
methods_reply (some methods) = json 200 (methods_answer methods)

-- the status that a response has, where the code sets it
unfoldable pub status_of : Reply → Option ℕ
status_of (problem code status) = status
status_of (refused e) = none
status_of (relayed body status) = some status
status_of (json status a) = some status
status_of (raw status body headers) = some status
status_of (no_body status) = some status
status_of (redirect status target) = some status

unfoldable pub is_too_many : Option ℕ → Bool
is_too_many none = signbyte_bff.Base.false
is_too_many (some status) = nat_eq status 429

module _ (env : PublicEnv) where
  unfoldable pub sign_in_methods : M OfferedFlows (Unit {0})
  sign_in_methods = do o ← get_from env (sign_in_flows env); reply (methods_reply o.flows)

  -- the key of the rate limiter
  unfoldable pub limiter_key : PublicRequest → String
  limiter_key req = if verify_client_ip env req == "" then "unknown" else verify_client_ip env req

  -- the event, after the response
  unfoldable pub edge_block : PublicRequest → Reply → M InflightGate (Unit {0})
  edge_block req r =
      if is_too_many (status_of r)
      then (if env.has_edge_events then emit (edge_blocked (verify_client_ip env req)) else ret tt)
      else ret tt

  unfoldable pub after_response :
      PublicRequest → Res (Unit {0}) × St InflightGate → Res (Unit {0}) × St InflightGate
  after_response req (value u, s) = (value u, s)
  after_response req (replied r, s) = (replied r, (edge_block req r s).1)
  after_response req (panicked, s) = (panicked, s)

  -- `edgeBlockEvents`, around `next`
  unfoldable pub edge_block_events :
      PublicRequest → M InflightGate (Unit {0}) → M InflightGate (Unit {0})
  edge_block_events req next s = after_response req (next s)

  -- the rate limiter, around `next`
  unfoldable pub rate_limit : PublicRequest → M InflightGate (Unit {0}) → M InflightGate (Unit {0})
  rate_limit req next = do
    allowed ← sample (λ i. env.allows i (limiter_key req))
    if allowed then next else reply env.limit_reply

  -- POST /verify
  unfoldable pub verify_route : PublicRequest → M InflightGate (Unit {0})
  verify_route req = edge_block_events req (rate_limit req (verify_document env req))
