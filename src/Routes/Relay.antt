-- ===== src/Routes/Relay.antt =====
-- routes/router.go and routes/session.go: how a failure is answered.
use Prim.Native.String.{◌++◌}
use signbyte_bff.Base.{ℕ, String, Bool, true, false, Option, none, some, leb, if◌then◌else◌}
use signbyte_bff.Errors.{Result, ok, err, Error, upstream}
use signbyte_bff.Server.{Env}
use signbyte_bff.Server.Monad.{M, Reply, problem, refused, relayed, redirect, ret, reply}

-- `outer` of `relayErr`
unfoldable pub outer_status : ℕ → ℕ
outer_status status = if leb 500 status then 502 else status

-- `relayErr`: pkerrors.Relay of the parsed body, or of nothing
unfoldable pub relay_err : Error → Reply
relay_err (upstream he) = relayed (some he.body) (outer_status he.status_code)
relay_err _ = relayed none 502

-- `fail`
abbrev pub internal : Reply
internal = problem "err:portal:internal" none

abbrev pub unauthorized : Reply
unauthorized = problem "err:session:unauthorized" none

module _ {Db : Type 0} {A : Type 0} where
  -- `if err != nil { r.relayErr(ctx, err); return }`
  unfoldable pub or_relay : Result A → M Db A
  or_relay (ok a) = ret a
  or_relay (err e) = reply (relay_err e)

  -- `if err != nil { <the reply>; return }`
  unfoldable pub or_reply : Reply → Result A → M Db A
  or_reply r (ok a) = ret a
  or_reply r (err e) = reply r

  unfoldable pub some_or : Reply → Option A → M Db A
  some_or r none = reply r
  some_or r (some a) = ret a

module _ {Db : Type 0} where
  -- `documentsReady`, `envelopeReady`, `signingReady`
  unfoldable pub ready : String → Bool → M Db (Unit {0})
  ready code true = ret tt
  ready code false = reply (problem code (some 503))

  -- A guard that replies when its test fails.
  unfoldable pub require : Bool → Reply → M Db (Unit {0})
  require true r = ret tt
  require false r = reply r

module _ {Db Key Any : Type 0} (env : Env Db Key Any) where
  -- `redirectWithError`
  unfoldable pub redirect_with_error : String → Reply
  redirect_with_error marker =
      redirect 302 (env.config.post_login_url ++ "?error=" ++ env.query_escape marker)

module _ {Db : Type 0} {A : Type 0} where
  -- `if err := ctx.Body.JSON(&req); err != nil { ctx.Error(err); return }`
  unfoldable pub decoded_body : Result A → M Db A
  decoded_body (ok a) = ret a
  decoded_body (err e) = reply (refused e)
