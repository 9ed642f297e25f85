-- ===== src/Routes/Signing.antt =====
-- routes/signing.go: the signings of the logged-in user, without the validations.
pub mod Wait
use signbyte_bff.Clients.Signflow as Signflow
use Prim.Native.String.{◌++◌}
use signbyte_bff.Base.{
  ℕ, String, Bool, true, false, not, ◌&&◌, ◌||◌, ◌==◌, ◌++◌ as list_append, List, [], ◌∷◌, Option,
  none, some, ℤ, pos, negsuc, above, length, leb, map, lookup, Map, if◌then◌else◌,
}
use signbyte_bff.Errors.{Result, ok, err, Error, param_invalid}
use signbyte_bff.Session.{Session}
use signbyte_bff.Server.{Env, Request, Response, Effect, access_recorded}
use signbyte_bff.Clients.Types.{SlotInput, CreateInput, BundleEntry, ClientSignature}
use signbyte_bff.Clients.Zero.{zero_created}
use signbyte_bff.Server.Monad.{
  M, Reply, problem, refused, json, raw, no_body, created_answer, envelopes_answer, tasks_answer,
  attached_answer, slot_answer, transition_answer, job_answer, free_answer, archived_answer,
  meta_answer, documents_answer, chain_answer, history_answer, ok_answer, dashboard_answer, ret,
  reply, ◌>>=◌, ◌>>◌, emit,
}
use signbyte_bff.Routes.Relay.{or_relay, or_reply, require, ready, decoded_body}
use signbyte_bff.Routes.Token.{Acting, on_behalf}
use signbyte_bff.Routes.Login.{text_or_empty}
use signbyte_bff.Routes.Dashboard.{compose}
use signbyte_bff.Routes.Documents.{int_or_zero}

-- `maxStatusWait`
abbrev pub max_status_wait : ℕ
max_status_wait = 10

-- `wait`, from the query to what is passed on
unfoldable pub clamped_wait : Option ℤ → ℤ
clamped_wait none = pos 0
clamped_wait (some w) = if above w max_status_wait then pos max_status_wait else w

module _ {Db Key Any : Type 0} (env : Env Db Key Any) where
  unfoldable pub signing_status : Request → String → Session → M Db (Unit {0})
  signing_status req sid sess = do
    ready "err:signing:notConfigured" env.has_signflow
    who ← on_behalf env sid sess
    answer ← Signflow.status env who.obo (req.param "jobId") (clamped_wait (req.query_int "wait"))
    out ← or_relay answer
    reply (json 200 (job_answer out))

  unfoldable pub client_signature :
      Request → Result (List ClientSignature) → String → Session → M Db (Unit {0})
  client_signature req body sid sess = do
    ready "err:signing:notConfigured" env.has_signflow
    who ← on_behalf env sid sess
    input ← decoded_body body
    answer ← Signflow.submit_client_signature env who.obo (req.param "jobId") input
    out ← or_relay answer
    reply (json 200 (job_answer out))

  unfoldable pub abandon_signing : Request → String → Session → M Db (Unit {0})
  abandon_signing req sid sess = do
    ready "err:signing:notConfigured" env.has_signflow
    who ← on_behalf env sid sess
    answer ← Signflow.abandon env who.obo (req.param "jobId")
    out ← or_relay answer
    reply (no_body 204)

  unfoldable pub chain_free : Request → String → Session → M Db (Unit {0})
  chain_free req sid sess = do
    ready "err:signing:notConfigured" env.has_signflow
    who ← on_behalf env sid sess
    require (not (text_or_empty (req.query "envelopeId") == ""))
        (problem "err:signing:invalidRequest" (some 400))
    answer ←
        Signflow.chain_free env who.obo (text_or_empty (req.query "envelopeId"))
          (clamped_wait (req.query_int "wait"))
    out ← or_relay answer
    reply (json 200 (free_answer out))
