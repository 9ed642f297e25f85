-- ===== src/Audit.antt =====
-- audit/verify.go and audit/audit.go: the evidence of a public verification, the access records.
use Prim.Native.String.{◌++◌}
use signbyte_bff.Base.{ℕ, String, not, ◌||◌, ◌==◌, if◌then◌else◌}
use signbyte_bff.Errors.{Result, ok, err, Error}
use signbyte_bff.Server.{
  VerifyEvent, evidence_posted, access_recorded, Env, Response, ServiceCall, json_content,
  event_payload,
}
use signbyte_bff.Server.Monad.{M, ret, ◌>>=◌, emit}
use signbyte_bff.Server.Public.{PublicEnv}
use signbyte_bff.Clients.Calls.{is_success}
use signbyte_bff.Clients.Verify.{do_service}

module _ {Db : Type 0} (env : PublicEnv) where
  -- `Record`: the delivery begins in the background, if the recorder is configured.
  unfoldable pub record_event : VerifyEvent → M Db (Unit {0})
  record_event ev =
      if not env.has_doer || env.evidence_url == "" then ret tt else emit (evidence_posted ev)

-- What became of a delivery; the code only logs it.
pub data Delivery : Type 0 where
  not_marshalled : Delivery
  not_delivered : Error → Delivery
  rejected_by_sink : ℕ → Delivery
  delivered : Delivery

unfoldable pub delivery_of : Result Response → Delivery
delivery_of (err e) = not_delivered e
delivery_of (ok resp) =
    if not (is_success resp.status_code) then rejected_by_sink resp.status_code else delivered

unfoldable pub evidence_call : PublicEnv → VerifyEvent → ServiceCall
evidence_call env ev = record {
  timeout = 10;
  audience = env.evidence_audience;
  scope = "verify-audit:write";
  method = "POST";
  url = env.evidence_url ++ "/v1/verify-events";
  content_type = "";
  content = json_content (event_payload ev);
}

-- What `Record` runs in the background, with its own state.
unfoldable pub deliver : {Db : Type 0} → PublicEnv → VerifyEvent → M Db Delivery
deliver env ev =
    if env.marshals_event ev
    then (do_service env (evidence_call env ev) >>= λ resp. ret (delivery_of resp))
    else ret not_marshalled

module _ {Db Key Any : Type 0} (env : Env Db Key Any) where
  -- `documentRead` of audit/audit.go; that a record could not be stored is only logged
  unfoldable pub document_read : String → String → M Db (Unit {0})
  document_read user document_id =
      if not env.has_access_audit || user == ""
      then ret tt
      else emit (access_recorded user document_id)
