-- ===== src/Clients/Signflow.antt =====
-- clients/signflow.go: the calls of the signing orchestrator.
use Prim.Native.String.{◌++◌}
use signbyte_bff.Base.{String, Bool, false, List, some, ℤ, above, if◌then◌else◌}
use signbyte_bff.Errors.{Result}
use signbyte_bff.Server.{
  OnBehalf, Env, Content, no_content, begin_payload, signatures_payload, archive_payload,
  document_payload, signature_payload, Validation,
}
use signbyte_bff.Server.Monad.{M}
use signbyte_bff.Clients.Types.{BeginInput, Job, ClientSignature, ArchivedDocument}
use signbyte_bff.Clients.Zero.{zero_job, zero_archived_document, zero_validation}
use signbyte_bff.Clients.Calls.{Ask, trim_right_slash, do_json, do_json_slow, with_json}

module _ {Db Key Any : Type 0} (env : Env Db Key Any) where
  unfoldable pub base : String
  base = trim_right_slash (env.config.base_url "signflow")

  abbrev ask : String → String → String → Content → String → Ask
  ask scope method url content content_type = record {
    service = "signflow";
    scope = scope;
    method = method;
    url = url;
    content = content;
    content_type = content_type;
  }

  unfoldable pub begin_signing : OnBehalf → BeginInput → M Db (Result Job)
  begin_signing obo input = with_json env (begin_payload input) (λ content.
      do_json_slow env
        (ask "signatures:create" "POST" (base ++ "/api/v1/signings") content "application/json") obo
        env.wire.job zero_job)

  -- the long-poll parameter, if it is positive
  abbrev wait_query : String → ℤ → String
  wait_query sep wait = if above wait 0 then sep ++ "wait=" ++ env.itoa wait else ""

  unfoldable pub status : OnBehalf → String → ℤ → M Db (Result Job)
  status obo job_id wait =
      do_json_slow env
        (ask "signatures:read" "GET"
          (base ++ "/api/v1/signings/" ++ job_id ++ "/status" ++ wait_query "?" wait) no_content "")
        obo env.wire.job zero_job

  unfoldable pub abandon : OnBehalf → String → M Db (Result (Unit {0}))
  abandon obo job_id =
      do_json env
        (ask "signatures:write" "POST" (base ++ "/api/v1/signings/" ++ job_id ++ "/abandon")
          no_content "")
        obo (λ body. some tt) tt

  unfoldable pub chain_free : OnBehalf → String → ℤ → M Db (Result Bool)
  chain_free obo envelope_id wait =
      do_json env
        (ask "signatures:read" "GET"
          (base ++ "/api/v1/chain-free?envelopeId=" ++ envelope_id ++ wait_query "&" wait)
          no_content "")
        obo env.wire.free false

  unfoldable pub submit_client_signature :
      OnBehalf → String → List ClientSignature → M Db (Result Job)
  submit_client_signature obo job_id sigs = with_json env (signatures_payload sigs) (λ content.
      do_json env
        (ask "signatures:write" "POST"
          (base ++ "/api/v1/signings/" ++ job_id ++ "/client-signature") content "application/json")
        obo env.wire.job zero_job)

  unfoldable pub archive_timestamp : OnBehalf → String → String → M Db (Result ArchivedDocument)
  archive_timestamp obo document_id auth_cert =
      with_json env (archive_payload document_id auth_cert) (λ content.
        do_json_slow env
          (ask "signatures:write" "POST" (base ++ "/api/v1/archive-timestamps") content
            "application/json")
          obo env.wire.archived zero_archived_document)

  unfoldable pub validate_document : OnBehalf → String → M Db (Result Validation)
  validate_document obo document_id = with_json env (document_payload document_id) (λ content.
      do_json_slow env
        (ask "signatures:read" "POST" (base ++ "/api/v1/document-validations") content
          "application/json")
        obo env.wire.validation zero_validation)

  unfoldable pub validate : OnBehalf → String → M Db (Result Validation)
  validate obo signature_id = with_json env (signature_payload signature_id) (λ content.
      do_json_slow env
        (ask "signatures:read" "POST" (base ++ "/api/v1/validations") content "application/json")
        obo env.wire.validation zero_validation)
