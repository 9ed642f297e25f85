-- ===== src/Routes/Verify/Handler.antt =====
-- routes/verify.go: the handler of an anonymous verification.
use Prim.Native.String.{[] as empty_text, ◌∷◌ as cons_text}
use signbyte_bff.Base.{
  ℕ, zero, suc, String, not, ◌&&◌, ◌==◌, List, [], ◌∷◌, Option, none, some, ltb, leb, length,
  if◌then◌else◌,
}
use signbyte_bff.Errors.{Result, ok, err}
use signbyte_bff.Server.{Validation}
use signbyte_bff.Server.Monad.{
  M, Reply, problem, relayed, json, validation_answer, reply, ◌>>=◌, ◌>>◌, sample, on_store,
  deferred,
}
use signbyte_bff.Server.Public.{
  GateError, too_large, no_signature, unsupported_type, other_gate_error, PublicRequest, PublicEnv,
}
use signbyte_bff.Server.Files.{Upload, FileHeader}
use signbyte_bff.Clients.Calls.{is_success}
use signbyte_bff.Clients.Verify.{VerifyResult, validate}
use signbyte_bff.Audit.{record_event}
use signbyte_bff.Routes.Relay.{outer_status, some_or, require}
use signbyte_bff.Routes.Verify.{InflightGate, acquire, release}

-- the text before the first comma
unfoldable pub first_hop : String → String
first_hop empty_text = ""
first_hop (cons_text c s) =
    let rest = first_hop s in if cons_text c "" == "," then "" else cons_text c rest

unfoldable pub peer_or_empty : Option String → String
peer_or_empty none = ""
peer_or_empty (some ip) = ip

-- The one file of the form.
unfoldable pub only_one : List FileHeader → Option FileHeader
only_one [] = none
only_one (fh ∷ []) = some fh
only_one (fh ∷ other ∷ files) = none

-- `data[:n]`, or all of it
unfoldable pub take : ℕ → List ℕ → List ℕ
take n [] = []
take zero (b ∷ bytes) = []
take (suc n) (b ∷ bytes) = b ∷ take n bytes

-- `io.ReadAll(io.LimitReader(f, n))`: an upload that fails at a position below `n` is an error.
unfoldable pub read_limited : ℕ → Upload → Option (List ℕ)
read_limited n f = elim f.fails_after [
  | none ↦ some (take n f.bytes)
  | some position ↦ if ltb position n then none else some (take n f.bytes)
]

abbrev pub invalid_request : Reply
invalid_request = problem "err:verify:invalidRequest" (some 400)

abbrev pub file_too_large : Reply
file_too_large = problem "err:verify:fileTooLarge" (some 413)

-- the answer to an upload that the document gate refuses
unfoldable pub gate_problem : GateError → Reply
gate_problem too_large = file_too_large
gate_problem no_signature = problem "err:verify:notSigned" (some 422)
gate_problem unsupported_type = problem "err:verify:unsupportedType" (some 422)
gate_problem other_gate_error = problem "err:verify:malformed" (some 422)

module _ (env : PublicEnv) where
  -- `verifyClientIP`
  unfoldable pub verify_client_ip : PublicRequest → String
  verify_client_ip req =
      let v : String = req.header "X-Forwarded-For" in
      if not (v == "") then env.trim_space (first_hop v) else peer_or_empty req.peer

  -- the answer to a status that is not 2xx
  unfoldable pub upstream_problem : VerifyResult → Reply
  upstream_problem res =
      if env.is_problem res.report
      then relayed (some res.report) (outer_status res.status_code)
      else if leb 400 res.status_code && ltb res.status_code 500
      then problem "err:verify:notValidatable" (some 422)
      else problem "err:upstream:unavailable" (some 502)

  -- `recordVerify`
  unfoldable pub record_verify :
      PublicRequest → String → ℕ → String → String → String → M InflightGate (Unit {0})
  record_verify req ip size sha verdict session_id = do
    ts ← sample env.rfc3339
    record_event env (record {
      ts = ts;
      ip = ip;
      user_agent = req.user_agent;
      size_bytes = size;
      sha256 = sha;
      verdict = verdict;
      correlation_id = req.correlation_id;
      session_id = session_id;
    })

  module _ (req : PublicRequest) (ip : String) (size : ℕ) (sha : String) where
    -- the report, when it can be read
    unfoldable pub verdict_of : String → Option Validation → M InflightGate (Unit {0})
    verdict_of session_id none = do
      record_verify req ip size sha "unreadable-report" session_id
      reply (problem "err:upstream:unexpectedResponse" (some 502))
    verdict_of session_id (some v) = do
      validated_at ← sample env.rfc3339
      record_verify req ip size sha v.verdict session_id
      reply (json 200 (validation_answer (record v { validated_at = validated_at })))

    unfoldable pub answered : Result VerifyResult → M InflightGate (Unit {0})
    answered (err e) = do
      record_verify req ip size sha "error" ""
      reply (problem "err:upstream:unavailable" (some 502))
    answered (ok res) =
        if not (is_success res.status_code)
        then (record_verify req ip size sha "upstream-rejected" res.session_id >>= λ u.
            reply (upstream_problem res))
        else verdict_of res.session_id (env.normalize_report res.report)

    -- after the document gate
    unfoldable pub admitted : String → List ℕ → Option GateError → M InflightGate (Unit {0})
    admitted filename bytes (some e) = do
      record_verify req ip size sha "rejected" ""
      reply (gate_problem e)
    admitted filename bytes none = do res ← validate env filename bytes; answered res

  -- from the form to the document gate
  unfoldable pub verify_upload : PublicRequest → String → M InflightGate (Unit {0})
  verify_upload req ip = do
    fh ← some_or invalid_request (only_one (req.files "file"))
    require (leb fh.size env.verify_max_bytes) file_too_large
    f ← some_or invalid_request fh.opened
    bytes ← some_or invalid_request (read_limited (suc env.verify_max_bytes) f)
    require (leb (length bytes) env.verify_max_bytes) file_too_large
    admitted req ip fh.size (env.sha256_hex bytes) fh.filename bytes
        (env.document_gate fh.filename bytes env.verify_max_bytes)

  -- `verifyDocument`
  unfoldable pub verify_document : PublicRequest → M InflightGate (Unit {0})
  verify_document req = do
    require env.has_verify (problem "err:verify:unavailable" (some 503))
    let ip : String = verify_client_ip req
    acquired ← on_store (acquire ip)
    require acquired (problem "err:verify:tooManyRequests" (some 429))
    deferred (release ip) (verify_upload req ip)
