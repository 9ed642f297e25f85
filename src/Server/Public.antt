-- ===== src/Server/Public.antt =====
-- What the code of an anonymous request meets: no session and no user, only this service's own
-- identity. Code that is not of the repository is a field of `PublicEnv`.
use signbyte_bff.Base.{ℕ, String, Bool, List, Option}
use signbyte_bff.Server.Monad.{Reply}
use signbyte_bff.Server.Files.{FileHeader}
use signbyte_bff.Errors.{Result}
use signbyte_bff.Server.{ServiceCall, Response, Validation, VerifyEvent}

-- The errors of docgate.Check that the code tells apart.
pub data GateError : Type 0 where
  too_large : GateError
  no_signature : GateError
  unsupported_type : GateError
  other_gate_error : GateError

-- The request: the files of the form's field, the peer's address, the headers.
pub record PublicRequest : Type 0 where
  pub files : String → List FileHeader
  pub peer : Option String
  pub header : String → String
  pub user_agent : String
  pub correlation_id : String

pub record PublicEnv : Type 0 where
  pub verify_max_bytes : ℕ
  pub signer_base_url : String
  pub signer_audience : String
  -- the verify client is there; the recorder has a client and an address
  pub has_verify : Bool
  pub has_doer : Bool
  pub evidence_url : String
  pub evidence_audience : String
  -- json.Marshal on an event
  pub marshals_event : VerifyEvent → Bool
  -- the time as text, and the boundary of a multipart form
  pub rfc3339 : ℕ → String
  pub boundary : ℕ → String
  pub sha256_hex : List ℕ → String
  pub document_gate : String → List ℕ → ℕ → Option GateError
  pub serve_service : ℕ → ServiceCall → Result Response
  -- pkerrors.ParseProblem finds a problem; answer.NormalizeReport
  pub is_problem : String → Bool
  pub normalize_report : String → Option Validation
  pub trim_space : String → String
  -- the Auth Service's address, the `acr_values_supported` of its discovery document, and the clock
  pub internal_url : String
  pub get_json : ℕ → String → Result (List String)
  pub now : ℕ → ℕ
  -- encoding/json on what the signing service offers
  pub flow_names : String → Option (List String)
  -- the rate limiter, by its key, and what it answers when it refuses
  pub allows : ℕ → String → Bool
  pub limit_reply : Reply
  pub has_edge_events : Bool
