-- ===== src/Server.antt =====
-- What the code of one request meets: the services it calls, the clock, the random source, the
-- session store, and the request itself. Code that is not of the repository is a field of `Env`.
-- An answer may depend on the number of the step, so that no two answers need to agree.
pub mod Monad
pub mod Files
pub mod Public
pub mod Safe
use signbyte_bff.Base.{ℕ, String, Bool, List, Option, ℤ, Map}
use signbyte_bff.Errors.{Result}
use signbyte_bff.Session.{Capabilities, Session}
use signbyte_bff.Session.Interface.{Store}
use signbyte_bff.Session.Keys.{KeyFormat}
use signbyte_bff.Answers.{AnswerCache}
use signbyte_bff.Clients.Types.{
  SlotInput, CreateInput, Created, Summary, ListResult, SigningTasksResult, DocRef, Detail,
  Transition, Meta, DocList, ChainRow, ChainList, HistoryList, BundleEntry, BeginInput, Job,
  ClientSignature, ArchivedDocument,
}

-- audit/verify.go, `VerifyEvent`
pub record VerifyEvent : Type 0 where
  pub ts : String
  pub ip : String
  pub user_agent : String
  pub size_bytes : ℕ
  pub sha256 : String
  pub verdict : String
  pub correlation_id : String
  pub session_id : String

-- The values that are sent as JSON.
pub data Payload : Type 0 where
  create_payload : CreateInput → Payload
  document_payload : String → Payload
  slot_payload : SlotInput → Payload
  job_payload : String → Payload
  name_payload : String → Payload
  begin_payload : BeginInput → Payload
  signatures_payload : List ClientSignature → Payload
  archive_payload : String → String → Payload
  signature_payload : String → Payload
  sources_payload : List String → Payload
  entries_payload : List BundleEntry → Payload
  event_payload : VerifyEvent → Payload

pub data Content : Type 0 where
  no_content : Content
  json_content : Payload → Content
  -- a multipart form: the boundary, the fields, the file's field, its name and its bytes
  form_content : String → Map String → String → String → List ℕ → Content

-- clients/clients.go, `OnBehalf` and `Response`
pub record OnBehalf : Type 0 where
  pub sub : String
  pub token : String

pub record Response : Type 0 where
  pub status_code : ℕ
  pub header : Map String
  pub body : String

-- The arguments of `DoServiceOnBehalf`, or of its variant with a timeout if `slow`.
pub record Call : Type 0 where
  pub slow : Bool
  pub audience : String
  pub scope : String
  pub sub : String
  pub token : String
  pub method : String
  pub url : String
  pub content_type : String
  pub content : Content

-- The arguments of a call under this service's own identity, with its ceiling in seconds.
pub record ServiceCall : Type 0 where
  pub timeout : ℕ
  pub audience : String
  pub scope : String
  pub method : String
  pub url : String
  pub content_type : String
  pub content : Content

-- answer.Validation: the instant, the verdict, and the rest of it
pub record Validation : Type 0 where
  pub verdict : String
  pub validated_at : String
  pub rest : String

pub record Cookie : Type 0 where
  pub name : String
  pub value : String
  pub http_only : Bool
  pub secure : Bool
  pub same_site_lax : Bool
  pub path : String
  pub max_age : ℕ

-- asclient.Tokens
pub record Tokens : Type 0 where
  pub access_token : String
  pub refresh_token : String
  -- the 64-bit pattern of the `int`
  pub expires_in : ℕ
  pub capabilities : Option Capabilities

pub record Identity : Type 0 where
  pub subject : String
  pub name : String
  pub given_name : String
  pub family_name : String
  pub loa : String
  pub login_method : String
  pub permitted_flows : List String

-- asclient.IDTokenCheck
pub record TokenCheck : Type 0 where
  pub nonce : String
  pub acr_values : String
  pub max_age : Option ℕ
  pub started : ℕ

-- asclient.AuthorizationRequest
pub record Authorization : Type 0 where
  pub code_challenge : String
  pub state : String
  pub nonce : String
  pub acr_values : String
  pub prompt : String
  pub max_age : Option ℕ

-- What a request does to the world beside the session store, with the answers it got.
pub data Effect : Type 0 where
  called : Call → Result Response → Effect
  cookie_set : Cookie → Effect
  cookie_cleared : String → Bool → Effect
  exchanged : String → String → TokenCheck → Effect
  refreshed : String → Effect
  revoked : String → Effect
  denied : String → Effect
  access_recorded : String → String → Effect
  called_as_service : ServiceCall → Result Response → Effect
  evidence_posted : VerifyEvent → Effect
  fetched : String → Effect
  edge_blocked : String → Effect

-- encoding/json on the answers: `none` is a text that is refused.
pub record Wire : Type 0 where
  pub created : String → Option Created
  pub envelopes : String → Option ListResult
  pub tasks : String → Option SigningTasksResult
  pub detail : String → Option Detail
  pub attached : String → Option DocRef
  pub slot_id : String → Option String
  pub transition : String → Option Transition
  pub eligible : String → Option Bool
  pub job : String → Option Job
  pub free : String → Option Bool
  pub archived : String → Option ArchivedDocument
  pub meta : String → Option Meta
  pub documents : String → Option DocList
  pub chains : String → Option ChainList
  pub chain : String → Option ChainRow
  pub history : String → Option HistoryList
  pub validation : String → Option Validation

-- The configuration that the modelled code reads.
pub record Config : Type 0 where
  pub cookie_name : String
  pub post_login_url : String
  pub signing_return_base_url : String
  pub flow_ttl : ℕ
  -- by the name of the service that is called
  pub audience : String → String
  pub base_url : String → String

pub record Env (Db Key Any : Type 0) : Type 0 where
  pub config : Config
  pub store : Store Db
  pub answers : Option (AnswerCache Db)
  pub format : KeyFormat Key Any
  pub digest : String → String
  pub wire : Wire
  -- json.Marshal succeeds
  pub marshals : Payload → Bool
  pub marshal_validation : Validation → Option String
  pub boundary : ℕ → String
  -- url.PathEscape, url.QueryEscape and strconv.Itoa
  pub path_escape : String → String
  pub query_escape : String → String
  pub itoa : ℤ → String
  -- the time in nanoseconds
  pub now : ℕ → ℕ
  pub random_token : ℕ → ℕ → Option String
  pub generate_key : ℕ → Option Key
  pub pkce : ℕ → Option (String × String)
  pub serve : ℕ → Call → Result Response
  -- the Auth Service and its client library
  pub check_issuer : String → Bool
  pub exchange : ℕ → Key → String → String → TokenCheck → Option Tokens
  pub refresh : ℕ → Key → String → Option Tokens
  pub identity : ℕ → Key → String → Option Identity
  pub subject_from_token : String → String
  pub login_method : String → Option String
  pub authorization_url : Authorization → String
  pub logout_url : String → String → String
  -- the sign-in binding decodes as unpadded base64url
  pub is_base64url : String → Bool
  pub method_names : String → Bool
  -- identitycode: the canonical spelling, whether a code is a natural person's, the comparison key
  pub canonical : String → String → Option String
  pub is_natural_person : String → Option Bool
  pub identity_key : String → String
  pub serial_from_token : String → String
  -- strings.TrimSpace, and url.Parse for the scheme and the host
  pub trim_space : String → String
  pub url_parse : String → Option (String × String)
  -- what is configured
  pub has_auth_service : Bool
  pub has_envelope : Bool
  pub has_documents : Bool
  pub has_signflow : Bool
  pub has_sec_events : Bool
  pub has_preview : Bool
  pub has_access_audit : Bool

-- The request, as azugo hands it over.
pub record Request : Type 0 where
  pub method : String
  pub header : String → String
  pub cookie : String → String
  pub query : String → Option String
  pub query_int : String → Option ℤ
  -- `BoolOptional`, without its errors
  pub query_bool : String → Option Bool
  pub param_int : String → Result ℤ
  pub param : String → String
  pub is_tls : Bool
  pub is_development : Bool
