-- ===== src/Clients/Types.antt =====
-- clients/envelope.go, clients/document.go, clients/signflow.go: the values that the composed
-- services answer with. A Go `int` is ℤ, a `time.Time` the number of nanoseconds since its zero
-- value (so 0 is `IsZero`), `omitempty` plays no part in the values themselves.
use signbyte_bff.Base.{ℕ, String, Bool, List, Option, ℤ}

pub record SlotInput : Type 0 where
  pub order_index : ℤ
  pub role : String
  pub flow : String
  pub required_loa : String
  pub identity_ref : String

pub record CreateInput : Type 0 where
  pub title : String
  pub order_policy : String
  pub profile : String
  pub documents : List String
  pub slots : List SlotInput

pub record Created : Type 0 where
  pub id : String
  pub status : String
  pub version : ℤ
  pub slot_ids : List String

pub record Summary : Type 0 where
  pub id : String
  pub title : String
  pub status : String
  pub order_policy : String
  pub version : ℤ
  pub created_at : String
  pub updated_at : String
  pub doc_ids : List String
  pub slot_count : ℤ
  pub signed_count : ℤ
  pub your_turn : Bool
  pub retention_until : String

pub record ListResult : Type 0 where
  pub envelopes : List Summary
  pub next_cursor : String

pub record SigningTask : Type 0 where
  pub envelope : Summary
  pub slot_id : String
  pub order_index : ℤ
  pub slot_status : String
  pub slot_flow : String
  pub your_turn : Bool

pub record SigningTasksResult : Type 0 where
  pub tasks : List SigningTask
  pub next_cursor : String

pub record Origin : Type 0 where
  pub name : String
  pub ref : String

pub record EnvelopeView : Type 0 where
  pub id : String
  pub owner : String
  pub title : String
  pub status : String
  pub order_policy : String
  pub version : ℤ
  pub created_at : String
  pub origin : Option Origin

pub record Slot : Type 0 where
  pub id : String
  pub order_index : ℤ
  pub role : String
  pub flow : String
  pub required_loa : String
  pub status : String
  pub job_id : String
  pub signature_id : String
  pub signed_doc_ref : String
  pub identity_ref : String
  pub signer_name : String
  pub return_url : String

pub record DocRef : Type 0 where
  pub document_id : String
  pub content_hash : String
  pub filename : String

pub record Detail : Type 0 where
  pub envelope : EnvelopeView
  pub slots : List Slot
  pub documents : List DocRef

pub record Transition : Type 0 where
  pub id : String
  pub status : String
  pub version : ℤ

pub record InnerFile : Type 0 where
  pub name : String
  pub media_type : String
  pub size : ℤ

pub record Meta : Type 0 where
  pub id : String
  pub filename : String
  pub mime : String
  pub content_hash : String
  pub size : ℤ
  pub preservation_class : String
  pub kind : String
  pub status : String
  pub has_signatures : Bool
  pub inner_files : List InnerFile

pub record DocSummary : Type 0 where
  pub id : String
  pub filename : String
  pub mime : String
  pub size : ℤ
  pub status : String
  pub preservation_class : String
  pub retention_until : ℕ
  pub created_at : ℕ

pub record DocList : Type 0 where
  pub documents : List DocSummary
  pub count : ℤ

pub record ChainRow : Type 0 where
  pub chain_root_id : String
  pub id : String
  pub kind : String
  pub status : String
  pub filename : String
  pub mime : String
  pub size : ℤ
  pub has_signatures : Bool
  pub platform_signed : Bool
  pub result_frozen : Bool
  pub retention_until : ℕ
  pub chain_created_at : ℕ
  pub created_at : ℕ
  pub updated_at : ℕ
  pub preservation_class : String
  pub inner_files : List InnerFile

pub record ChainList : Type 0 where
  pub chains : List ChainRow
  pub count : ℤ

pub record HistoryRow : Type 0 where
  pub chain_root_id : String
  pub id : String
  pub kind : String
  pub status : String
  pub filename : String
  pub mime : String
  pub size : ℤ
  pub has_signatures : Bool
  pub platform_signed : Bool
  pub chain_created_at : ℕ
  pub destroyed_at : ℕ

pub record HistoryList : Type 0 where
  pub chains : List HistoryRow
  pub count : ℤ

pub record BundleEntry : Type 0 where
  pub name : String
  pub source_id : String

pub record BeginInput : Type 0 where
  pub envelope_id : String
  pub slot_id : String
  pub flow : String
  pub sig_format : String
  pub document_id : String
  pub signing_certificate : String
  pub auth_certificate : String
  pub sign_identity_id : String
  pub seal_id : String
  pub post_auth_redirect : String
  pub auth_error_redirect : String

pub record DigestRef : Type 0 where
  pub document_id : String
  pub digest : String
  pub digest_algorithm : String

pub record Job : Type 0 where
  pub job_id : String
  pub state : String
  pub authorize_url : String
  pub sign_algorithm : String
  pub verification_code : String
  pub verification_message : String
  pub signing_deadline : ℤ
  pub documents : List DigestRef
  pub container_id : String
  pub signature_id : String

pub record ClientSignature : Type 0 where
  pub document_id : String
  pub signature_value : String

pub record ArchivedDocument : Type 0 where
  pub document_id : String
  pub content_hash : String
  pub mime : String
  pub size : ℤ
