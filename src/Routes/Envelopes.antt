-- ===== src/Routes/Envelopes.antt =====
-- routes/envelope.go: the envelopes of the logged-in user, without the composed view and the signing.
pub mod Invited
use signbyte_bff.Clients.Envelope as Envelope
use signbyte_bff.Clients.Document as Document
use Prim.Native.String.{◌++◌}
use signbyte_bff.Base.{
  ℕ, suc, String, Bool, true, false, not, ◌&&◌, ◌||◌, ◌==◌, ◌++◌ as list_append, List, [], ◌∷◌,
  Option, none, some, ℤ, pos, negsuc, above, length, leb, map, lookup, Map, if◌then◌else◌,
}
use signbyte_bff.Errors.{Result, ok, err, Error, param_invalid}
use signbyte_bff.Session.{Session}
use signbyte_bff.Server.{Env, Request, OnBehalf, Response, Effect, access_recorded}
use signbyte_bff.Clients.Types.{SlotInput, CreateInput, BundleEntry, ClientSignature}
use signbyte_bff.Clients.Zero.{zero_created}
use signbyte_bff.Server.Monad.{
  M, Reply, problem, refused, json, raw, no_body, panic, created_answer, envelopes_answer,
  tasks_answer, attached_answer, slot_answer, transition_answer, job_answer, free_answer,
  archived_answer, meta_answer, documents_answer, chain_answer, history_answer, ok_answer,
  dashboard_answer, ret, reply, ◌>>=◌, ◌>>◌, emit,
}
use signbyte_bff.Routes.Relay.{or_relay, or_reply, require, ready, decoded_body}
use signbyte_bff.Routes.Token.{Acting, on_behalf}
use signbyte_bff.Routes.Login.{text_or_empty}
use signbyte_bff.Routes.Dashboard.{compose}
use signbyte_bff.Routes.Documents.{int_or_zero}

-- routes/request/envelope.go
pub record SlotEntry : Type 0 where
  pub order_index : ℤ
  pub role : String
  pub flow : String
  pub required_loa : String
  pub identity_ref : String
  pub country : String

pub record CreateEnvelope : Type 0 where
  pub title : String
  pub order_policy : String
  pub profile : String
  pub documents : List String
  pub slots : List SlotEntry

abbrev pub slot_input : SlotEntry → String → SlotInput
slot_input s identity_ref = record {
  order_index = s.order_index;
  role = s.role;
  flow = s.flow;
  required_loa = s.required_loa;
  identity_ref = identity_ref;
}

module _ {Db Key Any : Type 0} (env : Env Db Key Any) where
  -- what the parse of a canonical code decides
  unfoldable pub only_person : String → String → Option Bool → Result String
  only_person name code none = err (param_invalid name)
  only_person name code (some natural) = if natural then ok code else err (param_invalid name)

  unfoldable pub canonical_person : String → Option String → Result String
  canonical_person name none = err (param_invalid name)
  canonical_person name (some code) = only_person name code (env.is_natural_person code)

  -- `inviteIdentity`
  unfoldable pub invite_identity : String → String → String → Result String
  invite_identity name code country =
      if code == "" then ok "" else canonical_person name (env.canonical code country)

  unfoldable pub slot_of :
      SlotEntry → Result String → Result (List SlotInput) → Result (List SlotInput)
  slot_of s (err e) rest = err e
  slot_of s (ok code) (err e) = err e
  slot_of s (ok code) (ok slots) = ok (slot_input s code ∷ slots)

  -- the loop over the slots, from the index `i`; the first refused code ends it
  unfoldable pub invited : ℕ → List SlotEntry → Result (List SlotInput)
  invited i [] = ok []
  invited i (s ∷ slots) =
      slot_of s
        (invite_identity ("slots[" ++ env.itoa (pos i) ++ "].identityRef") s.identity_ref s.country)
        (invited (suc i) slots)

  -- `r.Documents().Bundle`, which follows the client's pointer without a guard
  unfoldable pub bundle_with : Bool → OnBehalf → List String → M Db (List String)
  bundle_with false obo docs = panic
  bundle_with true obo docs = do
    answer ← Document.bundle env obo docs
    bundle ← or_relay answer
    ret (bundle.id ∷ [])

  -- two documents or more become one bundle
  unfoldable pub bundled : OnBehalf → List String → M Db (List String)
  bundled obo docs =
      if leb 2 (length docs) then bundle_with env.has_documents obo docs else ret docs

  unfoldable pub create_envelope :
      Request → Result CreateEnvelope → String → Session → M Db (Unit {0})
  create_envelope req body sid sess = do
    ready "err:envelope:notConfigured" env.has_envelope
    who ← on_behalf env sid sess
    input ← decoded_body body
    docs ← bundled who.obo input.documents
    slots ← decoded_body (invited 0 input.slots)
    answer ← Envelope.create env who.obo (record {
      title = input.title;
      order_policy = input.order_policy;
      profile = input.profile;
      documents = docs;
      slots = slots;
    })
    out ← or_relay answer
    reply (json 201 (created_answer out))

  -- a listing, or the envelopes that cover one document
  unfoldable pub list_envelopes : Request → String → Session → M Db (Unit {0})
  list_envelopes req sid sess = do
    ready "err:envelope:notConfigured" env.has_envelope
    who ← on_behalf env sid sess
    let document_id : String = text_or_empty (req.query "documentId")
    answer ←
        (if document_id == ""
          then Envelope.list env who.obo (int_or_zero (req.query_int "limit"))
              (text_or_empty (req.query "cursor"))
          else Envelope.find_for_document env who.obo document_id)
    out ← or_relay answer
    reply (json 200 (envelopes_answer out))

  unfoldable pub list_signing_tasks : Request → String → Session → M Db (Unit {0})
  list_signing_tasks req sid sess = do
    ready "err:envelope:notConfigured" env.has_envelope
    who ← on_behalf env sid sess
    answer ←
        Envelope.signing_tasks env who.obo (int_or_zero (req.query_int "limit"))
          (text_or_empty (req.query "cursor"))
    out ← or_relay answer
    reply (json 200 (tasks_answer out))

  unfoldable pub attach_envelope_document :
      Request → Result String → String → Session → M Db (Unit {0})
  attach_envelope_document req body sid sess = do
    ready "err:envelope:notConfigured" env.has_envelope
    who ← on_behalf env sid sess
    input ← decoded_body body
    answer ← Envelope.attach_document env who.obo (req.param "id") input
    out ← or_relay answer
    reply (json 201 (attached_answer out))

  unfoldable pub add_envelope_slot : Request → Result SlotEntry → String → Session → M Db (Unit {0})
  add_envelope_slot req body sid sess = do
    ready "err:envelope:notConfigured" env.has_envelope
    who ← on_behalf env sid sess
    input ← decoded_body body
    identity_ref ← decoded_body (invite_identity "identityRef" input.identity_ref input.country)
    answer ← Envelope.add_slot env who.obo (req.param "id") (slot_input input identity_ref)
    out ← or_relay answer
    reply (json 201 (slot_answer out))

  unfoldable pub send_envelope : Request → String → Session → M Db (Unit {0})
  send_envelope req sid sess = do
    ready "err:envelope:notConfigured" env.has_envelope
    who ← on_behalf env sid sess
    answer ← Envelope.send env who.obo (req.param "id")
    out ← or_relay answer
    reply (json 200 (transition_answer out))

  unfoldable pub cancel_envelope : Request → String → Session → M Db (Unit {0})
  cancel_envelope req sid sess = do
    ready "err:envelope:notConfigured" env.has_envelope
    who ← on_behalf env sid sess
    answer ← Envelope.cancel env who.obo (req.param "id")
    out ← or_relay answer
    reply (json 200 (transition_answer out))

  unfoldable pub reopen_envelope : Request → String → Session → M Db (Unit {0})
  reopen_envelope req sid sess = do
    ready "err:envelope:notConfigured" env.has_envelope
    who ← on_behalf env sid sess
    answer ← Envelope.reopen env who.obo (req.param "id")
    out ← or_relay answer
    reply (json 200 (transition_answer out))

  unfoldable pub decline_envelope_slot : Request → String → Session → M Db (Unit {0})
  decline_envelope_slot req sid sess = do
    ready "err:envelope:notConfigured" env.has_envelope
    who ← on_behalf env sid sess
    answer ← Envelope.decline_slot env who.obo (req.param "id") (req.param "slot")
    out ← or_relay answer
    reply (json 200 (transition_answer out))
