-- ===== src/Routes/EnvelopeView.antt =====
-- routes/envelope.go, `getEnvelope`: the envelope as its owner or an invited signer sees it.
pub mod Privacy
pub mod Viewed
use Prim.Native.String.{◌++◌}
use signbyte_bff.Base.{
  ℕ, String, Bool, true, false, not, ◌&&◌, ◌||◌, ◌==◌, List, [], ◌∷◌, Option, none, some, pos, map,
  if◌then◌else◌,
}
use signbyte_bff.Errors.{Result, ok, err}
use signbyte_bff.Session.{Session}
use signbyte_bff.Session.Keys.{parse_key}
use signbyte_bff.Clients.Types.{Slot, DocRef, Detail, EnvelopeView, Job, Meta}
use signbyte_bff.Server.{Env, Request, OnBehalf, Identity}
use signbyte_bff.Server.Monad.{
  M, Reply, ComposedSlot, ComposedDetail, json, detail_answer, ret, reply, ◌>>=◌, ◌>>◌, sample,
}
use signbyte_bff.Clients.Envelope.{get, capture_signer_name}
use signbyte_bff.Clients.Signflow.{status}
use signbyte_bff.Clients.Document.{metadata}
use signbyte_bff.Routes.Relay.{or_relay, ready}
use signbyte_bff.Routes.Token.{Acting, on_behalf, fresh_token}

-- The live state refines what the slot records; nothing recorded is blanked.
unfoldable pub refine : Job → ComposedSlot → ComposedSlot
refine job c = record c {
  state = job.state;
  slot = record c.slot {
    signature_id = if job.signature_id == "" then c.slot.signature_id else job.signature_id;
  };
  container_id = if job.container_id == "" then c.container_id else job.container_id;
}

-- `if err != nil { continue }`
unfoldable pub refined : ComposedSlot → Result Job → ComposedSlot
refined c (ok job) = refine job c
refined c (err e) = c

unfoldable pub with_filename : DocRef → Result Meta → DocRef
with_filename d (ok meta) = record d { filename = meta.filename }
with_filename d (err e) = d

module _ {Db Key Any : Type 0} (env : Env Db Key Any) where
  -- The viewer's own slot.
  unfoldable pub is_you : String → String → String → Slot → Bool
  is_you owner sub serial s =
      (not (s.identity_ref == "") && env.identity_key s.identity_ref == serial)
      || (s.identity_ref == "" && owner == sub)

  -- What of a slot the viewer is shown.
  unfoldable pub shown : String → String → String → Slot → ComposedSlot
  shown owner sub serial s =
      let you : Bool = is_you owner sub serial s in
      let mine : Bool = owner == sub in
      record {
        slot = record s {
          identity_ref = if mine then s.identity_ref else "";
          return_url = if mine || you then s.return_url else "";
        };
        state = "";
        container_id = s.signed_doc_ref;
        you = you;
      }

  -- one round of the loop over the slots
  unfoldable pub compose_slot : OnBehalf → String → String → Slot → M Db ComposedSlot
  compose_slot obo owner serial s =
      if s.job_id == "" || not env.has_signflow
      then ret (shown owner obo.sub serial s)
      else (status env obo s.job_id (pos 0) >>= λ answer.
          ret (refined (shown owner obo.sub serial s) answer))

  unfoldable pub compose_slots : OnBehalf → String → String → List Slot → M Db (List ComposedSlot)
  compose_slots obo owner serial [] = ret []
  compose_slots obo owner serial (s ∷ slots) = do
    c ← compose_slot obo owner serial s
    rest ← compose_slots obo owner serial slots
    ret (c ∷ rest)

  -- the name of an identity, as `viewerName` reads it
  unfoldable pub name_of : Option Identity → String
  name_of none = ""
  name_of (some id) =
      let name : String = env.trim_space id.name in
      if name == "" then env.trim_space (id.given_name ++ " " ++ id.family_name) else name

  unfoldable pub identity_name : Session → Result Key → M Db String
  identity_name sess (err e) = ret ""
  identity_name sess (ok key) = do
    looked ← sample (λ i. env.identity i key sess.access_token)
    ret (name_of looked)

  unfoldable pub refreshed_name : Result Session → M Db String
  refreshed_name (err e) = ret ""
  refreshed_name (ok sess) = identity_name sess (parse_key env.format sess.key)

  unfoldable pub viewer_name : String → Session → M Db String
  viewer_name sid sess =
      if env.has_auth_service then (fresh_token env sid sess >>= refreshed_name) else ret ""

  -- the slot that gets the viewer's name
  unfoldable pub name_slot : OnBehalf → String → String → ComposedSlot → M Db ComposedSlot
  name_slot obo id name c =
      if name == ""
      then ret c
      else (capture_signer_name env obo id c.slot.id name
          >> ret (record c { slot = record c.slot { signer_name = name } }))

  -- the loop that names the first slot of the viewer's that has no name
  unfoldable pub capture :
      OnBehalf → String → Session → String → List ComposedSlot → M Db (List ComposedSlot)
  capture obo sid sess id [] = ret []
  capture obo sid sess id (c ∷ slots) =
      let others : M Db (List ComposedSlot) = capture obo sid sess id slots in
      if not c.you || not (c.slot.signer_name == "")
      then (others >>= λ rest. ret (c ∷ rest))
      else (viewer_name sid sess >>= λ name.
          name_slot obo id name c >>= λ named. ret (named ∷ slots))

  unfoldable pub filenames : OnBehalf → List DocRef → M Db (List DocRef)
  filenames obo [] = ret []
  filenames obo (d ∷ docs) = do
    meta ← metadata env obo d.document_id
    rest ← filenames obo docs
    ret (with_filename d meta ∷ rest)

  -- what is composed once the envelope was read
  unfoldable pub compose_detail : Acting → String → String → Detail → M Db ComposedDetail
  compose_detail who sid id detail = do
    slots ←
        compose_slots who.obo detail.envelope.owner (env.serial_from_token who.obo.token)
          detail.slots
    named ← capture who.obo sid who.session id slots
    docs ← (if env.has_documents then filenames who.obo detail.documents else ret detail.documents)
    ret (record { envelope = detail.envelope; slots = named; documents = docs })

  -- `getEnvelope`
  unfoldable pub get_envelope : Request → String → Session → M Db (Unit {0})
  get_envelope request sid sess = do
    ready "err:envelope:notConfigured" env.has_envelope
    who ← on_behalf env sid sess
    answer ← get env who.obo (request.param "id")
    detail ← or_relay answer
    composed ← compose_detail who sid (request.param "id") detail
    reply (json 200 (detail_answer composed))
