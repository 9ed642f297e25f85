-- ===== src/Routes/Delegation/Handlers.antt =====
-- Every handler of the authenticated group acts for the user of its session and for nobody else.
use signbyte_bff.Base.{ℕ, String, Bool, true, false, ◌≡◌, refl, List, ◌==◌, Option, leb, length}
use signbyte_bff.Errors.{Result, ok, err}
use signbyte_bff.Session.{Session}
use signbyte_bff.Clients.Types.{BundleEntry, ClientSignature}
use signbyte_bff.Server.{Env, Request, OnBehalf, revoked}
use signbyte_bff.Server.Monad.{ret, emit}
use signbyte_bff.Server.Safe.{
  Any as Whatever, Never, Safe-then, Safe-bind, Safe-ret, Safe-reply, Safe-panic, Safe-if,
  Safe-sample, Safe-on_store,
}
use signbyte_bff.Routes.Account.{me, refresh, logout, revoke_with}
use signbyte_bff.Routes.Documents.{
  list_documents, get_document, get_document_chain, download_document, delete_document,
  archive_timestamp, list_history, delete_history, bundle_documents, rebundle_document,
  extract_data_object, dashboard,
}
use signbyte_bff.Routes.Envelopes.{
  CreateEnvelope, SlotEntry, bundle_with, bundled, create_envelope, list_envelopes,
  list_signing_tasks, attach_envelope_document, add_envelope_slot, send_envelope, cancel_envelope,
  reopen_envelope, decline_envelope_slot,
}
use signbyte_bff.Routes.Sign.{sign_envelope_slot}
use signbyte_bff.Routes.Sign.Inputs.{SignSlot}
use signbyte_bff.Routes.Signing.{signing_status, client_signature, abandon_signing, chain_free}
use signbyte_bff.Routes.Delegation.Base.{
  Delegates, Safe-acting, emit-Delegates, document_read-Delegates, or_relay-Safe, some_or-Safe,
  decoded_body-Safe, or_reply-Safe, or_reply_any, ready-Safe, require-Safe, clear-Safe,
  put_session-Safe, ask_refresh-Safe, fresh_token-Safe,
}
use signbyte_bff.Routes.Delegation.Calls.{client_rules}

pub ruleset handler_rules = (
  Safe-acting, Safe-then, Safe-ret, Safe-reply, Safe-sample, Safe-on_store, or_relay-Safe,
  some_or-Safe, decoded_body-Safe, ready-Safe, require-Safe, clear-Safe, put_session-Safe,
  ask_refresh-Safe, document_read-Delegates, client_rules,
)

module _ {Db Key Any : Type 0} (env : Env Db Key Any) where
  pub list_documents-Delegates :
      (req : Request) (sid : String) (sess : Session)
      → Delegates env.has_documents sess.subject Never (list_documents env req sid sess)
  unfolding list_documents
  list_documents-Delegates req sid sess = search handler_rules depth 16

  pub get_document-Delegates :
      (req : Request) (sid : String) (sess : Session)
      → Delegates env.has_documents sess.subject Never (get_document env req sid sess)
  unfolding get_document
  get_document-Delegates req sid sess = search handler_rules depth 16

  pub get_document_chain-Delegates :
      (req : Request) (sid : String) (sess : Session)
      → Delegates env.has_documents sess.subject Never (get_document_chain env req sid sess)
  unfolding get_document_chain
  get_document_chain-Delegates req sid sess = search handler_rules depth 16

  pub delete_document-Delegates :
      (req : Request) (sid : String) (sess : Session)
      → Delegates env.has_documents sess.subject Never (delete_document env req sid sess)
  unfolding delete_document
  delete_document-Delegates req sid sess = search handler_rules depth 16

  pub list_history-Delegates :
      (req : Request) (sid : String) (sess : Session)
      → Delegates env.has_documents sess.subject Never (list_history env req sid sess)
  unfolding list_history
  list_history-Delegates req sid sess = search handler_rules depth 16

  pub delete_history-Delegates :
      (req : Request) (sid : String) (sess : Session)
      → Delegates env.has_documents sess.subject Never (delete_history env req sid sess)
  unfolding delete_history
  delete_history-Delegates req sid sess = search handler_rules depth 16

  pub extract_data_object-Delegates :
      (req : Request) (sid : String) (sess : Session)
      → Delegates env.has_documents sess.subject Never (extract_data_object env req sid sess)
  unfolding extract_data_object
  extract_data_object-Delegates req sid sess = search handler_rules depth 16

  pub signing_status-Delegates :
      (req : Request) (sid : String) (sess : Session)
      → Delegates env.has_documents sess.subject Never (signing_status env req sid sess)
  unfolding signing_status
  signing_status-Delegates req sid sess = search handler_rules depth 16

  pub abandon_signing-Delegates :
      (req : Request) (sid : String) (sess : Session)
      → Delegates env.has_documents sess.subject Never (abandon_signing env req sid sess)
  unfolding abandon_signing
  abandon_signing-Delegates req sid sess = search handler_rules depth 16

  pub chain_free-Delegates :
      (req : Request) (sid : String) (sess : Session)
      → Delegates env.has_documents sess.subject Never (chain_free env req sid sess)
  unfolding chain_free
  chain_free-Delegates req sid sess = search handler_rules depth 16

  pub list_signing_tasks-Delegates :
      (req : Request) (sid : String) (sess : Session)
      → Delegates env.has_documents sess.subject Never (list_signing_tasks env req sid sess)
  unfolding list_signing_tasks
  list_signing_tasks-Delegates req sid sess = search handler_rules depth 16

  pub send_envelope-Delegates :
      (req : Request) (sid : String) (sess : Session)
      → Delegates env.has_documents sess.subject Never (send_envelope env req sid sess)
  unfolding send_envelope
  send_envelope-Delegates req sid sess = search handler_rules depth 16

  pub cancel_envelope-Delegates :
      (req : Request) (sid : String) (sess : Session)
      → Delegates env.has_documents sess.subject Never (cancel_envelope env req sid sess)
  unfolding cancel_envelope
  cancel_envelope-Delegates req sid sess = search handler_rules depth 16

  pub reopen_envelope-Delegates :
      (req : Request) (sid : String) (sess : Session)
      → Delegates env.has_documents sess.subject Never (reopen_envelope env req sid sess)
  unfolding reopen_envelope
  reopen_envelope-Delegates req sid sess = search handler_rules depth 16

  pub decline_envelope_slot-Delegates :
      (req : Request) (sid : String) (sess : Session)
      → Delegates env.has_documents sess.subject Never (decline_envelope_slot env req sid sess)
  unfolding decline_envelope_slot
  decline_envelope_slot-Delegates req sid sess = search handler_rules depth 16

  pub archive_timestamp-Delegates :
      (req : Request) (sid : String) (sess : Session)
      → Delegates env.has_documents sess.subject Never (archive_timestamp env req sid sess)
  unfolding archive_timestamp
  archive_timestamp-Delegates req sid sess = search handler_rules depth 16

  pub bundle_documents-Delegates :
      (req : Request) (body : Result (List String)) (sid : String) (sess : Session)
      → Delegates env.has_documents sess.subject Never (bundle_documents env req body sid sess)
  unfolding bundle_documents
  bundle_documents-Delegates req body sid sess = search handler_rules depth 16

  pub rebundle_document-Delegates :
      (req : Request) (body : Result (List BundleEntry)) (sid : String) (sess : Session)
      → Delegates env.has_documents sess.subject Never (rebundle_document env req body sid sess)
  unfolding rebundle_document
  rebundle_document-Delegates req body sid sess = search handler_rules depth 16

  pub client_signature-Delegates :
      (req : Request) (body : Result (List ClientSignature)) (sid : String) (sess : Session)
      → Delegates env.has_documents sess.subject Never (client_signature env req body sid sess)
  unfolding client_signature
  client_signature-Delegates req body sid sess = search handler_rules depth 16

  pub attach_envelope_document-Delegates :
      (req : Request) (body : Result String) (sid : String) (sess : Session)
      → Delegates env.has_documents sess.subject Never
          (attach_envelope_document env req body sid sess)
  unfolding attach_envelope_document
  attach_envelope_document-Delegates req body sid sess = search handler_rules depth 16

  pub add_envelope_slot-Delegates :
      (req : Request) (body : Result SlotEntry) (sid : String) (sess : Session)
      → Delegates env.has_documents sess.subject Never (add_envelope_slot env req body sid sess)
  unfolding add_envelope_slot
  add_envelope_slot-Delegates req body sid sess = search handler_rules depth 16

  pub sign_envelope_slot-Delegates :
      (req : Request) (body : Result SignSlot) (sid : String) (sess : Session)
      → Delegates env.has_documents sess.subject Never (sign_envelope_slot env req body sid sess)
  unfolding sign_envelope_slot
  sign_envelope_slot-Delegates req body sid sess = search handler_rules depth 16

  pub download_document-Delegates :
      (req : Request) (sid : String) (sess : Session)
      → Delegates env.has_documents sess.subject Never (download_document env req sid sess)
  unfolding download_document
  download_document-Delegates req sid sess = search handler_rules depth 16

  pub dashboard-Delegates :
      (rfc3339 : ℕ → String) (req : Request) (sid : String) (sess : Session)
      → Delegates env.has_documents sess.subject Never (dashboard env rfc3339 req sid sess)
  unfolding dashboard
  dashboard-Delegates rfc3339 req sid sess = search handler_rules depth 16

  bundle_with-Delegates :
      (sub : String) (b : Bool) (obo : OnBehalf) (docs : List String)
      → obo.sub ≡ sub
      → Delegates b sub Whatever (bundle_with env b obo docs)
  unfolding bundle_with
  bundle_with-Delegates sub false obo docs h = Safe-panic refl
  bundle_with-Delegates sub true obo docs h = search handler_rules depth 16

  pub bundled-Delegates :
      (sub : String) (obo : OnBehalf) (docs : List String)
      → obo.sub ≡ sub
      → Delegates env.has_documents sub Whatever (bundled env obo docs)
  unfolding bundled
  bundled-Delegates sub obo docs h =
      Safe-if (leb 2 (length docs)) (bundle_with env env.has_documents obo docs) (ret docs)
        (λ k. bundle_with-Delegates sub env.has_documents obo docs h) (λ k. Safe-ret _ tt)

  pub create_envelope-Delegates :
      (req : Request) (body : Result CreateEnvelope) (sid : String) (sess : Session)
      → Delegates env.has_documents sess.subject Never (create_envelope env req body sid sess)
  unfolding create_envelope
  create_envelope-Delegates req body sid sess = search (handler_rules, bundled-Delegates) depth 16

  pub list_envelopes-Delegates :
      (req : Request) (sid : String) (sess : Session)
      → Delegates env.has_documents sess.subject Never (list_envelopes env req sid sess)
  unfolding list_envelopes
  list_envelopes-Delegates req sid sess = search (handler_rules, Safe-if) depth 16

  pub me-Delegates :
      (offered : Option (List String)) (sid : String) (sess : Session)
      → Delegates env.has_documents sess.subject Never (me env offered sid sess)
  unfolding me
  me-Delegates offered sid sess = Safe-bind _ _ (fresh_token-Safe env _ sid sess) λ r q.
      Safe-bind _ _ (or_reply-Safe _ r q) λ s same. search (handler_rules, or_reply_any) depth 16

  pub refresh-Delegates :
      (sid : String) (sess : Session)
      → Delegates env.has_documents sess.subject Never (refresh env sid sess)
  unfolding refresh
  refresh-Delegates sid sess = search (handler_rules, or_reply_any) depth 16

  pub revoke_with-Delegates :
      (sub token : String) (key : Result Key)
      → Delegates env.has_documents sub Whatever (revoke_with env token key)
  unfolding revoke_with
  revoke_with-Delegates sub token (err e) = Safe-ret _ tt
  revoke_with-Delegates sub token (ok key) =
      Safe-if (token == "") (ret tt) (emit (revoked token)) (λ k. Safe-ret _ tt)
        (λ k. emit-Delegates sub _ tt)

  pub logout-Delegates :
      (req : Request) (sid : String) (sess : Session)
      → Delegates env.has_documents sess.subject Never (logout env req sid sess)
  unfolding logout
  logout-Delegates req sid sess = search (handler_rules, Safe-if, revoke_with-Delegates) depth 16
