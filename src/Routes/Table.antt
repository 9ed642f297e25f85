-- ===== src/Routes/Table.antt =====
-- routes/router.go: the routes of a session each with its handler.
use signbyte_bff.Base.{ℕ, String, List, Option}
use signbyte_bff.Errors.{Result}
use signbyte_bff.Session.{Session}
use signbyte_bff.Clients.Types.{BundleEntry, ClientSignature}
use signbyte_bff.Server.{Env, Request}
use signbyte_bff.Server.Monad.{M}
use signbyte_bff.Routes.Gate.{require_session}
use signbyte_bff.Routes.Account.{me, refresh, logout}
use signbyte_bff.Routes.Documents.{
  list_documents, get_document, get_document_chain, download_document, delete_document,
  archive_timestamp, list_history, delete_history, bundle_documents, rebundle_document,
  extract_data_object, dashboard,
}
use signbyte_bff.Routes.Envelopes.{
  SlotEntry, CreateEnvelope, create_envelope, list_envelopes, list_signing_tasks,
  attach_envelope_document, add_envelope_slot, send_envelope, cancel_envelope, reopen_envelope,
  decline_envelope_slot,
}
use signbyte_bff.Routes.EnvelopeView.{get_envelope}
use signbyte_bff.Routes.Sign.{sign_envelope_slot}
use signbyte_bff.Routes.Sign.Inputs.{SignSlot}
use signbyte_bff.Routes.Signing.{signing_status, client_signature, abandon_signing, chain_free}
use signbyte_bff.Routes.Uploads.{UploadForm, upload_document}
use signbyte_bff.Routes.Validations.{validate_document, signature_validation}
use signbyte_bff.Routes.Previews.{
  preview_manifest, preview_page, preview_text, preview_inner_manifest, preview_inner_page,
  preview_inner_text,
}

-- A route with what decoding its body gives.
pub data Route : Type 0 where
  me_route : Option (List String) → Route
  refresh_route : Route
  logout_route : Route
  dashboard_route : (ℕ → String) → Route
  list_history_route : Route
  delete_history_route : Route
  list_documents_route : Route
  get_document_route : Route
  get_document_chain_route : Route
  download_document_route : Route
  delete_document_route : Route
  archive_timestamp_route : Route
  bundle_documents_route : Result (List String) → Route
  rebundle_document_route : Result (List BundleEntry) → Route
  extract_data_object_route : Route
  signing_status_route : Route
  client_signature_route : Result (List ClientSignature) → Route
  abandon_signing_route : Route
  chain_free_route : Route
  create_envelope_route : Result CreateEnvelope → Route
  list_envelopes_route : Route
  list_signing_tasks_route : Route
  get_envelope_route : Route
  attach_envelope_document_route : Result String → Route
  add_envelope_slot_route : Result SlotEntry → Route
  send_envelope_route : Route
  cancel_envelope_route : Route
  reopen_envelope_route : Route
  decline_envelope_slot_route : Route
  sign_envelope_slot_route : Result SignSlot → Route
  upload_document_route : UploadForm → Route
  preview_manifest_route : Route
  preview_page_route : Route
  preview_text_route : Route
  preview_inner_manifest_route : Route
  preview_inner_page_route : Route
  preview_inner_text_route : Route
  validate_document_route : Route
  signature_validation_route : Route

module _ {Db Key Any : Type 0} (env : Env Db Key Any) where
  unfoldable pub handler : Route → Request → String → Session → M Db (Unit {0})
  handler (me_route offered) req = me env offered
  handler refresh_route req = refresh env
  handler logout_route req = logout env req
  handler (dashboard_route rfc3339) req = dashboard env rfc3339 req
  handler list_history_route req = list_history env req
  handler delete_history_route req = delete_history env req
  handler list_documents_route req = list_documents env req
  handler get_document_route req = get_document env req
  handler get_document_chain_route req = get_document_chain env req
  handler download_document_route req = download_document env req
  handler delete_document_route req = delete_document env req
  handler archive_timestamp_route req = archive_timestamp env req
  handler (bundle_documents_route body) req = bundle_documents env req body
  handler (rebundle_document_route body) req = rebundle_document env req body
  handler extract_data_object_route req = extract_data_object env req
  handler signing_status_route req = signing_status env req
  handler (client_signature_route body) req = client_signature env req body
  handler abandon_signing_route req = abandon_signing env req
  handler chain_free_route req = chain_free env req
  handler (create_envelope_route body) req = create_envelope env req body
  handler list_envelopes_route req = list_envelopes env req
  handler list_signing_tasks_route req = list_signing_tasks env req
  handler get_envelope_route req = get_envelope env req
  handler (attach_envelope_document_route body) req = attach_envelope_document env req body
  handler (add_envelope_slot_route body) req = add_envelope_slot env req body
  handler send_envelope_route req = send_envelope env req
  handler cancel_envelope_route req = cancel_envelope env req
  handler reopen_envelope_route req = reopen_envelope env req
  handler decline_envelope_slot_route req = decline_envelope_slot env req
  handler (sign_envelope_slot_route body) req = sign_envelope_slot env req body
  handler (upload_document_route form) req = upload_document env req form
  handler preview_manifest_route req = preview_manifest env req
  handler preview_page_route req = preview_page env req
  handler preview_text_route req = preview_text env req
  handler preview_inner_manifest_route req = preview_inner_manifest env req
  handler preview_inner_page_route req = preview_inner_page env req
  handler preview_inner_text_route req = preview_inner_text env req
  handler validate_document_route req = validate_document env req
  handler signature_validation_route req = signature_validation env req

  -- A request to a route of the authenticated group.
  unfoldable pub authed : Route → Request → M Db (Unit {0})
  authed route req = require_session env req (handler route req)
