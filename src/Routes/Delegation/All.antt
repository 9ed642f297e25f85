-- ===== src/Routes/Delegation/All.antt =====
-- Every handler of the authenticated group acts for the user of its session and for nobody else.
use signbyte_bff.Base.{String}
use signbyte_bff.Session.{Session}
use signbyte_bff.Server.{Env, Request}
use signbyte_bff.Server.Safe.{Never}
use signbyte_bff.Routes.Table.{
  Route, handler, me_route, refresh_route, logout_route, dashboard_route, list_history_route,
  delete_history_route, list_documents_route, get_document_route, get_document_chain_route,
  download_document_route, delete_document_route, archive_timestamp_route, bundle_documents_route,
  rebundle_document_route, extract_data_object_route, signing_status_route, client_signature_route,
  abandon_signing_route, chain_free_route, create_envelope_route, list_envelopes_route,
  list_signing_tasks_route, get_envelope_route, attach_envelope_document_route,
  add_envelope_slot_route, send_envelope_route, cancel_envelope_route, reopen_envelope_route,
  decline_envelope_slot_route, sign_envelope_slot_route, upload_document_route,
  preview_manifest_route, preview_page_route, preview_text_route, preview_inner_manifest_route,
  preview_inner_page_route, preview_inner_text_route, validate_document_route,
  signature_validation_route,
}
use signbyte_bff.Routes.Delegation.Answers.{
  upload_document-Delegates, preview_manifest-Delegates, preview_page-Delegates,
  preview_text-Delegates, preview_inner_manifest-Delegates, preview_inner_page-Delegates,
  preview_inner_text-Delegates, validate_document-Delegates, signature_validation-Delegates,
}
use signbyte_bff.Routes.Delegation.Base.{Delegates}
use signbyte_bff.Routes.Delegation.View.{get_envelope-Delegates}
use signbyte_bff.Routes.Delegation.Handlers.{
  list_documents-Delegates, get_document-Delegates, get_document_chain-Delegates,
  delete_document-Delegates, list_history-Delegates, delete_history-Delegates,
  extract_data_object-Delegates, signing_status-Delegates, abandon_signing-Delegates,
  chain_free-Delegates, list_signing_tasks-Delegates, send_envelope-Delegates,
  cancel_envelope-Delegates, reopen_envelope-Delegates, decline_envelope_slot-Delegates,
  archive_timestamp-Delegates, bundle_documents-Delegates, rebundle_document-Delegates,
  client_signature-Delegates, attach_envelope_document-Delegates, add_envelope_slot-Delegates,
  sign_envelope_slot-Delegates, download_document-Delegates, dashboard-Delegates,
  create_envelope-Delegates, list_envelopes-Delegates, me-Delegates, refresh-Delegates,
  logout-Delegates,
}

module _ {Db Key Any : Type 0} (env : Env Db Key Any) where
  -- Whatever the route and the request, the handler replies, and calls the composed services only on
  -- behalf of the session's subject, with a token.
  pub handler-Delegates :
      (route : Route) (req : Request) (sid : String) (sess : Session)
      → Delegates env.has_documents sess.subject Never (handler env route req sid sess)
  unfolding handler
  handler-Delegates (me_route offered) req sid sess = me-Delegates env offered sid sess
  handler-Delegates refresh_route req sid sess = refresh-Delegates env sid sess
  handler-Delegates logout_route req sid sess = logout-Delegates env req sid sess
  handler-Delegates (dashboard_route rfc3339) req sid sess =
      dashboard-Delegates env rfc3339 req sid sess
  handler-Delegates list_history_route req sid sess = list_history-Delegates env req sid sess
  handler-Delegates delete_history_route req sid sess = delete_history-Delegates env req sid sess
  handler-Delegates list_documents_route req sid sess = list_documents-Delegates env req sid sess
  handler-Delegates get_document_route req sid sess = get_document-Delegates env req sid sess
  handler-Delegates get_document_chain_route req sid sess =
      get_document_chain-Delegates env req sid sess
  handler-Delegates download_document_route req sid sess =
      download_document-Delegates env req sid sess
  handler-Delegates delete_document_route req sid sess = delete_document-Delegates env req sid sess
  handler-Delegates archive_timestamp_route req sid sess =
      archive_timestamp-Delegates env req sid sess
  handler-Delegates (bundle_documents_route body) req sid sess =
      bundle_documents-Delegates env req body sid sess
  handler-Delegates (rebundle_document_route body) req sid sess =
      rebundle_document-Delegates env req body sid sess
  handler-Delegates extract_data_object_route req sid sess =
      extract_data_object-Delegates env req sid sess
  handler-Delegates signing_status_route req sid sess = signing_status-Delegates env req sid sess
  handler-Delegates (client_signature_route body) req sid sess =
      client_signature-Delegates env req body sid sess
  handler-Delegates abandon_signing_route req sid sess = abandon_signing-Delegates env req sid sess
  handler-Delegates chain_free_route req sid sess = chain_free-Delegates env req sid sess
  handler-Delegates (create_envelope_route body) req sid sess =
      create_envelope-Delegates env req body sid sess
  handler-Delegates list_envelopes_route req sid sess = list_envelopes-Delegates env req sid sess
  handler-Delegates list_signing_tasks_route req sid sess =
      list_signing_tasks-Delegates env req sid sess
  handler-Delegates get_envelope_route req sid sess = get_envelope-Delegates env req sid sess
  handler-Delegates (attach_envelope_document_route body) req sid sess =
      attach_envelope_document-Delegates env req body sid sess
  handler-Delegates (add_envelope_slot_route body) req sid sess =
      add_envelope_slot-Delegates env req body sid sess
  handler-Delegates send_envelope_route req sid sess = send_envelope-Delegates env req sid sess
  handler-Delegates cancel_envelope_route req sid sess = cancel_envelope-Delegates env req sid sess
  handler-Delegates reopen_envelope_route req sid sess = reopen_envelope-Delegates env req sid sess
  handler-Delegates decline_envelope_slot_route req sid sess =
      decline_envelope_slot-Delegates env req sid sess
  handler-Delegates (sign_envelope_slot_route body) req sid sess =
      sign_envelope_slot-Delegates env req body sid sess
  handler-Delegates (upload_document_route form) req sid sess =
      upload_document-Delegates env req form sid sess
  handler-Delegates preview_manifest_route req sid sess =
      preview_manifest-Delegates env req sid sess
  handler-Delegates preview_page_route req sid sess = preview_page-Delegates env req sid sess
  handler-Delegates preview_text_route req sid sess = preview_text-Delegates env req sid sess
  handler-Delegates preview_inner_manifest_route req sid sess =
      preview_inner_manifest-Delegates env req sid sess
  handler-Delegates preview_inner_page_route req sid sess =
      preview_inner_page-Delegates env req sid sess
  handler-Delegates preview_inner_text_route req sid sess =
      preview_inner_text-Delegates env req sid sess
  handler-Delegates validate_document_route req sid sess =
      validate_document-Delegates env req sid sess
  handler-Delegates signature_validation_route req sid sess =
      signature_validation-Delegates env req sid sess
