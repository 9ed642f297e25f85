-- ===== src/Routes/Delegation/Calls.antt =====
-- Every operation of the clients calls for the user it is given.
use signbyte_bff.Base.{String, Bool, ◌≡◌, List, ℤ}
use signbyte_bff.Server.{Env, OnBehalf, Content}
use signbyte_bff.Server.Safe.{Any as Whatever, Safe-then, Safe-ret}
use signbyte_bff.Clients.Envelope as Envelope
use signbyte_bff.Clients.Document as Document
use signbyte_bff.Clients.Signflow as Signflow
use signbyte_bff.Clients.Types.{CreateInput, SlotInput, BeginInput, BundleEntry, ClientSignature}
use signbyte_bff.Routes.Delegation.Base.{
  Delegates, do_on_behalf-Delegates, do_json-Delegates, do_json_slow-Delegates, with_json-Delegates,
}

ruleset call_rules = (
  do_on_behalf-Delegates, do_json-Delegates, do_json_slow-Delegates, with_json-Delegates, Safe-then,
  Safe-ret,
)

module _ {Db Key Any : Type 0} {d : Bool} (env : Env Db Key Any) (sub : String) (obo : OnBehalf)
    (h : obo.sub ≡ sub) where
  pub envelope_create-Delegates :
      (input : CreateInput) → Delegates d sub Whatever (Envelope.create env obo input)
  unfolding Envelope.create
  envelope_create-Delegates input = search call_rules

  pub envelope_list-Delegates :
      (limit : ℤ) (cursor : String) → Delegates d sub Whatever (Envelope.list env obo limit cursor)
  unfolding Envelope.list
  envelope_list-Delegates limit cursor = search call_rules

  pub envelope_find_for_document-Delegates :
      (document_id : String)
      → Delegates d sub Whatever (Envelope.find_for_document env obo document_id)
  unfolding Envelope.find_for_document
  envelope_find_for_document-Delegates document_id = search call_rules

  pub envelope_signing_tasks-Delegates :
      (limit : ℤ) (cursor : String)
      → Delegates d sub Whatever (Envelope.signing_tasks env obo limit cursor)
  unfolding Envelope.signing_tasks
  envelope_signing_tasks-Delegates limit cursor = search call_rules

  pub envelope_get-Delegates : (id : String) → Delegates d sub Whatever (Envelope.get env obo id)
  unfolding Envelope.get
  envelope_get-Delegates id = search call_rules

  pub envelope_attach_document-Delegates :
      (id : String) (document_id : String)
      → Delegates d sub Whatever (Envelope.attach_document env obo id document_id)
  unfolding Envelope.attach_document
  envelope_attach_document-Delegates id document_id = search call_rules

  pub envelope_add_slot-Delegates :
      (id : String) (input : SlotInput)
      → Delegates d sub Whatever (Envelope.add_slot env obo id input)
  unfolding Envelope.add_slot
  envelope_add_slot-Delegates id input = search call_rules

  pub envelope_send-Delegates : (id : String) → Delegates d sub Whatever (Envelope.send env obo id)
  unfolding Envelope.send
  envelope_send-Delegates id = search call_rules

  pub envelope_cancel-Delegates :
      (id : String) → Delegates d sub Whatever (Envelope.cancel env obo id)
  unfolding Envelope.cancel
  envelope_cancel-Delegates id = search call_rules

  pub envelope_reopen-Delegates :
      (id : String) → Delegates d sub Whatever (Envelope.reopen env obo id)
  unfolding Envelope.reopen
  envelope_reopen-Delegates id = search call_rules

  pub envelope_slot_eligible-Delegates :
      (id : String) (slot_id : String)
      → Delegates d sub Whatever (Envelope.slot_eligible env obo id slot_id)
  unfolding Envelope.slot_eligible
  envelope_slot_eligible-Delegates id slot_id = search call_rules

  pub envelope_set_slot_job-Delegates :
      (id : String) (slot_id : String) (job_id : String)
      → Delegates d sub Whatever (Envelope.set_slot_job env obo id slot_id job_id)
  unfolding Envelope.set_slot_job
  envelope_set_slot_job-Delegates id slot_id job_id = search call_rules

  pub envelope_capture_signer_name-Delegates :
      (id : String) (slot_id : String) (name : String)
      → Delegates d sub Whatever (Envelope.capture_signer_name env obo id slot_id name)
  unfolding Envelope.capture_signer_name
  envelope_capture_signer_name-Delegates id slot_id name = search call_rules

  pub envelope_decline_slot-Delegates :
      (id : String) (slot_id : String)
      → Delegates d sub Whatever (Envelope.decline_slot env obo id slot_id)
  unfolding Envelope.decline_slot
  envelope_decline_slot-Delegates id slot_id = search call_rules

  pub document_list_chains-Delegates :
      (limit : ℤ) (after : String)
      → Delegates d sub Whatever (Document.list_chains env obo limit after)
  unfolding Document.list_chains
  document_list_chains-Delegates limit after = search call_rules

  pub document_get_chain-Delegates :
      (id : String) → Delegates d sub Whatever (Document.get_chain env obo id)
  unfolding Document.get_chain
  document_get_chain-Delegates id = search call_rules

  pub document_list_history-Delegates :
      (limit : ℤ) (after : String)
      → Delegates d sub Whatever (Document.list_history env obo limit after)
  unfolding Document.list_history
  document_list_history-Delegates limit after = search call_rules

  pub document_delete_history-Delegates :
      (chain_root_id : String)
      → Delegates d sub Whatever (Document.delete_history env obo chain_root_id)
  unfolding Document.delete_history
  document_delete_history-Delegates chain_root_id = search call_rules

  pub document_upload-Delegates :
      (content_type : String) (body : Content)
      → Delegates d sub Whatever (Document.upload env obo content_type body)
  unfolding Document.upload
  document_upload-Delegates content_type body = search call_rules

  pub document_bundle-Delegates :
      (source_ids : List String) → Delegates d sub Whatever (Document.bundle env obo source_ids)
  unfolding Document.bundle
  document_bundle-Delegates source_ids = search call_rules

  pub document_rebundle-Delegates :
      (id : String) (entries : List BundleEntry)
      → Delegates d sub Whatever (Document.rebundle env obo id entries)
  unfolding Document.rebundle
  document_rebundle-Delegates id entries = search call_rules

  pub document_list-Delegates :
      (limit : ℤ) (after : String) → Delegates d sub Whatever (Document.list env obo limit after)
  unfolding Document.list
  document_list-Delegates limit after = search call_rules

  pub document_metadata-Delegates :
      (id : String) → Delegates d sub Whatever (Document.metadata env obo id)
  unfolding Document.metadata
  document_metadata-Delegates id = search call_rules

  pub document_content-Delegates :
      (id : String) → Delegates d sub Whatever (Document.content env obo id)
  unfolding Document.content
  document_content-Delegates id = search call_rules

  pub document_extract_object-Delegates :
      (id : String) (name : String)
      → Delegates d sub Whatever (Document.extract_object env obo id name)
  unfolding Document.extract_object
  document_extract_object-Delegates id name = search call_rules

  pub document_delete-Delegates :
      (id : String) → Delegates d sub Whatever (Document.delete env obo id)
  unfolding Document.delete
  document_delete-Delegates id = search call_rules

  pub signflow_begin_signing-Delegates :
      (input : BeginInput) → Delegates d sub Whatever (Signflow.begin_signing env obo input)
  unfolding Signflow.begin_signing
  signflow_begin_signing-Delegates input = search call_rules

  pub signflow_status-Delegates :
      (job_id : String) (wait : ℤ) → Delegates d sub Whatever (Signflow.status env obo job_id wait)
  unfolding Signflow.status
  signflow_status-Delegates job_id wait = search call_rules

  pub signflow_abandon-Delegates :
      (job_id : String) → Delegates d sub Whatever (Signflow.abandon env obo job_id)
  unfolding Signflow.abandon
  signflow_abandon-Delegates job_id = search call_rules

  pub signflow_chain_free-Delegates :
      (envelope_id : String) (wait : ℤ)
      → Delegates d sub Whatever (Signflow.chain_free env obo envelope_id wait)
  unfolding Signflow.chain_free
  signflow_chain_free-Delegates envelope_id wait = search call_rules

  pub signflow_submit_client_signature-Delegates :
      (job_id : String) (sigs : List ClientSignature)
      → Delegates d sub Whatever (Signflow.submit_client_signature env obo job_id sigs)
  unfolding Signflow.submit_client_signature
  signflow_submit_client_signature-Delegates job_id sigs = search call_rules

  pub signflow_archive_timestamp-Delegates :
      (document_id : String) (auth_cert : String)
      → Delegates d sub Whatever (Signflow.archive_timestamp env obo document_id auth_cert)
  unfolding Signflow.archive_timestamp
  signflow_archive_timestamp-Delegates document_id auth_cert = search call_rules

pub ruleset client_rules = (
  envelope_create-Delegates, envelope_list-Delegates, envelope_find_for_document-Delegates,
  envelope_signing_tasks-Delegates, envelope_get-Delegates, envelope_attach_document-Delegates,
  envelope_add_slot-Delegates, envelope_send-Delegates, envelope_cancel-Delegates,
  envelope_reopen-Delegates, envelope_slot_eligible-Delegates, envelope_set_slot_job-Delegates,
  envelope_capture_signer_name-Delegates, envelope_decline_slot-Delegates,
  document_list_chains-Delegates, document_get_chain-Delegates, document_list_history-Delegates,
  document_delete_history-Delegates, document_upload-Delegates, document_bundle-Delegates,
  document_rebundle-Delegates, document_list-Delegates, document_metadata-Delegates,
  document_content-Delegates, document_extract_object-Delegates, document_delete-Delegates,
  signflow_begin_signing-Delegates, signflow_status-Delegates, signflow_abandon-Delegates,
  signflow_chain_free-Delegates, signflow_submit_client_signature-Delegates,
  signflow_archive_timestamp-Delegates,
)
