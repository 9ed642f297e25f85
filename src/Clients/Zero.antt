-- ===== src/Clients/Zero.antt =====
-- The zero values of the answers, which a call leaves in place when the body of the answer is empty.
use signbyte_bff.Base.{false, [], none, pos}
use signbyte_bff.Server.{Validation}
use signbyte_bff.Clients.Types.{
  Created, ListResult, SigningTasksResult, EnvelopeView, DocRef, Detail, Transition, Meta, DocList,
  ChainRow, ChainList, HistoryList, Job, ArchivedDocument,
}

abbrev pub zero_created : Created
zero_created = record { id = ""; status = ""; version = pos 0; slot_ids = [] }

abbrev pub zero_list_result : ListResult
zero_list_result = record { envelopes = []; next_cursor = "" }

abbrev pub zero_signing_tasks_result : SigningTasksResult
zero_signing_tasks_result = record { tasks = []; next_cursor = "" }

abbrev pub zero_envelope_view : EnvelopeView
zero_envelope_view = record {
  id = "";
  owner = "";
  title = "";
  status = "";
  order_policy = "";
  version = pos 0;
  created_at = "";
  origin = none;
}

abbrev pub zero_doc_ref : DocRef
zero_doc_ref = record { document_id = ""; content_hash = ""; filename = "" }

abbrev pub zero_detail : Detail
zero_detail = record { envelope = zero_envelope_view; slots = []; documents = [] }

abbrev pub zero_transition : Transition
zero_transition = record { id = ""; status = ""; version = pos 0 }

abbrev pub zero_meta : Meta
zero_meta = record {
  id = "";
  filename = "";
  mime = "";
  content_hash = "";
  size = pos 0;
  preservation_class = "";
  kind = "";
  status = "";
  has_signatures = false;
  inner_files = [];
}

abbrev pub zero_doc_list : DocList
zero_doc_list = record { documents = []; count = pos 0 }

abbrev pub zero_chain_row : ChainRow
zero_chain_row = record {
  chain_root_id = "";
  id = "";
  kind = "";
  status = "";
  filename = "";
  mime = "";
  size = pos 0;
  has_signatures = false;
  platform_signed = false;
  result_frozen = false;
  retention_until = 0;
  chain_created_at = 0;
  created_at = 0;
  updated_at = 0;
  preservation_class = "";
  inner_files = [];
}

abbrev pub zero_chain_list : ChainList
zero_chain_list = record { chains = []; count = pos 0 }

abbrev pub zero_history_list : HistoryList
zero_history_list = record { chains = []; count = pos 0 }

abbrev pub zero_job : Job
zero_job = record {
  job_id = "";
  state = "";
  authorize_url = "";
  sign_algorithm = "";
  verification_code = "";
  verification_message = "";
  signing_deadline = pos 0;
  documents = [];
  container_id = "";
  signature_id = "";
}

abbrev pub zero_archived_document : ArchivedDocument
zero_archived_document = record { document_id = ""; content_hash = ""; mime = ""; size = pos 0 }

abbrev pub zero_validation : Validation
zero_validation = record { verdict = ""; validated_at = ""; rest = "" }
