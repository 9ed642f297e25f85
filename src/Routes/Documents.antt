-- ===== src/Routes/Documents.antt =====
-- routes/documents.go: the documents of the logged-in user.
use signbyte_bff.Clients.Document as Document
use signbyte_bff.Base.{
  ℕ, String, not, ◌==◌, List, [], ◌∷◌, Option, none, some, ℤ, pos, lookup, if◌then◌else◌,
}
use signbyte_bff.Errors.{Result}
use signbyte_bff.Session.{Session}
use signbyte_bff.Server.{Env, Request, Response}
use signbyte_bff.Clients.Types.{BundleEntry}
use signbyte_bff.Server.Monad.{
  M, Reply, problem, json, raw, archived_answer, meta_answer, documents_answer, chain_answer,
  history_answer, ok_answer, dashboard_answer, reply, ◌>>=◌, ◌>>◌,
}
use signbyte_bff.Audit.{document_read}
use signbyte_bff.Routes.Relay.{or_relay, require, ready, decoded_body}
use signbyte_bff.Routes.Token.{on_behalf}
use signbyte_bff.Routes.Login.{text_or_empty}
use signbyte_bff.Routes.Dashboard.{compose}
use signbyte_bff.Clients.Envelope as Envelope
use signbyte_bff.Clients.Signflow as Signflow
use signbyte_bff.Session.{Capabilities}

unfoldable pub int_or_zero : Option ℤ → ℤ
int_or_zero none = pos 0
int_or_zero (some n) = n

-- `Header.Get`, "" when the header is absent
unfoldable pub header_of : Response → String → String
header_of resp name = text_or_empty (lookup name resp.header)

-- A header is handed on if it is not empty.
abbrev pub handed_on : Response → String → List (String × String) → List (String × String)
handed_on resp name rest =
    if header_of resp name == "" then rest else (name, header_of resp name) ∷ rest

-- The bytes with their type and file name, and never sniffed.
unfoldable pub relayed_bytes : Response → Reply
relayed_bytes resp = raw 200 resp.body (
    handed_on resp "Content-Type"
      (handed_on resp "Content-Disposition" (("X-Content-Type-Options", "nosniff") ∷ [])))

-- the authentication certificate that the sign-in captured
unfoldable pub captured_certificate : Option Capabilities → String
captured_certificate none = ""
captured_certificate (some caps) = caps.auth_certificate

module _ {Db Key Any : Type 0} (env : Env Db Key Any) where
  unfoldable pub list_documents : Request → String → Session → M Db (Unit {0})
  list_documents req sid sess = do
    ready "err:document:notConfigured" env.has_documents
    who ← on_behalf env sid sess
    answer ←
        Document.list env who.obo (int_or_zero (req.query_int "limit"))
          (text_or_empty (req.query "after"))
    out ← or_relay answer
    reply (json 200 (documents_answer out))

  unfoldable pub get_document : Request → String → Session → M Db (Unit {0})
  get_document req sid sess = do
    ready "err:document:notConfigured" env.has_documents
    who ← on_behalf env sid sess
    answer ← Document.metadata env who.obo (req.param "id")
    out ← or_relay answer
    reply (json 200 (meta_answer out))

  unfoldable pub get_document_chain : Request → String → Session → M Db (Unit {0})
  get_document_chain req sid sess = do
    ready "err:document:notConfigured" env.has_documents
    who ← on_behalf env sid sess
    answer ← Document.get_chain env who.obo (req.param "id")
    out ← or_relay answer
    reply (json 200 (chain_answer out))

  unfoldable pub download_document : Request → String → Session → M Db (Unit {0})
  download_document req sid sess = do
    ready "err:document:notConfigured" env.has_documents
    who ← on_behalf env sid sess
    answer ← Document.content env who.obo (req.param "id")
    resp ← or_relay answer
    document_read env who.obo.sub (req.param "id")
    reply (relayed_bytes resp)

  unfoldable pub delete_document : Request → String → Session → M Db (Unit {0})
  delete_document req sid sess = do
    ready "err:document:notConfigured" env.has_documents
    who ← on_behalf env sid sess
    answer ← Document.delete env who.obo (req.param "id")
    out ← or_relay answer
    reply (json 200 ok_answer)

  unfoldable pub archive_timestamp : Request → String → Session → M Db (Unit {0})
  archive_timestamp req sid sess = do
    ready "err:signing:notConfigured" env.has_signflow
    who ← on_behalf env sid sess
    let auth_cert : String = captured_certificate who.session.capabilities
    require (not (auth_cert == "")) (problem "err:signing:authCertificateRequired" (some 409))
    answer ← Signflow.archive_timestamp env who.obo (req.param "id") auth_cert
    out ← or_relay answer
    reply (json 200 (archived_answer out))

  unfoldable pub list_history : Request → String → Session → M Db (Unit {0})
  list_history req sid sess = do
    ready "err:document:notConfigured" env.has_documents
    who ← on_behalf env sid sess
    answer ←
        Document.list_history env who.obo (int_or_zero (req.query_int "limit"))
          (text_or_empty (req.query "after"))
    out ← or_relay answer
    reply (json 200 (history_answer out))

  unfoldable pub delete_history : Request → String → Session → M Db (Unit {0})
  delete_history req sid sess = do
    ready "err:document:notConfigured" env.has_documents
    who ← on_behalf env sid sess
    answer ← Document.delete_history env who.obo (req.param "chainRoot")
    out ← or_relay answer
    reply (json 200 ok_answer)

  unfoldable pub bundle_documents :
      Request → Result (List String) → String → Session → M Db (Unit {0})
  bundle_documents req body sid sess = do
    ready "err:document:notConfigured" env.has_documents
    who ← on_behalf env sid sess
    input ← decoded_body body
    answer ← Document.bundle env who.obo input
    out ← or_relay answer
    reply (json 201 (meta_answer out))

  unfoldable pub rebundle_document :
      Request → Result (List BundleEntry) → String → Session → M Db (Unit {0})
  rebundle_document req body sid sess = do
    ready "err:document:notConfigured" env.has_documents
    who ← on_behalf env sid sess
    input ← decoded_body body
    answer ← Document.rebundle env who.obo (req.param "id") input
    out ← or_relay answer
    reply (json 200 (meta_answer out))

  unfoldable pub extract_data_object : Request → String → Session → M Db (Unit {0})
  extract_data_object req sid sess = do
    ready "err:document:notConfigured" env.has_documents
    who ← on_behalf env sid sess
    answer ← Document.extract_object env who.obo (req.param "id") (req.param "name")
    resp ← or_relay answer
    reply (relayed_bytes resp)

  -- routes/dashboard.go, `dashboard`; `rfc3339` is the text of an instant
  unfoldable pub dashboard : (ℕ → String) → Request → String → Session → M Db (Unit {0})
  dashboard rfc3339 req sid sess = do
    ready "err:document:notConfigured" env.has_documents
    ready "err:envelope:notConfigured" env.has_envelope
    who ← on_behalf env sid sess
    asked ← Envelope.signing_tasks env who.obo (pos 0) ""
    tasks ← or_relay asked
    listed ← Envelope.list env who.obo (pos 0) ""
    envs ← or_relay listed
    found ← Document.list_chains env who.obo (pos 0) ""
    chains ← or_relay found
    reply (json 200 (dashboard_answer (compose rfc3339 tasks.tasks envs.envelopes chains.chains)))
