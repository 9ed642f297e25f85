-- ===== src/Routes/Uploads.antt =====
-- routes/documents.go, `uploadDocument`: the form is read and encoded again for the document service.
use Prim.Native.String.{◌++◌}
use signbyte_bff.Base.{ℕ, String, List, [], Option, none, some, Map, insert}
use signbyte_bff.Errors.{Result, ok, err, file_unreadable}
use signbyte_bff.Session.{Session}
use signbyte_bff.Server.{Env, Request, Content, form_content}
use signbyte_bff.Server.Files.{Upload, FileHeader}
use signbyte_bff.Server.Monad.{M, json, meta_answer, reply, ◌>>=◌, ◌>>◌, sample}
use signbyte_bff.Clients.Document as Document
use signbyte_bff.Routes.Relay.{internal, or_relay, or_reply, ready, decoded_body}
use signbyte_bff.Routes.Token.{on_behalf}

-- The form: its file, an error where it has none, and its optional texts.
pub record UploadForm : Type 0 where
  pub file : Result FileHeader
  pub preservation_class : Option String
  pub mime : Option String

-- `io.ReadAll`: an upload that fails at a position is an error.
unfoldable pub read_all : Upload → Result (List ℕ)
read_all f = elim f.fails_after [ none ↦ ok f.bytes | some position ↦ err file_unreadable ]

unfoldable pub read_opened : Option Upload → Result (List ℕ)
read_opened none = err file_unreadable
read_opened (some f) = read_all f

-- `readUpload`
unfoldable pub read_upload : FileHeader → Result (List ℕ)
read_upload fh = read_opened fh.opened

-- `if v := ...; v != nil { fields[name] = *v }`
unfoldable pub with_field : String → Option String → Map String → Map String
with_field name none fields = fields
with_field name (some v) fields = insert name v fields

unfoldable pub upload_fields : UploadForm → Map String
upload_fields form =
    with_field "mime" form.mime (with_field "preservation_class" form.preservation_class [])

-- `encodeUpload` writes to memory, where no write fails: the content type and the body
unfoldable pub encode_upload : String → String → String → List ℕ → Map String → String × Content
encode_upload boundary field filename bytes fields = (
  "multipart/form-data; boundary=" ++ boundary,
  form_content boundary fields field filename bytes,
)

module _ {Db Key Any : Type 0} (env : Env Db Key Any) where
  unfoldable pub upload_document : Request → UploadForm → String → Session → M Db (Unit {0})
  upload_document req form sid sess = do
    ready "err:document:notConfigured" env.has_documents
    who ← on_behalf env sid sess
    fh ← decoded_body form.file
    bytes ← or_reply internal (read_upload fh)
    boundary ← sample env.boundary
    let body : String × Content =
        encode_upload boundary "file" fh.filename bytes (upload_fields form)
    answer ← Document.upload env who.obo body.0 body.1
    out ← or_relay answer
    reply (json 201 (meta_answer out))
