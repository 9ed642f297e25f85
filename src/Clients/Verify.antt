-- ===== src/Clients/Verify.antt =====
-- clients/verify.go: the upload of a public verification to the signing service.
use Prim.Native.String.{◌++◌}
use signbyte_bff.Base.{ℕ, String, List, [], Option, none, some, lookup}
use signbyte_bff.Errors.{Result, ok, err}
use signbyte_bff.Server.{Response, ServiceCall, Content, form_content, called_as_service}
use signbyte_bff.Server.Monad.{M, ret, ◌>>=◌, ◌>>◌, sample, emit}
use signbyte_bff.Server.Public.{PublicEnv}
use signbyte_bff.Clients.Calls.{trim_right_slash}

pub record VerifyResult : Type 0 where
  pub status_code : ℕ
  pub report : String
  pub session_id : String

-- `http.Header.Get`: the empty text when the header is absent
unfoldable pub header_or_empty : Option String → String
header_or_empty none = ""
header_or_empty (some v) = v

unfoldable pub verify_result : Result Response → Result VerifyResult
verify_result (err e) = err e
verify_result (ok resp) = ok (record {
  status_code = resp.status_code;
  report = resp.body;
  session_id = header_or_empty (lookup "X-Validation-Session" resp.header);
})

-- `multipartUpload` writes to memory, where no write fails: the content type and the body
unfoldable pub multipart_upload : String → String → String → List ℕ → String × Content
multipart_upload boundary field filename bytes =
    ("multipart/form-data; boundary=" ++ boundary, form_content boundary [] field filename bytes)

module _ (env : PublicEnv) where
  unfoldable pub validate_call : String × Content → ServiceCall
  validate_call (content_type, content) = record {
    timeout = 90;
    audience = env.signer_audience;
    scope = "signatures:read";
    method = "POST";
    url = trim_right_slash env.signer_base_url ++ "/api/v1/validations";
    content_type = content_type;
    content = content;
  }

module _ {Db : Type 0} (env : PublicEnv) where
  -- a call under this service's own identity, which is one step of the world
  unfoldable pub do_service : ServiceCall → M Db (Result Response)
  do_service c = do
    resp ← sample (λ i. env.serve_service i c)
    emit (called_as_service c resp)
    ret resp

  unfoldable pub validate : String → List ℕ → M Db (Result VerifyResult)
  validate filename bytes = do
    boundary ← sample env.boundary
    resp ← do_service (validate_call env (multipart_upload boundary "file" filename bytes))
    ret (verify_result resp)
