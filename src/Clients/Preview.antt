-- ===== src/Clients/Preview.antt =====
-- clients/preview.go: the calls of the preview service.
use Prim.Native.String.{◌++◌}
use signbyte_bff.Base.{String, false, ℤ}
use signbyte_bff.Errors.{Result}
use signbyte_bff.Server.{OnBehalf, Response, Env, Content, no_content}
use signbyte_bff.Server.Monad.{M, ret, ◌>>=◌}
use signbyte_bff.Clients.Calls.{Ask, trim_right_slash, do_on_behalf, only_success}

module _ {Db Key Any : Type 0} (env : Env Db Key Any) where
  unfoldable pub base : String
  base = trim_right_slash (env.config.base_url "preview")

  abbrev ask : String → String → String → Content → String → Ask
  ask scope method url content content_type = record {
    service = "preview";
    scope = scope;
    method = method;
    url = url;
    content = content;
    content_type = content_type;
  }

  unfoldable pub manifest : OnBehalf → String → M Db (Result Response)
  manifest obo id = do
    resp ←
        do_on_behalf env false
          (ask "preview:read" "GET" (base ++ "/api/v1/previews/" ++ id) no_content "") obo
    ret (only_success "preview" resp)

  unfoldable pub page : OnBehalf → String → ℤ → M Db (Result Response)
  page obo id n = do
    resp ←
        do_on_behalf env false
          (ask "preview:read" "GET" (base ++ "/api/v1/previews/" ++ id ++ "/pages/" ++ env.itoa n)
            no_content "")
          obo
    ret (only_success "preview" resp)

  unfoldable pub text : OnBehalf → String → M Db (Result Response)
  text obo id = do
    resp ←
        do_on_behalf env false
          (ask "preview:read" "GET" (base ++ "/api/v1/previews/" ++ id ++ "/text") no_content "")
          obo
    ret (only_success "preview" resp)

  unfoldable pub inner_manifest : OnBehalf → String → String → M Db (Result Response)
  inner_manifest obo id name = do
    resp ←
        do_on_behalf env false
          (ask "preview:read" "GET"
            (base ++ "/api/v1/previews/" ++ id ++ "/data-objects/" ++ env.path_escape name)
            no_content "")
          obo
    ret (only_success "preview" resp)

  unfoldable pub inner_page : OnBehalf → String → String → ℤ → M Db (Result Response)
  inner_page obo id name n = do
    resp ←
        do_on_behalf env false
          (ask "preview:read" "GET"
            (base
              ++ "/api/v1/previews/"
              ++ id
              ++ "/data-objects/"
              ++ env.path_escape name
              ++ "/pages/"
              ++ env.itoa n)
            no_content "")
          obo
    ret (only_success "preview" resp)

  unfoldable pub inner_text : OnBehalf → String → String → M Db (Result Response)
  inner_text obo id name = do
    resp ←
        do_on_behalf env false
          (ask "preview:read" "GET"
            (base
              ++ "/api/v1/previews/"
              ++ id
              ++ "/data-objects/"
              ++ env.path_escape name
              ++ "/text")
            no_content "")
          obo
    ret (only_success "preview" resp)
