-- ===== src/Clients/Document.antt =====
-- clients/document.go: the calls of the document service.
use Prim.Native.String.{◌++◌}
use signbyte_bff.Base.{String, false, ◌==◌, List, [], ◌∷◌, some, ℤ, above, if◌then◌else◌}
use signbyte_bff.Errors.{Result}
use signbyte_bff.Server.{
  OnBehalf, Response, Env, Content, no_content, sources_payload, entries_payload,
}
use signbyte_bff.Server.Monad.{M, ret, ◌>>=◌}
use signbyte_bff.Clients.Types.{Meta, DocList, ChainRow, ChainList, HistoryList, BundleEntry}
use signbyte_bff.Clients.Zero.{
  zero_meta, zero_doc_list, zero_chain_row, zero_chain_list, zero_history_list,
}
use signbyte_bff.Clients.Calls.{
  Ask, join, trim_right_slash, do_on_behalf, do_json, with_json, only_success,
}

module _ {Db Key Any : Type 0} (env : Env Db Key Any) where
  unfoldable pub base : String
  base = trim_right_slash (env.config.base_url "document")

  abbrev ask : String → String → String → Content → String → Ask
  ask scope method url content content_type = record {
    service = "document";
    scope = scope;
    method = method;
    url = url;
    content = content;
    content_type = content_type;
  }

  -- `?` and the parameters that are given
  abbrev with_query : List String → String
  with_query [] = ""
  with_query (q ∷ qs) = "?" ++ join "&" (q ∷ qs)

  -- url.Values writes its keys in their order, which is the order here.
  abbrev page : ℤ → String → List String → List String
  page limit after rest =
      let q =
        if above limit 0 then ("limit=" ++ env.query_escape (env.itoa limit)) ∷ rest else rest in
      if after == "" then q else ("after=" ++ env.query_escape after) ∷ q

  unfoldable pub list_chains : OnBehalf → ℤ → String → M Db (Result ChainList)
  list_chains obo limit after =
      do_json env
        (ask "documents:read" "GET"
          (base ++ "/api/v1/documents" ++ with_query (page limit after ("view=chains" ∷ [])))
          no_content "")
        obo env.wire.chains zero_chain_list

  unfoldable pub get_chain : OnBehalf → String → M Db (Result ChainRow)
  get_chain obo id =
      do_json env
        (ask "documents:read" "GET" (base ++ "/api/v1/documents/" ++ env.path_escape id ++ "/chain")
          no_content "")
        obo env.wire.chain zero_chain_row

  unfoldable pub list_history : OnBehalf → ℤ → String → M Db (Result HistoryList)
  list_history obo limit after =
      do_json env
        (ask "documents:read" "GET" (base ++ "/api/v1/history" ++ with_query (page limit after []))
          no_content "")
        obo env.wire.history zero_history_list

  unfoldable pub delete_history : OnBehalf → String → M Db (Result (Unit {0}))
  delete_history obo chain_root_id =
      do_json env
        (ask "documents:write" "DELETE" (base ++ "/api/v1/history/" ++ chain_root_id) no_content "")
        obo (λ body. some tt) tt

  unfoldable pub upload : OnBehalf → String → Content → M Db (Result Meta)
  upload obo content_type body =
      do_json env (ask "documents:write" "POST" (base ++ "/api/v1/documents") body content_type) obo
        env.wire.meta zero_meta

  unfoldable pub bundle : OnBehalf → List String → M Db (Result Meta)
  bundle obo source_ids = with_json env (sources_payload source_ids) (λ content.
      do_json env
        (ask "documents:write" "POST" (base ++ "/api/v1/documents/bundle") content
          "application/json")
        obo env.wire.meta zero_meta)

  unfoldable pub rebundle : OnBehalf → String → List BundleEntry → M Db (Result Meta)
  rebundle obo id entries = with_json env (entries_payload entries) (λ content.
      do_json env
        (ask "documents:write" "POST" (base ++ "/api/v1/documents/" ++ id ++ "/rebundle") content
          "application/json")
        obo env.wire.meta zero_meta)

  unfoldable pub list : OnBehalf → ℤ → String → M Db (Result DocList)
  list obo limit after =
      do_json env
        (ask "documents:read" "GET"
          (base ++ "/api/v1/documents" ++ with_query (page limit after [])) no_content "")
        obo env.wire.documents zero_doc_list

  unfoldable pub metadata : OnBehalf → String → M Db (Result Meta)
  metadata obo id =
      do_json env (ask "documents:read" "GET" (base ++ "/api/v1/documents/" ++ id) no_content "")
        obo env.wire.meta zero_meta

  unfoldable pub content : OnBehalf → String → M Db (Result Response)
  content obo id = do
    resp ←
        do_on_behalf env false
          (ask "documents:read" "GET" (base ++ "/api/v1/documents/" ++ id ++ "/content") no_content
            "")
          obo
    ret (only_success "document" resp)

  unfoldable pub extract_object : OnBehalf → String → String → M Db (Result Response)
  extract_object obo id name = do
    resp ←
        do_on_behalf env false
          (ask "documents:read" "GET"
            (base
              ++ "/api/v1/documents/"
              ++ id
              ++ "/data-objects/"
              ++ env.path_escape name
              ++ "?conduit=review")
            no_content "")
          obo
    ret (only_success "document" resp)

  unfoldable pub delete : OnBehalf → String → M Db (Result (Unit {0}))
  delete obo id =
      do_json env
        (ask "documents:write" "DELETE" (base ++ "/api/v1/documents/" ++ id) no_content "") obo
        (λ body. some tt) tt
