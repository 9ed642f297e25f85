-- ===== src/Clients/Envelope.antt =====
-- clients/envelope.go: the calls of the envelope service.
use Prim.Native.String.{◌++◌}
use signbyte_bff.Base.{String, Bool, false, ◌==◌, List, [], ◌∷◌, some, ℤ, above, if◌then◌else◌}
use signbyte_bff.Errors.{Result}
use signbyte_bff.Server.{
  OnBehalf, Env, Content, no_content, create_payload, document_payload, slot_payload, job_payload,
  name_payload,
}
use signbyte_bff.Server.Monad.{M, ret, ◌>>=◌}
use signbyte_bff.Clients.Types.{
  SlotInput, CreateInput, Created, ListResult, SigningTasksResult, DocRef, Detail, Transition,
}
use signbyte_bff.Clients.Zero.{
  zero_created, zero_list_result, zero_signing_tasks_result, zero_doc_ref, zero_detail,
  zero_transition,
}
use signbyte_bff.Clients.Calls.{Ask, join, trim_right_slash, do_json, with_json, map_result}

module _ {Db Key Any : Type 0} (env : Env Db Key Any) where
  unfoldable pub base : String
  base = trim_right_slash (env.config.base_url "envelope")

  abbrev ask : String → String → String → Content → String → Ask
  ask scope method url content content_type = record {
    service = "envelope";
    scope = scope;
    method = method;
    url = url;
    content = content;
    content_type = content_type;
  }

  -- `?` and the parameters that are given
  abbrev with_query : List String → String
  with_query [] = ""
  with_query (q ∷ qs) = "?" ++ join "&" (q ∷ qs)

  -- `limit` if it is positive, `cursor` as it came
  abbrev page : ℤ → String → String
  page limit cursor =
      let q = if cursor == "" then [] else ("cursor=" ++ cursor) ∷ [] in
      with_query (if above limit 0 then ("limit=" ++ env.itoa limit) ∷ q else q)

  unfoldable pub create : OnBehalf → CreateInput → M Db (Result Created)
  create obo input = with_json env (create_payload input) (λ content.
      do_json env
        (ask "envelopes:write" "POST" (base ++ "/api/v1/envelopes") content "application/json") obo
        env.wire.created zero_created)

  unfoldable pub list : OnBehalf → ℤ → String → M Db (Result ListResult)
  list obo limit cursor =
      do_json env
        (ask "envelopes:read" "GET" (base ++ "/api/v1/envelopes" ++ page limit cursor) no_content
          "")
        obo env.wire.envelopes zero_list_result

  unfoldable pub find_for_document : OnBehalf → String → M Db (Result ListResult)
  find_for_document obo document_id =
      do_json env
        (ask "envelopes:read" "GET"
          (base ++ "/api/v1/envelopes?documentId=" ++ env.query_escape document_id) no_content "")
        obo env.wire.envelopes zero_list_result

  unfoldable pub signing_tasks : OnBehalf → ℤ → String → M Db (Result SigningTasksResult)
  signing_tasks obo limit cursor =
      do_json env
        (ask "envelopes:read" "GET" (base ++ "/api/v1/signing-tasks" ++ page limit cursor)
          no_content "")
        obo env.wire.tasks zero_signing_tasks_result

  unfoldable pub get : OnBehalf → String → M Db (Result Detail)
  get obo id =
      do_json env (ask "envelopes:read" "GET" (base ++ "/api/v1/envelopes/" ++ id) no_content "")
        obo env.wire.detail zero_detail

  unfoldable pub attach_document : OnBehalf → String → String → M Db (Result DocRef)
  attach_document obo id document_id = do
    out ← with_json env (document_payload document_id) (λ content.
        do_json env
          (ask "envelopes:write" "POST" (base ++ "/api/v1/envelopes/" ++ id ++ "/documents") content
            "application/json")
          obo env.wire.attached zero_doc_ref)
    ret (
        map_result
          (λ out. record zero_doc_ref {
            document_id = out.document_id;
            content_hash = out.content_hash;
          })
          out)

  unfoldable pub add_slot : OnBehalf → String → SlotInput → M Db (Result String)
  add_slot obo id input = with_json env (slot_payload input) (λ content.
      do_json env
        (ask "envelopes:write" "POST" (base ++ "/api/v1/envelopes/" ++ id ++ "/slots") content
          "application/json")
        obo env.wire.slot_id "")

  unfoldable pub send : OnBehalf → String → M Db (Result Transition)
  send obo id =
      do_json env
        (ask "envelopes:transition" "POST" (base ++ "/api/v1/envelopes/" ++ id ++ "/send")
          no_content "")
        obo env.wire.transition zero_transition

  unfoldable pub cancel : OnBehalf → String → M Db (Result Transition)
  cancel obo id =
      do_json env
        (ask "envelopes:transition" "POST" (base ++ "/api/v1/envelopes/" ++ id ++ "/cancel")
          no_content "")
        obo env.wire.transition zero_transition

  unfoldable pub reopen : OnBehalf → String → M Db (Result Transition)
  reopen obo id =
      do_json env
        (ask "envelopes:transition" "POST" (base ++ "/api/v1/envelopes/" ++ id ++ "/reopen")
          no_content "")
        obo env.wire.transition zero_transition

  unfoldable pub slot_eligible : OnBehalf → String → String → M Db (Result Bool)
  slot_eligible obo id slot_id =
      do_json env
        (ask "envelopes:read" "GET"
          (base ++ "/api/v1/envelopes/" ++ id ++ "/slots/" ++ slot_id ++ "/eligible") no_content "")
        obo env.wire.eligible false

  unfoldable pub set_slot_job : OnBehalf → String → String → String → M Db (Result (Unit {0}))
  set_slot_job obo id slot_id job_id = with_json env (job_payload job_id) (λ content.
      do_json env
        (ask "envelopes:transition" "POST"
          (base ++ "/api/v1/envelopes/" ++ id ++ "/slots/" ++ slot_id ++ "/job") content
          "application/json")
        obo (λ body. some tt) tt)

  unfoldable pub capture_signer_name :
      OnBehalf → String → String → String → M Db (Result (Unit {0}))
  capture_signer_name obo id slot_id name = with_json env (name_payload name) (λ content.
      do_json env
        (ask "envelopes:transition" "POST"
          (base ++ "/api/v1/envelopes/" ++ id ++ "/slots/" ++ slot_id ++ "/name") content
          "application/json")
        obo (λ body. some tt) tt)

  unfoldable pub decline_slot : OnBehalf → String → String → M Db (Result Transition)
  decline_slot obo id slot_id =
      do_json env
        (ask "envelopes:transition" "POST"
          (base ++ "/api/v1/envelopes/" ++ id ++ "/slots/" ++ slot_id ++ "/decline") no_content "")
        obo env.wire.transition zero_transition
