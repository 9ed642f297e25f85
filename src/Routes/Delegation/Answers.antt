-- ===== src/Routes/Delegation/Answers.antt =====
-- The handlers of previews, uploads and validations act for the user of their session.
use signbyte_bff.Base.{String, ◌≡◌, Bool, true, false, Option, none, some, ℤ}
use signbyte_bff.Session.{Session}
use signbyte_bff.Answers.{AnswerCache}
use signbyte_bff.Server.{Env, Request, OnBehalf, Validation}
use signbyte_bff.Server.Safe.{
  Any as Whatever, Never, Safe-then, Safe-ret, Safe-reply, Safe-sample, Safe-on_store,
}
use signbyte_bff.Clients.Preview as Preview
use signbyte_bff.Clients.Signflow as Signflow
use signbyte_bff.Routes.Previews.{
  preview_ready, preview_manifest, preview_page, preview_text, preview_inner_manifest,
  preview_inner_page, preview_inner_text,
}
use signbyte_bff.Routes.Uploads.{UploadForm, upload_document}
use signbyte_bff.Routes.Validations.{
  cached, served, serve_cached_answer, set_answer, store_answer, validate_document,
  signature_validation,
}
use signbyte_bff.Routes.Delegation.Base.{
  Delegates, do_on_behalf-Delegates, do_json_slow-Delegates, with_json-Delegates, or_reply_any,
  ready-Safe,
}
use signbyte_bff.Routes.Delegation.Handlers.{handler_rules}

module _ {Db Key Any : Type 0} (env : Env Db Key Any) (sub : String) (obo : OnBehalf)
    (h : obo.sub ≡ sub) where
  asked_manifest-Delegates :
      (id : String) → Delegates env.has_documents sub Whatever (Preview.manifest env obo id)
  unfolding Preview.manifest
  asked_manifest-Delegates id = search (Safe-then, Safe-ret, do_on_behalf-Delegates)

  asked_page-Delegates :
      (id : String) (n : ℤ) → Delegates env.has_documents sub Whatever (Preview.page env obo id n)
  unfolding Preview.page
  asked_page-Delegates id n = search (Safe-then, Safe-ret, do_on_behalf-Delegates)

  asked_text-Delegates :
      (id : String) → Delegates env.has_documents sub Whatever (Preview.text env obo id)
  unfolding Preview.text
  asked_text-Delegates id = search (Safe-then, Safe-ret, do_on_behalf-Delegates)

  asked_inner_manifest-Delegates :
      (id name : String)
      → Delegates env.has_documents sub Whatever (Preview.inner_manifest env obo id name)
  unfolding Preview.inner_manifest
  asked_inner_manifest-Delegates id name = search (Safe-then, Safe-ret, do_on_behalf-Delegates)

  asked_inner_page-Delegates :
      (id name : String) (n : ℤ)
      → Delegates env.has_documents sub Whatever (Preview.inner_page env obo id name n)
  unfolding Preview.inner_page
  asked_inner_page-Delegates id name n = search (Safe-then, Safe-ret, do_on_behalf-Delegates)

  asked_inner_text-Delegates :
      (id name : String)
      → Delegates env.has_documents sub Whatever (Preview.inner_text env obo id name)
  unfolding Preview.inner_text
  asked_inner_text-Delegates id name = search (Safe-then, Safe-ret, do_on_behalf-Delegates)

  signflow_validate_document-Delegates :
      (document_id : String)
      → Delegates env.has_documents sub Whatever (Signflow.validate_document env obo document_id)
  unfolding Signflow.validate_document
  signflow_validate_document-Delegates document_id =
      search (with_json-Delegates, do_json_slow-Delegates)

  signflow_validate-Delegates :
      (signature_id : String)
      → Delegates env.has_documents sub Whatever (Signflow.validate env obo signature_id)
  unfolding Signflow.validate
  signflow_validate-Delegates signature_id = search (with_json-Delegates, do_json_slow-Delegates)

module _ {Db Key Any : Type 0} (env : Env Db Key Any) (sub : String) where
  preview_ready-Delegates : Delegates env.has_documents sub Whatever (preview_ready env)
  unfolding preview_ready
  preview_ready-Delegates = ready-Safe _ _

  cached-Delegates :
      (answers : Option (AnswerCache Db)) (forced : Bool) (key : String)
      → Delegates env.has_documents sub Whatever (cached env answers forced key)
  unfolding cached
  cached-Delegates none forced key = Safe-ret _ tt
  cached-Delegates (some c) true key = Safe-ret _ tt
  cached-Delegates (some c) false key = search (Safe-then, Safe-sample, Safe-on_store)

  served-Delegates :
      (found : Option String) → Delegates env.has_documents sub Whatever (served env found)
  unfolding served
  served-Delegates none = Safe-ret _ tt
  served-Delegates (some b) = Safe-reply _ tt

  serve_cached_answer-Delegates :
      (req : Request) (key : String)
      → Delegates env.has_documents sub Whatever (serve_cached_answer env req key)
  unfolding serve_cached_answer
  serve_cached_answer-Delegates req key = search (Safe-then, cached-Delegates, served-Delegates)

  set_answer-Delegates :
      (answers : Option (AnswerCache Db)) (key : String) (b : Option String)
      → Delegates env.has_documents sub Whatever (set_answer env answers key b)
  unfolding set_answer
  set_answer-Delegates none key b = Safe-ret _ tt
  set_answer-Delegates (some c) key none = Safe-ret _ tt
  set_answer-Delegates (some c) key (some b) = search (Safe-then, Safe-sample, Safe-on_store)

  store_answer-Delegates :
      (key : String) (v : Validation)
      → Delegates env.has_documents sub Whatever (store_answer env key v)
  unfolding store_answer
  store_answer-Delegates key v = set_answer-Delegates env.answers key _

ruleset answer_rules = (
  handler_rules, preview_ready-Delegates, asked_manifest-Delegates, asked_page-Delegates,
  asked_text-Delegates, asked_inner_manifest-Delegates, asked_inner_page-Delegates,
  asked_inner_text-Delegates, signflow_validate_document-Delegates, signflow_validate-Delegates,
  serve_cached_answer-Delegates, store_answer-Delegates, or_reply_any,
)

module _ {Db Key Any : Type 0} (env : Env Db Key Any) where
  pub preview_manifest-Delegates :
      (req : Request) (sid : String) (sess : Session)
      → Delegates env.has_documents sess.subject Never (preview_manifest env req sid sess)
  unfolding preview_manifest
  preview_manifest-Delegates req sid sess = search answer_rules depth 16

  pub preview_page-Delegates :
      (req : Request) (sid : String) (sess : Session)
      → Delegates env.has_documents sess.subject Never (preview_page env req sid sess)
  unfolding preview_page
  preview_page-Delegates req sid sess = search answer_rules depth 16

  pub preview_text-Delegates :
      (req : Request) (sid : String) (sess : Session)
      → Delegates env.has_documents sess.subject Never (preview_text env req sid sess)
  unfolding preview_text
  preview_text-Delegates req sid sess = search answer_rules depth 16

  pub preview_inner_manifest-Delegates :
      (req : Request) (sid : String) (sess : Session)
      → Delegates env.has_documents sess.subject Never (preview_inner_manifest env req sid sess)
  unfolding preview_inner_manifest
  preview_inner_manifest-Delegates req sid sess = search answer_rules depth 16

  pub preview_inner_page-Delegates :
      (req : Request) (sid : String) (sess : Session)
      → Delegates env.has_documents sess.subject Never (preview_inner_page env req sid sess)
  unfolding preview_inner_page
  preview_inner_page-Delegates req sid sess = search answer_rules depth 16

  pub preview_inner_text-Delegates :
      (req : Request) (sid : String) (sess : Session)
      → Delegates env.has_documents sess.subject Never (preview_inner_text env req sid sess)
  unfolding preview_inner_text
  preview_inner_text-Delegates req sid sess = search answer_rules depth 16

  pub validate_document-Delegates :
      (req : Request) (sid : String) (sess : Session)
      → Delegates env.has_documents sess.subject Never (validate_document env req sid sess)
  unfolding validate_document
  validate_document-Delegates req sid sess = search answer_rules depth 16

  pub signature_validation-Delegates :
      (req : Request) (sid : String) (sess : Session)
      → Delegates env.has_documents sess.subject Never (signature_validation env req sid sess)
  unfolding signature_validation
  signature_validation-Delegates req sid sess = search answer_rules depth 16

  pub upload_document-Delegates :
      (req : Request) (form : UploadForm) (sid : String) (sess : Session)
      → Delegates env.has_documents sess.subject Never (upload_document env req form sid sess)
  unfolding upload_document
  upload_document-Delegates req form sid sess = search answer_rules depth 16
