-- ===== src/Routes/Validations/Forced.antt =====
-- A validation that asks for a fresh round goes to the signing service, whatever is cached.
use Prim.Native.String.{◌++◌}
use signbyte_bff.Base.{suc, String, true, false, ◌==◌, ◌∷◌, Option, none, some, ◌≡◌, refl, ◌∙◌}
use signbyte_bff.Errors.{Result, ok, err}
use signbyte_bff.Session.{Session}
use signbyte_bff.Answers.{AnswerCache}
use signbyte_bff.Server.{
  Env, Request, Response, Payload, Validation, Call, called, json_content, document_payload,
  signature_payload,
}
use signbyte_bff.Server.Monad.{
  M, Res, value, replied, panicked, St, json, validation_answer, ret, reply, follow, ◌>>=◌, ◌>>◌,
  sample, on_store, emit,
}
use signbyte_bff.Clients.Calls.{
  call_for, decoded, do_json_slow, do_on_behalf, request_on_behalf, with_json,
}
use signbyte_bff.Clients.Zero.{zero_validation}
use signbyte_bff.Clients.Signflow as Signflow
use signbyte_bff.Routes.Relay.{ready, or_relay}
use signbyte_bff.Routes.Token.{is_fresh}
use signbyte_bff.Routes.Validations.{
  answer_key, force_requested, cached, served, serve_cached_answer, set_answer, store_answer,
  validate_document, signature_validation,
}
use signbyte_bff.Routes.Validations.Cached.{on_behalf-fresh}

module _ {Db Key Any : Type 0} (env : Env Db Key Any) where
  -- The call that a validation makes.
  abbrev pub asked : String → Payload → Session → Call
  asked path p sess =
      call_for env true
        (record {
          service = "signflow";
          scope = "signatures:read";
          method = "POST";
          url = Signflow.base env ++ path;
          content = json_content p;
          content_type = "application/json";
        })
        (record { sub = sess.subject; token = sess.access_token })

  not_served :
      (answers : Option (AnswerCache Db)) (key : String) (s : St Db)
      → cached env answers true key s ≡ (value none, s)
  unfolding cached ret
  not_served none key s = refl
  not_served (some c) key s = refl

  serve-forced :
      (req : Request) (key : String) (s : St Db)
      → force_requested req ≡ true
      → serve_cached_answer env req key s ≡ (value tt, s)
  unfolding serve_cached_answer served ◌>>=◌ ret
  serve-forced req key s f = simp (f, not_served env.answers key s) refl

  set_answer-trace :
      (answers : Option (AnswerCache Db)) (key : String) (b : Option String) (s : St Db)
      → (set_answer env answers key b s).1.trace ≡ s.trace
  unfolding set_answer ◌>>=◌ sample on_store ret
  set_answer-trace none key b s = refl
  set_answer-trace (some c) key none s = refl
  set_answer-trace (some c) key (some b) s = refl

  -- What a validation does with the answer.
  abbrev finish : String → Result Validation → M Db (Unit {0})
  finish key answer = or_relay answer >>= λ out.
      store_answer env key out >> reply (json 200 (validation_answer out))

  follow-trace :
      (v : Validation) (o : Res (Unit {0}) × St Db)
      → (follow (λ u. reply {A = Unit {0}} (json 200 (validation_answer v))) o).1.trace ≡ o.1.trace
  unfolding reply
  follow-trace v (value u, s) = refl
  follow-trace v (replied r, s) = refl
  follow-trace v (panicked, s) = refl

  finish-trace :
      (key : String) (answer : Result Validation) (s : St Db)
      → (finish key answer s).1.trace ≡ s.trace
  unfolding or_relay store_answer ◌>>=◌ ret reply
  finish-trace key (err e) s = refl
  finish-trace key (ok v) s =
      follow-trace v (set_answer env env.answers key (env.marshal_validation v) s)
      ∙ set_answer-trace env.answers key (env.marshal_validation v) s

  module _ (req : Request) (sid : String) (sess : Session) (s : St Db)
      (configured : env.has_signflow ≡ true) (fresh : is_fresh (env.now s.step) sess ≡ true)
      (token : (sess.access_token == "") ≡ false) (force : force_requested req ≡ true) where
    abbrev given : String → Payload → Result Response
    given path p = env.serve (suc s.step) (asked path p sess)

    abbrev after : String → Payload → Result Validation × St Db
    after path p = (
      decoded "signflow" env.wire.validation zero_validation (given path p),
      record s {
        step = suc (suc (suc s.step));
        trace = called (asked path p sess) (given path p) ∷ s.trace;
      },
    )

    asked_document :
        env.marshals (document_payload (req.param "id")) ≡ true
        → Signflow.validate_document env
            (record { sub = sess.subject; token = sess.access_token })
            (req.param "id")
            (record s { step = suc s.step })
          ≡ (
            value (after "/api/v1/document-validations" (document_payload (req.param "id"))).0,
            (after "/api/v1/document-validations" (document_payload (req.param "id"))).1,
          )
    unfolding Signflow.validate_document with_json do_json_slow do_on_behalf request_on_behalf ◌>>=◌
        sample emit ret
    asked_document m = simp (m, token) refl

    -- A forced validation of a document calls the signing service once, for the user and the document, and
    -- has no other effect: where that is configured, the token is good and the payload can be encoded.
    pub validate_document-forced :
        env.marshals (document_payload (req.param "id")) ≡ true
        → (a : Result Response) × ((validate_document env req sid sess s).1.trace
            ≡ called
                (asked "/api/v1/document-validations" (document_payload (req.param "id")) sess)
                a
              ∷ s.trace)
    unfolding validate_document ready ret ◌>>=◌
    validate_document-forced m =
        let path : String = "/api/v1/document-validations" in
        let p : Payload = document_payload (req.param "id") in
        let key : String = answer_key sess.subject "doc" (req.param "id") in
        (
          given path p,
          simp
              (
                configured,
                on_behalf-fresh env sid sess s fresh,
                serve-forced req key (record s { step = suc s.step }) force,
                asked_document m,
              )
              (finish-trace key (after path p).0 (after path p).1),
        )

    asked_signature :
        env.marshals (signature_payload (req.param "sigId")) ≡ true
        → Signflow.validate env
            (record { sub = sess.subject; token = sess.access_token })
            (req.param "sigId")
            (record s { step = suc s.step })
          ≡ (
            value (after "/api/v1/validations" (signature_payload (req.param "sigId"))).0,
            (after "/api/v1/validations" (signature_payload (req.param "sigId"))).1,
          )
    unfolding Signflow.validate with_json do_json_slow do_on_behalf request_on_behalf ◌>>=◌ sample
        emit ret
    asked_signature m = simp (m, token) refl

    -- A forced validation of a signature calls the signing service once, for the user and the signature, and
    -- has no other effect: where that is configured, the token is good and the payload can be encoded.
    pub signature_validation-forced :
        env.marshals (signature_payload (req.param "sigId")) ≡ true
        → (a : Result Response) × ((signature_validation env req sid sess s).1.trace
            ≡ called (asked "/api/v1/validations" (signature_payload (req.param "sigId")) sess) a
              ∷ s.trace)
    unfolding signature_validation ready ret ◌>>=◌
    signature_validation-forced m =
        let path : String = "/api/v1/validations" in
        let p : Payload = signature_payload (req.param "sigId") in
        let key : String = answer_key sess.subject "sig" (req.param "sigId") in
        (
          given path p,
          simp
              (
                configured,
                on_behalf-fresh env sid sess s fresh,
                serve-forced req key (record s { step = suc s.step }) force,
                asked_signature m,
              )
              (finish-trace key (after path p).0 (after path p).1),
        )
