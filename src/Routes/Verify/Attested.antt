-- ===== src/Routes/Verify/Attested.antt =====
-- The verdict that an anonymous verification answers, against the evidence of it.
use signbyte_bff.Base.{
  ℕ, String, true, false, not, ◌&&◌, ◌||◌, ◌==◌, List, [], ◌∷◌, Option, none, some, leb, ltb, ◌≡◌,
  refl, arith, Bool-cases, inl, inr,
}
use signbyte_bff.Errors.{Result, ok, err}
use signbyte_bff.Server.{Effect, evidence_posted, VerifyEvent, Validation}
use signbyte_bff.Server.Monad.{
  M, Reply, json, validation_answer, St, ret, reply, ◌>>=◌, emit, sample,
}
use signbyte_bff.Server.Safe.{Any as Whatever}
use signbyte_bff.Routes.Closes.{
  EndsIn, Closes, Closes-bind, Closes-ret, Closes-reply, Closes-if, Closes-deferred,
  Closes-on_store, Closes-some_or, Closes-require,
}
use signbyte_bff.Server.Public.{
  GateError, too_large, no_signature, unsupported_type, other_gate_error, PublicRequest, PublicEnv,
}
use signbyte_bff.Server.Files.{Upload, FileHeader}
use signbyte_bff.Clients.Verify.{VerifyResult, do_service, validate}
use signbyte_bff.Clients.Calls.{is_success}
use signbyte_bff.Audit.{record_event}
use signbyte_bff.Routes.Verify.{InflightGate}
use signbyte_bff.Routes.Verify.Handler.{
  verify_client_ip, record_verify, verdict_of, answered, admitted, verify_upload, verify_document,
  upstream_problem, gate_problem,
}
use signbyte_bff.Routes.Verify.Evidence.{records}
use signbyte_bff.Routes.Verify.Forwarded.{only_one-some, read-within}

-- The newest effect is the event of this verdict, for the requester's address and the form's one file.
pub record IsAttested (env : PublicEnv) (req : PublicRequest) (v : Validation) (trace : List Effect)
    : Type 0 where
  pub fh : FileHeader
  pub f : Upload
  pub ev : VerifyEvent
  pub earlier : List Effect
  pub only : req.files "file" ≡ fh ∷ []
  pub opened : fh.opened ≡ some f
  pub newest : trace ≡ evidence_posted ev ∷ earlier
  pub verdict : ev.verdict ≡ v.verdict
  pub address : ev.ip ≡ verify_client_ip env req
  pub hash : ev.sha256 ≡ env.sha256_hex f.bytes

-- A verdict is attested; any other reply says nothing.
abbrev pub Attests : PublicEnv → PublicRequest → Reply → List Effect → Type 0
Attests env req (json status (validation_answer v)) trace = IsAttested env req v trace
Attests env req r trace = Unit

module _ (env : PublicEnv) (req : PublicRequest) where
  abbrev Tells : {A : Type 0} → M InflightGate A → Type 0
  Tells m = Closes (Attests env req) Whatever m

  post-Tells : (ev : VerifyEvent) → Tells (emit (evidence_posted ev))
  unfolding emit
  post-Tells ev = record { at = λ s. tt }

  record_event-Tells : (ev : VerifyEvent) → Tells (record_event env ev)
  unfolding record_event
  record_event-Tells ev =
      Closes-if (not env.has_doer || env.evidence_url == "") (ret tt) (emit (evidence_posted ev))
        (λ k. Closes-ret _ tt) (λ k. post-Tells ev)

  record_event-on :
      records env ≡ true
      → (ev : VerifyEvent) → record_event {Db = InflightGate} env ev ≡ emit (evidence_posted ev)
  unfolding record_event
  record_event-on on ev = rw (off) refl
    where
      off : (not env.has_doer || env.evidence_url == "") ≡ false
      off = ground (arith, on)

  sample-Tells : {A : Type 0} (f : ℕ → A) → Tells (sample f)
  unfolding sample
  sample-Tells f = record { at = λ s. tt }

  record_verify-Tells :
      (ip : String) (size : ℕ) (sha verdict session_id : String)
      → Tells (record_verify env req ip size sha verdict session_id)
  unfolding record_verify
  record_verify-Tells ip size sha verdict session_id =
      Closes-bind _ _ (sample-Tells _) λ ts q. record_event-Tells _

  gate_problem-Attests :
      (e : GateError) (trace : List Effect) → Attests env req (gate_problem e) trace
  unfolding gate_problem
  gate_problem-Attests too_large trace = tt
  gate_problem-Attests no_signature trace = tt
  gate_problem-Attests unsupported_type trace = tt
  gate_problem-Attests other_gate_error trace = tt

  upstream_problem-Attests :
      (res : VerifyResult) (trace : List Effect) → Attests env req (upstream_problem env res) trace
  unfolding upstream_problem
  upstream_problem-Attests res trace = elim (Bool-cases (env.is_problem res.report)) [
    | inl p ↦ rw p tt
    | inr p ↦ elim (Bool-cases (leb 400 res.status_code && ltb res.status_code 500)) [
      | inl q ↦ rw p (rw q tt)
      | inr q ↦ rw p (rw q tt)
    ]
  ]

  module _ (on : records env ≡ true) (fh : FileHeader) (f : Upload)
      (only : req.files "file" ≡ fh ∷ []) (opened : fh.opened ≡ some f) where
    abbrev ip : String
    ip = verify_client_ip env req

    abbrev sha : String
    sha = env.sha256_hex f.bytes

    attested-Tells :
        (size : ℕ) (session_id : String) (v : Validation)
        → Tells (verdict_of env req ip size sha session_id (some v))
    unfolding verdict_of record_verify ◌>>=◌ sample emit ret reply
    attested-Tells size session_id v = record {
      at = λ s. rw (record_event-on on _) (record {
        fh = fh;
        f = f;
        ev = _;
        earlier = s.trace;
        only = only;
        opened = opened;
        newest = refl;
        verdict = refl;
        address = refl;
        hash = refl;
      });
    }

    verdict_of-Tells :
        (size : ℕ) (session_id : String) (v : Option Validation)
        → Tells (verdict_of env req ip size sha session_id v)
    unfolding verdict_of
    verdict_of-Tells size session_id none =
        Closes-bind _ _ (record_verify-Tells _ _ _ _ _) λ u q. Closes-reply _ λ trace. tt
    verdict_of-Tells size session_id (some v) = attested-Tells size session_id v

    answered-Tells : (size : ℕ) (r : Result VerifyResult) → Tells (answered env req ip size sha r)
    unfolding answered
    answered-Tells size (err e) =
        Closes-bind _ _ (record_verify-Tells _ _ _ _ _) λ u q. Closes-reply _ λ trace. tt
    answered-Tells size (ok res) =
        Closes-if (not (is_success res.status_code))
          (record_verify env req ip size sha "upstream-rejected" res.session_id >>= λ u.
            reply (upstream_problem env res))
          (verdict_of env req ip size sha res.session_id (env.normalize_report res.report))
          (λ k.
            Closes-bind _ _ (record_verify-Tells _ _ _ _ _)
              λ u q. Closes-reply _ (upstream_problem-Attests res))
          (λ k. verdict_of-Tells size _ _)

    validate-Tells : (filename : String) (bytes : List ℕ) → Tells (validate env filename bytes)
    unfolding validate do_service ◌>>=◌ sample emit ret
    validate-Tells filename bytes = record { at = λ s. tt }

    admitted-Tells :
        (size : ℕ) (filename : String) (bytes : List ℕ) (g : Option GateError)
        → Tells (admitted env req ip size sha filename bytes g)
    unfolding admitted
    admitted-Tells size filename bytes (some e) =
        Closes-bind _ _ (record_verify-Tells _ _ _ _ _)
          λ u q. Closes-reply _ (gate_problem-Attests e)
    admitted-Tells size filename bytes none =
        Closes-bind _ _ (validate-Tells filename bytes) λ r q. answered-Tells size r

  module _ (on : records env ≡ true) where
    verify_upload-Tells : Tells (verify_upload env req (verify_client_ip env req))
    unfolding verify_upload
    verify_upload-Tells = Closes-bind _ _ (Closes-some_or _ _ λ trace. tt) λ fh one.
        Closes-bind _ _ (Closes-require _ _ λ trace. tt) λ u small.
          Closes-bind _ _ (Closes-some_or _ _ λ trace. tt) λ f op.
            Closes-bind _ _ (Closes-some_or _ _ λ trace. tt) λ bytes rd.
              Closes-bind _ _ (Closes-require _ _ λ trace. tt) λ v le.
                rw ((read-within env.verify_max_bytes f bytes rd le).0)
                  (admitted-Tells on fh f (only_one-some _ fh one) op _ _ _ _)

    verify_document-Tells : Tells (verify_document env req)
    unfolding verify_document
    verify_document-Tells = Closes-bind _ _ (Closes-require _ _ λ trace. tt) λ u has.
        Closes-bind _ _ (Closes-on_store _) λ acquired q.
          Closes-bind _ _ (Closes-require _ _ λ trace. tt)
            λ v free. Closes-deferred _ _ verify_upload-Tells

    -- Where the recorder is configured, a verdict is only answered with its evidence: the newest effect
    -- is the event with this verdict, the requester's address and the hash of the form's one file.
    pub verify_document-attested :
        (s : St InflightGate) → EndsIn (Attests env req) Whatever (verify_document env req s)
    verify_document-attested s = verify_document-Tells.at s
