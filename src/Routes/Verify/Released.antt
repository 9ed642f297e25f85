-- ===== src/Routes/Verify/Released.antt =====
-- What an anonymous verification leaves of the gate.
use signbyte_bff.Base.{
  ℕ, suc, String, Bool, true, false, not, ◌||◌, ◌==◌, List, Option, none, some, if◌then◌else◌, ◌≡◌,
  refl, ap, ◌∙◌, arith, eq_iff, lookup, lookup-insert, lookup-remove, inl, inr,
}
use signbyte_bff.Errors.{Result, ok, err}
use signbyte_bff.Server.{evidence_posted, Validation, VerifyEvent}
use signbyte_bff.Server.Monad.{
  M, Reply, Res, value, replied, panicked, St, follow, ret, reply, ◌>>=◌, emit, sample, on_store,
  deferred,
}
use signbyte_bff.Server.Public.{GateError, PublicRequest, PublicEnv}
use signbyte_bff.Clients.Verify.{VerifyResult, do_service, validate}
use signbyte_bff.Clients.Calls.{is_success}
use signbyte_bff.Audit.{record_event}
use signbyte_bff.Routes.Relay.{some_or, require}
use signbyte_bff.Routes.Verify.{InflightGate, number, release}
use signbyte_bff.Routes.Verify.Inflight.{taken, acquire_cases}
use signbyte_bff.Routes.Verify.Handler.{
  verify_client_ip, record_verify, verdict_of, answered, admitted, verify_upload, verify_document,
  upstream_problem,
}

-- The action leaves the store as it was.
record Keeps {Db A : Type 0} (m : M Db A) : Type 0 where
  at : (s : St Db) → (m s).1.db ≡ s.db

module _ {Db A B : Type 0} where
  Keeps-follow :
      (f : A → M Db B) (h : (a : A) → Keeps (f a)) (o : Res A × St Db) → (follow f o).1.db ≡ o.1.db
  Keeps-follow f h (value a, s) = (h a).at s
  Keeps-follow f h (replied r, s) = refl
  Keeps-follow f h (panicked, s) = refl

  Keeps-bind : (m : M Db A) (f : A → M Db B) → Keeps m → ((a : A) → Keeps (f a)) → Keeps (m >>= f)
  unfolding ◌>>=◌
  Keeps-bind m f h k = record { at = λ s. Keeps-follow f k (m s) ∙ h.at s }

module _ {Db A : Type 0} where
  Keeps-ret : (a : A) → Keeps (ret {Db = Db} a)
  unfolding ret
  Keeps-ret a = record { at = λ s. refl }

  Keeps-reply : (r : Reply) → Keeps (reply {Db = Db} {A = A} r)
  unfolding reply
  Keeps-reply r = record { at = λ s. refl }

  Keeps-sample : (f : ℕ → A) → Keeps (sample {Db = Db} f)
  unfolding sample
  Keeps-sample f = record { at = λ s. refl }

  Keeps-some_or : (r : Reply) (o : Option A) → Keeps (some_or {Db = Db} r o)
  unfolding some_or
  Keeps-some_or r none = Keeps-reply r
  Keeps-some_or r (some a) = Keeps-ret a

  Keeps-if : (b : Bool) (m n : M Db A) → Keeps m → Keeps n → Keeps (if b then m else n)
  Keeps-if true m n h k = h
  Keeps-if false m n h k = k

module _ {Db : Type 0} (env : PublicEnv) where
  Keeps-require : (b : Bool) (r : Reply) → Keeps (require {Db = Db} b r)
  unfolding require
  Keeps-require true r = Keeps-ret tt
  Keeps-require false r = Keeps-reply r

  Keeps-record_event : (ev : VerifyEvent) → Keeps (record_event {Db = Db} env ev)
  unfolding record_event emit
  Keeps-record_event ev =
      Keeps-if (not env.has_doer || env.evidence_url == "") (ret tt) (emit (evidence_posted ev))
        (Keeps-ret tt) (record { at = λ s. refl })

  Keeps-validate :
      (filename : String) (bytes : List ℕ) → Keeps (validate {Db = Db} env filename bytes)
  unfolding validate do_service ◌>>=◌ sample emit ret
  Keeps-validate filename bytes = record { at = λ s. refl }

ruleset keeping = (
  Keeps-bind, Keeps-ret, Keeps-reply, Keeps-sample, Keeps-some_or, Keeps-require,
  Keeps-record_event, Keeps-validate,
)

module _ (env : PublicEnv) (req : PublicRequest) (ip : String) where
  Keeps-record_verify :
      (size : ℕ) (sha verdict session_id : String)
      → Keeps (record_verify env req ip size sha verdict session_id)
  unfolding record_verify
  Keeps-record_verify size sha verdict session_id = search keeping

  module _ (size : ℕ) (sha : String) where
    Keeps-verdict_of :
        (session_id : String) (v : Option Validation)
        → Keeps (verdict_of env req ip size sha session_id v)
    unfolding verdict_of
    Keeps-verdict_of session_id none = search (keeping, Keeps-record_verify)
    Keeps-verdict_of session_id (some v) = search (keeping, Keeps-record_verify)

    Keeps-answered : (r : Result VerifyResult) → Keeps (answered env req ip size sha r)
    unfolding answered
    Keeps-answered (err e) = search (keeping, Keeps-record_verify)
    Keeps-answered (ok res) =
        Keeps-if (not (is_success res.status_code))
          (record_verify env req ip size sha "upstream-rejected" res.session_id >>= λ u.
            reply (upstream_problem env res))
          (verdict_of env req ip size sha res.session_id (env.normalize_report res.report))
          (search (keeping, Keeps-record_verify)) (Keeps-verdict_of _ _)

    Keeps-admitted :
        (filename : String) (bytes : List ℕ) (g : Option GateError)
        → Keeps (admitted env req ip size sha filename bytes g)
    unfolding admitted
    Keeps-admitted filename bytes (some e) = search (keeping, Keeps-record_verify)
    Keeps-admitted filename bytes none = search (keeping, Keeps-answered)

  Keeps-verify_upload : Keeps (verify_upload env req ip)
  unfolding verify_upload
  Keeps-verify_upload = search (keeping, Keeps-admitted) depth 12

release-taken :
    (ip j : String) (g : InflightGate)
    → number (lookup j (release ip (taken ip g)).per_ip) ≡ number (lookup j g.per_ip)
unfolding release number
release-taken ip j g =
    let n : ℕ = number (lookup ip g.per_ip) in
    ground (
      arith,
      lookup-insert ip ip (suc n) g.per_ip,
      lookup-insert ip j (suc n) g.per_ip,
      lookup-remove ip j (taken ip g).per_ip,
      lookup-insert ip j n (taken ip g).per_ip,
      eq_iff ip j,
      eq_iff ip ip,
    )

-- However a verification ends, every address has as many running requests as before it.
pub verify_document-releases :
    (env : PublicEnv) (req : PublicRequest) (s : St InflightGate) (j : String)
    → number (lookup j (verify_document env req s).1.db.per_ip) ≡ number (lookup j s.db.per_ip)
unfolding verify_document require on_store deferred ◌>>=◌ ret reply
verify_document-releases env req s j =
    let ip : String = verify_client_ip env req in
    elim (acquire_cases ip s.db) [
      | inl (q, full) ↦ ground (arith, q)
      | inr (q, room) ↦ ground (
        arith,
        q,
        ap (λ (g : InflightGate). number (lookup j (release ip g).per_ip))
            ((Keeps-verify_upload env req ip).at (record s { db = taken ip s.db })),
        release-taken ip j s.db,
      )
    ]
