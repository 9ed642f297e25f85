-- ===== src/Routes/Sign/Eligible.antt =====
-- No signing is begun before the envelope service said that the slot may sign.
use Prim.Native.String.{◌++◌}
use signbyte_bff.Base.{
  String, Bool, true, false, ◌==◌, List, [], Option, ◌≡◌, ◌≢◌, refl, sym, arith, eq_iff, In, inl,
  inr, Bool-cases,
}
use mathlib.Core.Path.{subst}
use signbyte_bff.Errors.{Result, ok, err, Error}
use signbyte_bff.Session.{Session}
use signbyte_bff.Server.{Env, Request, Effect, Call, Response, OnBehalf, called}
use signbyte_bff.Server.Monad.{Reply, St, ret, reply, ◌>>=◌, emit, sample}
use signbyte_bff.Clients.Calls.{decoded, do_json, do_on_behalf, request_on_behalf}
use signbyte_bff.Clients.Envelope.{slot_eligible, set_slot_job}
use signbyte_bff.Clients.Envelope as Envelope
use signbyte_bff.Clients.Signflow.{begin_signing}
use signbyte_bff.Clients.Types.{BeginInput}
use signbyte_bff.Routes.Relay.{or_relay, require}
use signbyte_bff.Routes.Sign.{sign_envelope_slot}
use signbyte_bff.Routes.Sign.Inputs.{SignSlot}
use signbyte_bff.Routes.Sign.Triple.{
  EndsWith-same, Triple, Triple-bind, Stays, Stays-bind, Stays-reply, Stays-decoded_body,
  Stays-require, Stays-ready, Stays-or_relay,
}
use signbyte_bff.Routes.Sign.Begun.{
  Begins, on_behalf-Keeps, set_slot_job-Keeps, begin_signing-Keeps,
}

module _ {Db Key Any : Type 0} (env : Env Db Key Any) (id slot : String) where
  -- Among the effects is a call that asked whether the slot may sign, and was answered that it may.
  abbrev pub SaidEligible : List Effect → Type 0
  SaidEligible trace =
      (c : Call) × (r : Result Response) × In (called c r) trace
      × (c.url
          ≡ Envelope.base env ++ "/api/v1/envelopes/" ++ id ++ "/slots/" ++ slot ++ "/eligible")
      × (decoded "envelope" env.wire.eligible false r ≡ ok true)

  -- Each call that begins a signing comes after such an answer.
  abbrev pub Asked : Call → List Effect → Type 0
  Asked c earlier = SaidEligible earlier

  abbrev pub BeginsEligible : List Effect → Type 0
  BeginsEligible = Begins Asked

  scopes_differ : ◌≢◌ {A = String} "envelopes:read" "signatures:create"
  scopes_differ = ground (arith, eq_iff "envelopes:read" "signatures:create")

  no_answer :
      (service : String) (decode : String → Option Bool) (x : Error)
      → decoded service decode false (err x) ≡ ok true
      → ⊥
  unfolding decoded
  no_answer service decode x e = cc

  -- The answer, with what it says of the trace.
  abbrev Knows : Result Bool → List Effect → Type 0
  Knows r trace = BeginsEligible trace × (r ≡ ok true → SaidEligible trace)

  slot_eligible-Knows :
      (obo : OnBehalf) → Triple BeginsEligible Knows BeginsEligible (slot_eligible env obo id slot)
  unfolding slot_eligible do_json do_on_behalf request_on_behalf ◌>>=◌ sample emit ret
  slot_eligible-Knows obo = record {
    at = λ s p. elim (Bool-cases (obo.token == "")) [
      | inl k ↦ rw k (p, λ e. absurd (no_answer _ _ _ e))
      | inr k ↦ rw k ((λ e. absurd (scopes_differ e), p), λ e. (_, _, inl refl, refl, e))
    ];
  }

  begin_signing-Said :
      (obo : OnBehalf) (input : BeginInput)
      → Triple
          (λ trace. BeginsEligible trace × SaidEligible trace)
          (λ r. BeginsEligible)
          BeginsEligible
          (begin_signing env obo input)
  begin_signing-Said obo input = record {
    at = λ s p. (begin_signing-Keeps env Asked obo input).at s (p.0, λ c e. p.1);
  }

  -- What is known of the slot once the answer is at hand, and once it is that the slot may sign.
  abbrev May : Bool → List Effect → Type 0
  May b trace = BeginsEligible trace × (b ≡ true → SaidEligible trace)

  abbrev Ready : List Effect → Type 0
  Ready trace = BeginsEligible trace × SaidEligible trace

  or_relay-May : (r : Result Bool) → Triple (Knows r) May BeginsEligible (or_relay {Db = Db} r)
  unfolding or_relay ret reply
  or_relay-May (ok b) = record { at = λ s k. (k.0, λ e. k.1 (λ i. ok (e i))) }
  or_relay-May (err x) = record { at = λ s k. k.0 }

  require-Ready :
      (b : Bool) (r : Reply) → Triple (May b) (λ u. Ready) BeginsEligible (require {Db = Db} b r)
  unfolding require ret reply
  require-Ready true r = record { at = λ s k. (k.0, k.1 refl) }
  require-Ready false r = record { at = λ s k. k.0 }

module _ {Db Key Any : Type 0} (env : Env Db Key Any) (request : Request) (sid : String)
    (sess : Session) where
  sign_envelope_slot-Keeps :
      (body : Result SignSlot)
      → Stays
          (BeginsEligible env (request.param "id") (request.param "slot"))
          (sign_envelope_slot env request body sid sess)
  unfolding sign_envelope_slot
  sign_envelope_slot-Keeps body =
      let id : String = request.param "id" in
      let slot : String = request.param "slot" in
      Stays-bind _ _ (Stays-ready _ _) λ u. Stays-bind _ _ (Stays-ready _ _) λ v.
        Stays-bind _ _ (on_behalf-Keeps env (Asked env id slot) sid sess) λ who.
          Stays-bind _ _ (Stays-decoded_body body) λ req. Stays-bind _ _ (Stays-require _ _) λ w.
            Triple-bind _ _ (slot_eligible-Knows env id slot who.obo) λ answer.
              Triple-bind _ _ (or_relay-May env id slot answer) λ eligible.
                Triple-bind _ _ (require-Ready env id slot eligible _) λ x.
                  Triple-bind _ _ (begin_signing-Said env id slot who.obo _) λ started.
                    Stays-bind _ _ (Stays-or_relay started) λ job.
                      Stays-bind _ _
                        (set_slot_job-Keeps env (Asked env id slot) who.obo id slot job.job_id)
                        λ recorded. Stays-reply _

  -- A request to sign a slot, from an empty trace, begins a signing only after the envelope service was
  -- asked in this request whether the slot may sign and answered that it may.
  pub sign_envelope_slot-BeginsEligible :
      (body : Result SignSlot) (s : St Db)
      → s.trace ≡ []
      → BeginsEligible env
          (request.param "id")
          (request.param "slot")
          (sign_envelope_slot env request body sid sess s).1.trace
  sign_envelope_slot-BeginsEligible body s e =
      EndsWith-same _ (sign_envelope_slot env request body sid sess s) (
        (sign_envelope_slot-Keeps body).at s
          (subst (BeginsEligible env (request.param "id") (request.param "slot")) (sym e) tt))
