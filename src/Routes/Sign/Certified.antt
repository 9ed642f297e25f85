-- ===== src/Routes/Sign/Certified.antt =====
-- What `signEnvelopeSlot` begins a signing with.
use signbyte_bff.Base.{
  String, true, List, [], Option, none, some, ◌≡◌, ◌≢◌, refl, sym, arith, eq_iff,
}
use mathlib.Core.Path.{subst}
use signbyte_bff.Errors.{Result, ok}
use signbyte_bff.Session.{Session, Capabilities}
use signbyte_bff.Server.{Env, Request, Effect, Call, OnBehalf, json_content, begin_payload}
use signbyte_bff.Server.Monad.{St}
use signbyte_bff.Clients.Envelope.{slot_eligible}
use signbyte_bff.Clients.Signflow.{begin_signing}
use signbyte_bff.Clients.Types.{BeginInput}
use signbyte_bff.Routes.Sign.{has_certificates, sign_envelope_slot}
use signbyte_bff.Routes.Sign.Inputs.{
  SignSlot, in_browser_flow, sign_identity, auth_certificate, return_urls, begin_input,
}
use signbyte_bff.Routes.Sign.Triple.{
  Triple-bind, Triple-given, EndsWith-same, Stays, Stays-bind, Stays-reply, Stays-require,
  Stays-ready, Stays-or_relay,
}
use signbyte_bff.Routes.Sign.Begun.{
  Begins, begin_signing-Keeps, on_behalf-Keeps, set_slot_job-Keeps, do_json-Keeps,
  decoded_body-Keeps, require-Keeps,
}

-- The signing is of this slot and of what the request asks; in the browser it has both certificates, the
-- signing one as the request has it, and no identity of the sign-in and no return address.
pub record IsFor (id slot : String) (req : SignSlot) (input : BeginInput) : Type 0 where
  pub envelope : input.envelope_id ≡ id
  pub of_slot : input.slot_id ≡ slot
  pub document : input.document_id ≡ req.document_id
  pub flow : input.flow ≡ req.flow
  pub in_browser :
      in_browser_flow req.flow ≡ true
      → (input.signing_certificate ≡ req.signing_certificate)
        × (req.signing_certificate ≢ "")
        × (input.auth_certificate ≢ "")
        × (input.sign_identity_id ≡ "")
        × (input.post_auth_redirect ≡ "")
        × (input.auth_error_redirect ≡ "")

-- The call carries such a signing, for the request that was decoded.
abbrev pub IsCertified : String → String → Result SignSlot → Call → Type 0
IsCertified id slot body c =
    (req : SignSlot) × (input : BeginInput) × (body ≡ ok req)
    × (c.content ≡ json_content (begin_payload input))
    × IsFor id slot req input

no_identity :
    (req : SignSlot) (caps : Option Capabilities)
    → in_browser_flow req.flow ≡ true
    → sign_identity req caps ≡ ("", "")
unfolding sign_identity
no_identity req none b = refl
no_identity req (some caps) b = rw b refl

module _ {Db Key Any : Type 0} (env : Env Db Key Any) (id slot : String) where
  begin_input-IsFor :
      (req : SignSlot) (caps : Option Capabilities)
      → has_certificates env req caps ≡ true
      → IsFor id slot req (begin_input env id slot req caps)
  unfolding begin_input has_certificates return_urls
  begin_input-IsFor req caps h = record {
    envelope = refl;
    of_slot = refl;
    document = refl;
    flow = refl;
    in_browser = λ b. (
      rw (no_identity req caps b) refl,
      ground (arith, eq_iff req.signing_certificate ""),
      ground (arith, eq_iff (auth_certificate req caps) ""),
      rw (no_identity req caps b) refl,
      rw b refl,
      rw b refl,
    );
  }

  slot_eligible-Keeps :
      (B : Call → List Effect → Type 0) (obo : OnBehalf)
      → Stays (Begins B) (slot_eligible env obo id slot)
  unfolding slot_eligible
  slot_eligible-Keeps B obo =
      do_json-Keeps env B _ obo _ _ λ k. ground (arith, eq_iff "envelopes:read" "signatures:create")

module _ {Db Key Any : Type 0} (env : Env Db Key Any) (request : Request) (sid : String)
    (sess : Session) (body : Result SignSlot) where
  abbrev pub Certified : Call → List Effect → Type 0
  Certified c earlier = IsCertified (request.param "id") (request.param "slot") body c

  begins :
      (obo : OnBehalf) (req : SignSlot) (caps : Option Capabilities)
      → (body ≡ ok req) × (has_certificates env req caps ≡ true)
      → Stays (Begins Certified) (
          begin_signing env obo
            (begin_input env (request.param "id") (request.param "slot") req caps))
  begins obo req caps (decoded_so, met) = record {
    at = λ s p. (begin_signing-Keeps env Certified obo _).at s (
      p,
      λ c same. (
        req,
        _,
        decoded_so,
        same,
        begin_input-IsFor env (request.param "id") (request.param "slot") req caps met,
      ),
    );
  }

  sign_envelope_slot-Keeps : Stays (Begins Certified) (sign_envelope_slot env request body sid sess)
  unfolding sign_envelope_slot
  sign_envelope_slot-Keeps =
      let id : String = request.param "id" in
      let slot : String = request.param "slot" in
      Stays-bind _ _ (Stays-ready _ _) λ u. Stays-bind _ _ (Stays-ready _ _) λ v.
        Stays-bind _ _ (on_behalf-Keeps env Certified sid sess) λ who.
          Triple-bind _ _ (decoded_body-Keeps env Certified body) λ req.
            Triple-bind _ _ (require-Keeps env Certified (body ≡ ok req) _ _) λ w.
              Triple-given _ λ known.
                Stays-bind _ _ (slot_eligible-Keeps env id slot Certified who.obo) λ answer.
                  Stays-bind _ _ (Stays-or_relay answer) λ eligible.
                    Stays-bind _ _ (Stays-require _ _) λ x.
                      Stays-bind _ _ (begins who.obo req who.session.capabilities known) λ started.
                        Stays-bind _ _ (Stays-or_relay started) λ job.
                          Stays-bind _ _
                            (set_slot_job-Keeps env Certified who.obo id slot job.job_id)
                            λ recorded. Stays-reply _

  -- Each signing that a request begins, from an empty trace, is of the slot in its path and of the document
  -- and the flow in its body. One in the browser has both certificates, the signing one as the body has it,
  -- and no identity of the sign-in and no return address.
  pub sign_envelope_slot-Begins :
      (s : St Db)
      → s.trace ≡ []
      → Begins Certified (sign_envelope_slot env request body sid sess s).1.trace
  sign_envelope_slot-Begins s e =
      EndsWith-same _ (sign_envelope_slot env request body sid sess s)
        (sign_envelope_slot-Keeps.at s (subst (Begins Certified) (sym e) tt))
