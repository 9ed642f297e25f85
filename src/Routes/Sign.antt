-- ===== src/Routes/Sign.antt =====
-- routes/envelope.go, `signEnvelopeSlot`: the start of a signing.
pub mod Inputs
pub mod Choice
pub mod Eligible
pub mod Triple
pub mod Begun
pub mod Certified
use signbyte_bff.Base.{
  ℕ, String, Bool, true, false, not, ◌&&◌, ◌||◌, ◌==◌, List, [], ◌∷◌, Option, none, some,
  if◌then◌else◌,
}
use signbyte_bff.Errors.{Result, ok, err}
use signbyte_bff.Session.{Session, Capabilities}
use signbyte_bff.Server.{Env, Request}
use signbyte_bff.Server.Monad.{
  M, Reply, problem, refused, json, job_answer, ret, reply, ◌>>=◌, ◌>>◌,
}
use signbyte_bff.Clients.Envelope.{slot_eligible, set_slot_job}
use signbyte_bff.Clients.Signflow.{begin_signing}
use signbyte_bff.Routes.Relay.{or_relay, require, ready, decoded_body}
use signbyte_bff.Routes.Token.{Acting, on_behalf}
use signbyte_bff.Routes.Sign.Inputs.{SignSlot, begin_input, in_browser_flow, auth_certificate}

module _ {Db Key Any : Type 0} (env : Env Db Key Any) where
  -- The in-browser flows need both certificates.
  unfoldable pub has_certificates : SignSlot → Option Capabilities → Bool
  has_certificates req caps =
      not (in_browser_flow req.flow)
      || not (req.signing_certificate == "" || auth_certificate req caps == "")

  unfoldable pub sign_envelope_slot : Request → Result SignSlot → String → Session → M Db (Unit {0})
  sign_envelope_slot request body sid sess = do
    ready "err:envelope:notConfigured" env.has_envelope
    ready "err:signing:notConfigured" env.has_signflow
    who ← on_behalf env sid sess
    let id : String = request.param "id"
    let slot : String = request.param "slot"
    req ← decoded_body body
    require (has_certificates req who.session.capabilities)
        (problem "err:signing:invalidRequest" (some 400))
    answer ← slot_eligible env who.obo id slot
    eligible ← or_relay answer
    require eligible (problem "err:envelope:notEligible" (some 409))
    started ← begin_signing env who.obo (begin_input env id slot req who.session.capabilities)
    job ← or_relay started
    recorded ← set_slot_job env who.obo id slot job.job_id
    reply (json 201 (job_answer job))
