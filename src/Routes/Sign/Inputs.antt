-- ===== src/Routes/Sign/Inputs.antt =====
-- routes/envelope.go, routes/signing.go and config.go: what a signing is begun with.
use Prim.Native.String.{◌++◌}
use signbyte_bff.Base.{String, Bool, ◌||◌, ◌==◌, List, [], ◌∷◌, Option, none, some, if◌then◌else◌}
use signbyte_bff.Session.{Capabilities, Seal}
use signbyte_bff.Server.{Env}
use signbyte_bff.Clients.Types.{BeginInput}
use signbyte_bff.Clients.Calls.{trim_right_slash}

-- routes/request/envelope.go
pub record SignSlot : Type 0 where
  pub document_id : String
  pub flow : String
  pub sig_format : String
  pub signing_certificate : String
  pub auth_certificate : String
  pub seal_id : String

unfoldable pub in_browser_flow : String → Bool
in_browser_flow flow = flow == "webEid" || flow == "legacyEid"

abbrev pub flow_eseal : String
flow_eseal = "eparakstsMobileEseal"

-- The signing identity and its certificate.
abbrev pub Chosen : Type 0
Chosen = String × String

-- the loop that looks for the picked seal
unfoldable pub picked : String → List Seal → Chosen → Chosen
picked seal_id [] chosen = chosen
picked seal_id (s ∷ seals) chosen =
    if s.id == seal_id then (s.id, s.certificate) else picked seal_id seals chosen

-- a session with exactly one seal needs no pick
unfoldable pub only_seal : String → List Seal → Chosen
only_seal seal_id [] = ("", "")
only_seal seal_id (s ∷ []) = if seal_id == "" then (s.id, s.certificate) else ("", "")
only_seal seal_id (s ∷ t ∷ seals) = ("", "")

-- `signIdentityID` and `signingCert` of a flow that leaves the page
unfoldable pub redirect_identity : SignSlot → Capabilities → Chosen
redirect_identity req caps =
    if req.flow == flow_eseal
    then picked req.seal_id caps.seals (only_seal req.seal_id caps.seals)
    else (caps.sign_identity_id, caps.signing_certificate)

unfoldable pub sign_identity : SignSlot → Option Capabilities → Chosen
sign_identity req none = ("", "")
sign_identity req (some caps) =
    if in_browser_flow req.flow then ("", "") else redirect_identity req caps

-- `authCert`, as both places that fill it leave it
unfoldable pub auth_certificate : SignSlot → Option Capabilities → String
auth_certificate req none = req.auth_certificate
auth_certificate req (some caps) =
    if req.auth_certificate == "" then caps.auth_certificate else req.auth_certificate

module _ {Db Key Any : Type 0} (env : Env Db Key Any) where
  -- the origin of an address that names a scheme and a host
  unfoldable pub origin_of : Option (String × String) → String
  origin_of none = ""
  origin_of (some (scheme, host)) =
      if scheme == "" || host == "" then "" else scheme ++ "://" ++ host

  unfoldable pub signing_return_origin : String
  signing_return_origin =
      let origin : String = env.trim_space env.config.signing_return_base_url in
      trim_right_slash
        (if origin == "" then origin_of (env.url_parse env.config.post_login_url) else origin)

  unfoldable pub signing_slot_return_urls : String → String → String × String
  signing_slot_return_urls envelope_id slot_id =
      let base : String =
        signing_return_origin
        ++ "/envelopes/"
        ++ env.path_escape envelope_id
        ++ "/slots/"
        ++ env.path_escape slot_id
        ++ "/sign?job={jobId}" in
      if signing_return_origin == "" then ("", "") else (base, base ++ "&error=1")

  unfoldable pub return_urls : String → String → SignSlot → String × String
  return_urls id slot req =
      if in_browser_flow req.flow then ("", "") else signing_slot_return_urls id slot

  unfoldable pub begin_input : String → String → SignSlot → Option Capabilities → BeginInput
  begin_input id slot req caps =
      let chosen : Chosen = sign_identity req caps in
      record {
        envelope_id = id;
        slot_id = slot;
        flow = req.flow;
        sig_format = req.sig_format;
        document_id = req.document_id;
        signing_certificate = if chosen.1 == "" then req.signing_certificate else chosen.1;
        auth_certificate = auth_certificate req caps;
        sign_identity_id = chosen.0;
        seal_id = req.seal_id;
        post_auth_redirect = (return_urls id slot req).0;
        auth_error_redirect = (return_urls id slot req).1;
      }
