-- ===== src/App/Config.antt =====
-- config.go: the settings that the wiring reads, and what it derives from them.
use Prim.Native.String.{[] as empty_text, ◌∷◌ as cons_text}
use signbyte_bff.Base.{ℕ, String, Bool, not, ◌||◌, ◌&&◌, ◌==◌, if◌then◌else◌}

-- authclient.Configuration: the settings that are changed, and the rest
pub record AuthConfiguration : Type 0 where
  pub issuer_url : String
  pub service_client_id : String
  pub service_client_secret : String
  pub rest : String

-- gdpr.Configuration; the library's defaults are not the program's
pub record GdprConfiguration : Type 0 where
  pub endpoint : String
  pub audience : String
  pub scope : String

pub record Configuration : Type 0 where
  pub auth : AuthConfiguration
  pub auth_internal_url : String
  pub auth_issuer : String
  pub auth_client_id : String
  pub auth_redirect_uri : String
  pub redis_url : String
  pub session_ttl : ℕ
  pub flow_ttl : ℕ
  pub document_base_url : String
  pub envelope_base_url : String
  pub signflow_base_url : String
  pub preview_base_url : String
  pub signer_base_url : String
  pub document_audience : String
  pub envelope_audience : String
  pub signflow_audience : String
  pub preview_audience : String
  pub signer_audience : String
  pub signer_flows_ttl : ℕ
  pub validation_cache_ttl : ℕ
  pub service_client_id : String
  pub service_client_secret : String
  pub outbound_issuer_url : String
  pub access_audit_url : String
  pub access_audit_audience : String
  pub access_audit_scope : String
  pub access_audit_outbox_dir : String

-- strings.TrimSuffix(s, "/")
unfoldable pub trim_suffix_slash : String → String
trim_suffix_slash empty_text = ""
trim_suffix_slash (cons_text c s) =
    let rest = trim_suffix_slash s in
    if s == "" && cons_text c "" == "/" then "" else cons_text c rest

-- `trim_space` is strings.TrimSpace
module _ (trim_space : String → String) (c : Configuration) where
  abbrev pub is_set : String → Bool
  is_set url = not (trim_space url == "")

  unfoldable pub sign_in_issuer : String
  sign_in_issuer =
      if is_set c.auth_issuer
      then trim_suffix_slash (trim_space c.auth_issuer)
      else trim_suffix_slash c.auth.issuer_url

  unfoldable pub internal_url : String
  internal_url =
      if is_set c.auth_internal_url then trim_space c.auth_internal_url else c.auth.issuer_url

  unfoldable pub redis_enabled : Bool
  redis_enabled = is_set c.redis_url

  unfoldable pub outbound_enabled : Bool
  outbound_enabled =
      is_set c.document_base_url
      || is_set c.envelope_base_url
      || is_set c.signflow_base_url
      || is_set c.preview_base_url
      || is_set c.signer_base_url

  unfoldable pub outbound_issuer : String
  outbound_issuer =
      if is_set c.outbound_issuer_url then trim_space c.outbound_issuer_url else c.auth.issuer_url

  unfoldable pub outbound_auth_client_config : AuthConfiguration
  outbound_auth_client_config = record c.auth {
    issuer_url = outbound_issuer;
    service_client_id = c.service_client_id;
    service_client_secret = c.service_client_secret;
  }

  unfoldable pub access_audit_enabled : Bool
  access_audit_enabled = is_set c.access_audit_url

unfoldable pub gdpr_config : Configuration → GdprConfiguration
gdpr_config c = record {
  endpoint = c.access_audit_url;
  audience = c.access_audit_audience;
  scope = c.access_audit_scope;
}
