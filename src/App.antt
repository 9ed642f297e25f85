-- ===== src/App.antt =====
-- app.go: how the process is put together. What the libraries build is a parameter.
pub mod Config
pub mod Wired
pub mod Poster
use Prim.Native.String.{◌++◌}
use signbyte_bff.Base.{
  ℕ, String, Bool, true, false, not, ◌&&◌, ◌==◌, Option, none, some, ltb, if◌then◌else◌,
}
use signbyte_bff.Errors.{Result, ok, err, Error, not_started, ◌>>=◌}
use signbyte_bff.App.Config.{
  AuthConfiguration, GdprConfiguration, Configuration, trim_suffix_slash, sign_in_issuer,
  internal_url, redis_enabled, outbound_enabled, outbound_auth_client_config, access_audit_enabled,
  gdpr_config,
}

-- What the libraries do: whether each part can be built.
pub record Libraries : Type 0 where
  pub trim_space : String → String
  pub sets_up : Bool
  -- redis.ParseURL, by the URL
  pub redis_options : String → Option String
  pub new_outbound : AuthConfiguration → Bool
  pub new_file_outbox : String → Bool
  pub new_gdpr : GdprConfiguration → Bool
  pub add_task : Bool

pub data Sessions : Type 0 where
  in_redis : String → ℕ → ℕ → Sessions
  in_memory : ℕ → ℕ → Sessions

pub data Answers : Type 0 where
  answers_in_redis : String → ℕ → Answers
  answers_in_memory : ℕ → Answers

-- The arguments of `asclient.New`.
pub record AuthService : Type 0 where
  pub issuer : String
  pub internal : String
  pub client_id : String
  pub redirect_uri : String
  pub secret : String
  pub expected_issuer : String

-- A client of a collaborator: its address and its audience.
pub record Client : Type 0 where
  pub base_url : String
  pub audience : String

-- auditposter.go, `accessAuditPoster`
pub record AccessAuditPoster : Type 0 where
  pub url : String
  pub audience : String
  pub scope : String

pub record Gdpr : Type 0 where
  pub config : GdprConfiguration
  pub poster : AccessAuditPoster
  pub in_files : Bool

-- The parts of the application; a part that is nil is `none`.
pub record App : Type 0 where
  pub redis_client : Option String
  pub sessions : Sessions
  pub answers : Option Answers
  pub auth_service : AuthService
  pub outbound_client : Option AuthConfiguration
  pub documents : Option Client
  pub envelope : Option Client
  pub signflow : Option Client
  pub preview : Option Client
  pub verify : Option Client
  pub offered : Option (Client × ℕ)
  pub sign_in : String × ℕ
  pub audit : Option Gdpr
  pub verify_audit : Option Client

unfoldable pub new_access_audit_poster : String → String → String → AccessAuditPoster
new_access_audit_poster base_url audience scope = record {
  url = trim_suffix_slash base_url ++ "/v1/access-records";
  audience = audience;
  scope = scope;
}

-- the session store and its Redis client
unfoldable pub sessions_of : Option String → ℕ → ℕ → Sessions
sessions_of none session_ttl flow_ttl = in_memory session_ttl flow_ttl
sessions_of (some opts) session_ttl flow_ttl = in_redis opts session_ttl flow_ttl

-- the cache of answers, unless its lifetime is 0
unfoldable pub answers_of : Option String → ℕ → Option Answers
answers_of none ttl = if ltb 0 ttl then some (answers_in_memory ttl) else none
answers_of (some opts) ttl = if ltb 0 ttl then some (answers_in_redis opts ttl) else none

-- `if a.outboundClient != nil && url != ""`
unfoldable pub client_of : Option AuthConfiguration → String → String → Option Client
client_of none base_url audience = none
client_of (some outbound) base_url audience =
    if base_url == "" then none else some (record { base_url = base_url; audience = audience })

unfoldable pub with_ttl : ℕ → Option Client → Option (Client × ℕ)
with_ttl ttl none = none
with_ttl ttl (some c) = some (c, ttl)

-- a step that may fail
unfoldable pub must : Bool → String → Result (Unit {0})
must true what = ok tt
must false what = err (not_started what)

module _ (lib : Libraries) (c : Configuration) where
  unfoldable pub parsed_redis : Option String → Result (Option String)
  parsed_redis none = err (not_started "redis url")
  parsed_redis (some opts) = ok (some opts)

  -- the Redis client, if a URL is set
  unfoldable pub redis_of : Result (Option String)
  redis_of =
      if redis_enabled lib.trim_space c
      then parsed_redis (lib.redis_options c.redis_url)
      else ok none

  unfoldable pub outbound_of : Result (Option AuthConfiguration)
  outbound_of =
      if outbound_enabled lib.trim_space c
      then (must (lib.new_outbound (outbound_auth_client_config lib.trim_space c))
            "outbound auth client"
          >>= λ u. ok (some (outbound_auth_client_config lib.trim_space c)))
      else ok none

  -- `buildGDPRAudit`
  unfoldable pub build_gdpr_audit : Result Gdpr
  build_gdpr_audit = do
    boxed ←
        if c.access_audit_outbox_dir == ""
        then ok tt
        else must (lib.new_file_outbox c.access_audit_outbox_dir) "audit outbox"
    built ← must (lib.new_gdpr (gdpr_config c)) "gdpr-audit client"
    added ← must lib.add_task "gdpr drain task"
    ok (record {
      config = gdpr_config c;
      poster =
          new_access_audit_poster c.access_audit_url c.access_audit_audience c.access_audit_scope;
      in_files = not (c.access_audit_outbox_dir == "");
    })

  -- the two recorders, if the audit is enabled and there is an outbound client
  unfoldable pub audits_with : Option AuthConfiguration → Result (Option Gdpr × Option Client)
  audits_with none = ok (none, none)
  audits_with (some outbound) = do
    gc ← build_gdpr_audit
    ok (
      some gc,
      some (record { base_url = c.access_audit_url; audience = c.access_audit_audience }),
    )

  unfoldable pub audits_of : Option AuthConfiguration → Result (Option Gdpr × Option Client)
  audits_of outbound =
      if access_audit_enabled lib.trim_space c then audits_with outbound else ok (none, none)

  -- the parts, once those that can fail are there
  unfoldable pub wired :
      Option String → Option AuthConfiguration → Option Gdpr × Option Client → App
  wired redis outbound audits = record {
    redis_client = redis;
    sessions = sessions_of redis c.session_ttl c.flow_ttl;
    answers = answers_of redis c.validation_cache_ttl;
    auth_service = record {
      issuer = c.auth.issuer_url;
      internal = internal_url lib.trim_space c;
      client_id = c.auth_client_id;
      redirect_uri = c.auth_redirect_uri;
      secret = c.service_client_secret;
      expected_issuer = sign_in_issuer lib.trim_space c;
    };
    outbound_client = outbound;
    documents = client_of outbound c.document_base_url c.document_audience;
    envelope = client_of outbound c.envelope_base_url c.envelope_audience;
    signflow = client_of outbound c.signflow_base_url c.signflow_audience;
    preview = client_of outbound c.preview_base_url c.preview_audience;
    verify = client_of outbound c.signer_base_url c.signer_audience;
    offered = with_ttl c.signer_flows_ttl (client_of outbound c.signer_base_url c.signer_audience);
    sign_in = (internal_url lib.trim_space c, 60);
    audit = audits.0;
    verify_audit = audits.1;
  }

  -- `init`
  unfoldable pub init : Result App
  init = do
    up ← must lib.sets_up "platform"
    redis ← redis_of
    outbound ← outbound_of
    audits ← audits_of outbound
    ok (wired redis outbound audits)
