-- ===== src/Tests/App.antt =====
-- A configuration with a document service and the audit, without Redis.
use signbyte_bff.Base.{String, ◌↔◌, true, false, ◌&&◌, ◌≡◌, refl, none, some, if◌then◌else◌}
use signbyte_bff.Errors.{ok}
use signbyte_bff.App.Config.{
  Configuration, outbound_enabled, access_audit_enabled, outbound_auth_client_config, redis_enabled,
}
use signbyte_bff.App.{
  Libraries, App, init, must, new_access_audit_poster, redis_of, outbound_of, audits_of,
  audits_with, build_gdpr_audit,
}
use signbyte_bff.App.Poster.{Delivery, IsTaken, post, post-IsTaken}
use signbyte_bff.Tests.World.{answer}
use signbyte_bff.App.Wired.{configured, HasAddresses, AreRecording, init-clients, init-recording}

abbrev libraries : Libraries
libraries = record {
  trim_space = λ s. s;
  sets_up = true;
  redis_options = λ url. some url;
  new_outbound = λ cfg. true;
  new_file_outbox = λ dir. true;
  new_gdpr = λ cfg. true;
  add_task = true;
}

abbrev settings : Configuration
settings = record {
  auth = record {
    issuer_url = "https://auth.example";
    service_client_id = "";
    service_client_secret = "";
    rest = "";
  };
  auth_internal_url = "";
  auth_issuer = "";
  auth_client_id = "portal-spa";
  auth_redirect_uri = "https://app.example/callback";
  redis_url = "";
  session_ttl = 3600;
  flow_ttl = 600;
  document_base_url = "http://documents";
  envelope_base_url = "";
  signflow_base_url = "";
  preview_base_url = "";
  signer_base_url = "";
  document_audience = "svc:document";
  envelope_audience = "svc:envelope";
  signflow_audience = "svc:signflow";
  preview_audience = "svc:preview";
  signer_audience = "svc:signer";
  signer_flows_ttl = 60;
  validation_cache_ttl = 300;
  service_client_id = "svc:portal-api";
  service_client_secret = "secret";
  outbound_issuer_url = "";
  access_audit_url = "http://audit";
  access_audit_audience = "svc:access-audit";
  access_audit_scope = "access-audit:write";
  access_audit_outbox_dir = "";
}

started : (app : App) × (init libraries settings ≡ ok app)
unfolding init must redis_of redis_enabled outbound_of outbound_enabled audits_of
    access_audit_enabled audits_with build_gdpr_audit
started = (_, refl)

addresses : HasAddresses (λ s. s) settings
addresses = (λ e. e, λ e. e, λ e. e, λ e. e, λ e. e)

init-clients_example :
    (started.0.documents ≡ configured "http://documents" "svc:document")
    × (started.0.envelope ≡ configured "" "svc:envelope")
    × (started.0.signflow ≡ configured "" "svc:signflow")
    × (started.0.preview ≡ configured "" "svc:preview")
    × (started.0.verify ≡ configured "" "svc:signer")
    × (started.0.outbound_client ≡ (
        if outbound_enabled (λ s. s) settings
        then some (outbound_auth_client_config (λ s. s) settings)
        else none))
init-clients_example = init-clients libraries settings started.0 addresses started.1

init-recording_example :
    AreRecording libraries settings
      (access_audit_enabled (λ s. s) settings && outbound_enabled (λ s. s) settings)
      (started.0.audit, started.0.verify_audit)
init-recording_example = init-recording libraries settings started.0 started.1

abbrev audit : Delivery String
audit = record {
  post_json = λ audience scope url rec. ok tt;
  do_service = λ audience scope method url body. ok answer;
  marshal = λ rec. some rec;
}

post-IsTaken_example :
    post audit (new_access_audit_poster "http://audit/" "svc:audit" "write") false "{}" ≡ ok tt
    ↔ IsTaken audit "http://audit/" "svc:audit" "write" "{}"
post-IsTaken_example = post-IsTaken audit "http://audit/" "svc:audit" "write" "{}"
