-- ===== src/Tests/Public.antt =====
-- An anonymous verification of one file of two bytes.
use signbyte_bff.Base.{
  ℕ, String, Bool, true, false, ◌≡◌, refl, ◌==◌, List, [], ◌∷◌, Option, none, some, map, keep,
  lookup, arith, eq_iff, suc, ◌&&◌,
}
use signbyte_bff.Errors.{ok}
use signbyte_bff.Server.Monad.{St, problem, replied}
use signbyte_bff.Server.Safe.{Any as Whatever}
use signbyte_bff.Server.Files.{FileHeader}
use signbyte_bff.Server.Public.{PublicRequest, PublicEnv}
use signbyte_bff.Routes.Closes.{EndsIn}
use signbyte_bff.Routes.Verify.{InflightGate, number, acquire}
use signbyte_bff.Routes.Verify.Handler.{verify_client_ip, verify_document}
use signbyte_bff.Routes.Verify.Attested.{Attests, verify_document-attested}
use signbyte_bff.Routes.Verify.Released.{verify_document-releases}
use signbyte_bff.Routes.Public.{limiter_key, status_of, verify_route}
use signbyte_bff.Routes.Public.Blocked.{blocked, verify_route-blocked}
use signbyte_bff.Tests.World.{answer}

abbrev world : PublicEnv
world = record {
  verify_max_bytes = 10;
  signer_base_url = "http://signer/";
  signer_audience = "svc:signer";
  has_verify = true;
  has_doer = true;
  evidence_url = "http://audit";
  evidence_audience = "svc:access-audit";
  marshals_event = λ ev. true;
  rfc3339 = λ i. "now";
  boundary = λ i. "b";
  sha256_hex = λ bytes. "sha";
  document_gate = λ name bytes max. none;
  serve_service = λ i c. ok answer;
  is_problem = λ b. false;
  normalize_report = λ b. some (record { verdict = "valid"; validated_at = ""; rest = "" });
  trim_space = λ s. s;
  internal_url = "http://auth";
  get_json = λ i url. ok ("webEid" ∷ "no name" ∷ []);
  now = λ i. i;
  flow_names = λ b. some [];
  allows = λ i key. true;
  limit_reply = problem "limited" (some 429);
  has_edge_events = true;
}

abbrev signed : FileHeader
signed = record {
  filename = "a.asice";
  size = 2;
  opened = some (record { bytes = 80 ∷ 75 ∷ []; fails_after = none });
}

abbrev upload : PublicRequest
upload = record {
  files = λ field. signed ∷ [];
  peer = some "10.0.0.1";
  header = λ name. "";
  user_agent = "browser";
  correlation_id = "c1";
}

abbrev idle : St InflightGate
idle = record { db = record { max = 1; per_ip = [] }; step = 0; trace = [] }

abbrev full : St InflightGate
full = record { db = record { max = 1; per_ip = ("10.0.0.1", 1) ∷ [] }; step = 0; trace = [] }

recording_on : world.has_doer && signbyte_bff.Base.not (world.evidence_url == "") ≡ true
recording_on = refl

verify_document-attested_example :
    EndsIn (Attests world upload) Whatever (verify_document world upload idle)
verify_document-attested_example = verify_document-attested world upload recording_on idle

verify_document-releases_example :
    number (lookup "10.0.0.1" (verify_document world upload full).1.db.per_ip)
    ≡ number (lookup "10.0.0.1" full.db.per_ip)
verify_document-releases_example = verify_document-releases world upload full "10.0.0.1"

verify_route-blocked_example :
    (status_of world.limit_reply ≡ some 429
      → world.allows 0 (limiter_key world upload) ≡ false
      → verify_route world upload full
        ≡ (replied world.limit_reply, blocked world upload full refl))
    × (world.allows 0 (limiter_key world upload) ≡ true
        → world.has_verify ≡ true
        → acquire (verify_client_ip world upload) full.db ≡ (false, full.db)
        → verify_route world upload full ≡ (
          replied (problem "err:verify:tooManyRequests" (some 429)),
          blocked world upload full refl,
        ))
verify_route-blocked_example = verify_route-blocked world upload full refl
