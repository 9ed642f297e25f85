-- ===== src/Tests/World.antt =====
-- A small world: one stored session, services that answer every call, an in-process store.
use signbyte_bff.Base.{String, true, false, [], ◌∷◌, Option, none, some, pos, ◌==◌, if◌then◌else◌}
use signbyte_bff.Errors.{ok}
use signbyte_bff.Session.Interface.{Store}
use signbyte_bff.Answers.{AnswerCache}
use signbyte_bff.Session.Memory.{MemoryStore, memory}
use signbyte_bff.Clients.Zero.{
  zero_created, zero_list_result, zero_signing_tasks_result, zero_detail, zero_doc_ref,
  zero_transition, zero_job, zero_archived_document, zero_meta, zero_doc_list, zero_chain_list,
  zero_chain_row, zero_history_list, zero_validation,
}
use signbyte_bff.Server.{Env, Request, Response}
use signbyte_bff.Server.Monad.{St}
use signbyte_bff.Tests.Session.{flow_codec, session_codec}

abbrev pub answer : Response
answer = record { status_code = 200; header = []; body = "{}" }

abbrev pub env_over : {Db : Type 0} → Store Db → Option (AnswerCache Db) → Env Db String String
env_over store answers = record {
  config = record {
    cookie_name = "portal";
    post_login_url = "https://app.example";
    signing_return_base_url = "";
    flow_ttl = 600;
    audience = λ service. service;
    base_url = λ service. "http://services/";
  };
  store = store;
  answers = answers;
  format = record {
    marshal_pkcs8 = λ k. some k;
    parse_pkcs8 = λ der. some der;
    as_ecdsa = λ a. some a;
    encode64 = λ s. s;
    decode64 = λ s. some s;
  };
  digest = λ s. s;
  wire = record {
    created = λ b. some zero_created;
    envelopes = λ b. some zero_list_result;
    tasks = λ b. some zero_signing_tasks_result;
    detail = λ b. some zero_detail;
    attached = λ b. some zero_doc_ref;
    slot_id = λ b. some "slot";
    transition = λ b. some zero_transition;
    eligible = λ b. some true;
    job = λ b. some zero_job;
    free = λ b. some true;
    archived = λ b. some zero_archived_document;
    meta = λ b. some zero_meta;
    documents = λ b. some zero_doc_list;
    chains = λ b. some zero_chain_list;
    chain = λ b. some zero_chain_row;
    history = λ b. some zero_history_list;
    validation = λ b. some zero_validation;
  };
  marshals = λ p. true;
  marshal_validation = λ v. some v.verdict;
  boundary = λ i. "b";
  path_escape = λ s. s;
  query_escape = λ s. s;
  itoa = λ n. "0";
  now = λ i. 5;
  random_token = λ i n. some "token";
  generate_key = λ i. some "key";
  pkce = λ i. some ("verifier", "challenge");
  serve = λ i c. ok answer;
  check_issuer = λ iss. true;
  exchange = λ i k code verifier check. none;
  refresh = λ i k token.
      some (record {
        access_token = "fresh";
        refresh_token = "";
        expires_in = 0;
        capabilities = none;
      });
  identity = λ i k token. none;
  subject_from_token = λ token. "user";
  login_method = λ token. none;
  authorization_url = λ a. "https://auth.example";
  logout_url = λ r m. "https://auth.example/logout";
  is_base64url = λ s. true;
  method_names = λ s. true;
  canonical = λ code country. if country == "" then none else some "PNOLV-1";
  is_natural_person = λ code. some true;
  identity_key = λ code. code;
  serial_from_token = λ token. "PNOLV-1";
  trim_space = λ s. s;
  url_parse = λ s. some ("https", "app.example");
  has_auth_service = true;
  has_envelope = true;
  has_documents = true;
  has_signflow = true;
  has_sec_events = true;
  has_preview = true;
  has_access_audit = true;
}

abbrev pub env : Env MemoryStore String String
env = env_over (memory flow_codec session_codec 3600 600) none

abbrev pub request : Request
request = record {
  method = "GET";
  header = λ name. "";
  cookie = λ name. if name == "__Host-portal" then "sid" else "";
  query = λ name. none;
  query_int = λ name. none;
  query_bool = λ name. none;
  param_int = λ name. ok (pos 1);
  param = λ name. "d1";
  is_tls = true;
  is_development = false;
}

abbrev pub start : St MemoryStore
start = record {
  db = record { flows = []; sessions = ("sid", record { bytes = "token"; expires = 100 }) ∷ [] };
  step = 0;
  trace = [];
}
