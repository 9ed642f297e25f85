-- ===== src/Tests/Answers.antt =====
-- The cached answers, and requests whose token is good.
use signbyte_bff.Base.{◌+◌, ◌<◌, String, true, false, ◌≡◌, refl, [], ◌∷◌, some, Map, arith}
use signbyte_bff.Errors.{Result, ok, err, not_found}
use signbyte_bff.Session.{Session}
use signbyte_bff.Session.Interface.{Store}
use signbyte_bff.Session.Memory.{Entry}
use signbyte_bff.Session.Redis.{get_session, take_flow, put_session, put_flow}
use signbyte_bff.Answers.{IsAnswerCache}
use signbyte_bff.Answers.Memory.{MemoryAnswerCache, memory_answers}
use signbyte_bff.Answers.Redis as Shared
use signbyte_bff.Answers.Redis.{redis_answers}
use signbyte_bff.Answers.Laws.{IsValid, memory_answers-IsAnswerCache}
use signbyte_bff.Server.{Env, Request, Response, Validation, called, document_payload}
use signbyte_bff.Server.Monad.{St, replied}
use signbyte_bff.Server.Safe.{Replies}
use signbyte_bff.Routes.Envelopes.{CreateEnvelope}
use signbyte_bff.Routes.Validations.{
  answer_key, force_requested, is_forced, serve_cached_answer, store_answer, cached_reply,
  validate_document,
}
use signbyte_bff.Routes.Validations.Keys.{has_no_colon, answer_key-injective}
use signbyte_bff.Routes.Validations.Cached.{serve-store}
use signbyte_bff.Routes.Validations.Forced.{asked, validate_document-forced}
use signbyte_bff.Routes.Validations.Apart.{answers_apart}
use signbyte_bff.Tests.Session.{
  server, server-IsRedis, flow_codec, session_codec, session_of, flow_of, flow_trip, session_trip,
}
use signbyte_bff.Tests.World.{env, env_over, request, start}

memory_answers-IsAnswerCache_example :
    IsAnswerCache memory_answers 300 (IsValid 300) (λ t k v c. Unit)
memory_answers-IsAnswerCache_example = memory_answers-IsAnswerCache 300

abbrev empty_server : Map Entry
empty_server = []

answers_apart_example :
    (get_session server flow_codec session_codec 3600 600 5 "sid"
        (Shared.set server 300 4 (answer_key "user" "doc" "d1") "{}" empty_server)
      ≡ get_session server flow_codec session_codec 3600 600 5 "sid" empty_server)
    × ((take_flow server flow_codec session_codec 3600 600 5 "state"
          (Shared.set server 300 4 (answer_key "user" "doc" "d1") "{}" empty_server)).0
        ≡ (take_flow server flow_codec session_codec 3600 600 5 "state" empty_server).0)
    × ((Shared.get server 300 5
          (answer_key "user" "doc" "d1")
          (put_session server flow_codec session_codec 3600 600 4 "sid"
            (session_of "token")
            empty_server).1).0
        ≡ (Shared.get server 300 5 (answer_key "user" "doc" "d1") empty_server).0)
    × ((Shared.get server 300 5
          (answer_key "user" "doc" "d1")
          (put_flow server flow_codec session_codec 3600 600 4 "state"
            (flow_of "key")
            empty_server).1).0
        ≡ (Shared.get server 300 5 (answer_key "user" "doc" "d1") empty_server).0)
answers_apart_example =
    answers_apart server server-IsRedis flow_codec session_codec 3600 600 300 flow_trip session_trip
      "user" "doc" "d1" 4 5 "{}" "sid" "state" (session_of "token") (flow_of "key") empty_server

colonless : has_no_colon "user" ≡ true
unfolding has_no_colon
colonless = refl

colonless_kind : has_no_colon "doc" ≡ true
unfolding has_no_colon
colonless_kind = refl

answer_key-injective_example :
    ◌≡◌ {A = String} "user" "user" × ◌≡◌ {A = String} "doc" "doc" × ◌≡◌ {A = String} "d1" "d1"
answer_key-injective_example =
    answer_key-injective "user" "doc" "d1" "user" "doc" "d1" colonless colonless colonless_kind
      colonless_kind refl

-- A store without sessions: the token of the request's session is good.
abbrev no_store : Store MemoryAnswerCache
no_store = record {
  put_flow = λ t k f d. (ok tt, d);
  take_flow = λ t k d. (err not_found, d);
  put_session = λ t k s d. (ok tt, d);
  get_session = λ t k d. err not_found;
  delete_session = λ t k d. (ok tt, d);
  ping = λ t d. ok tt;
}

abbrev caching : Env MemoryAnswerCache String String
caching = env_over no_store (some memory_answers)

abbrev valid : Validation
valid = record { verdict = "valid"; validated_at = ""; rest = "" }

abbrev nothing : St MemoryAnswerCache
nothing = record { db = record { ttl = 300; m = [] }; step = 0; trace = [] }

unforced : force_requested request ≡ false
unfolding force_requested is_forced
unforced = refl

soon : caching.now 9 < caching.now 0 + 300
soon = omega arith

abbrev later : St MemoryAnswerCache
later = record (store_answer caching "va:user:doc:d1" valid nothing).1 { step = 9 }

serve-store_example :
    ((serve_cached_answer caching request "va:user:doc:d1" later).0
      ≡ replied (cached_reply "valid"))
    × ((serve_cached_answer caching request "va:user:doc:d1" later).1.trace ≡ later.trace)
serve-store_example =
    serve-store caching memory_answers refl 300 (IsValid 300) (λ t k v c. Unit) request
      "va:user:doc:d1" "valid" valid nothing later (memory_answers-IsAnswerCache 300) (refl, tt) tt
      refl unforced refl soon

abbrev good : Session
good = record (session_of "token") { access_expiry = 100 }

abbrev forced : Request
forced = record request { query_bool = λ name. some true }

is_forced_so : force_requested forced ≡ true
unfolding force_requested is_forced
is_forced_so = refl

validate_document-forced_example :
    (a : Result Response) × ((validate_document env forced "sid" good start).1.trace
      ≡ called (asked env "/api/v1/document-validations" (document_payload "d1") good) a ∷ [])
validate_document-forced_example =
    validate_document-forced env forced "sid" good start refl refl refl is_forced_so refl

abbrev two_documents : CreateEnvelope
two_documents = record {
  title = "contract";
  order_policy = "";
  profile = "";
  documents = "d1" ∷ "d2" ∷ [];
  slots = [];
}
