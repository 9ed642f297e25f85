-- ===== src/Tests/Session.antt =====
-- The two stores with codecs that keep one field, and a Redis server that is a map with expiries.
use signbyte_bff.Base.{
  ℕ, ◌+◌, ◌<◌, String, Bool, true, false, ◌&&◌, ◌==◌, ◌≡◌, ◌≢◌, refl, sym, arith, eq_iff, eq_refl,
  Bool-cases, inl, inr, Option, none, some, List, [], ltb, nat_eq, Map, lookup, insert, remove,
  lookup-insert, lookup-remove, if◌then◌else◌,
}
use signbyte_bff.Errors.{ok}
use signbyte_bff.Session.{Flow, Session}
use signbyte_bff.Session.Interface.{Codec, IsRoundTrip, IsStore}
use signbyte_bff.Session.Keys.Laws.{flow_key-injective}
use Prim.Native.String.{count}
use signbyte_bff.Session.Memory.{Entry, memory}
use signbyte_bff.Session.Memory.Laws.{memory-IsStore}
use signbyte_bff.Session.Redis.{Redis, redis_store}
use signbyte_bff.Session.Redis.Laws.{IsRedis, redis_store-IsStore}

abbrev pub flow_of : String → Flow
flow_of key = record { key = key; verifier = ""; nonce = ""; acr_values = ""; started = 0 }

abbrev pub flow_codec : Codec Flow
flow_codec = record {
  encode = λ f.
      if f.verifier == "" && f.nonce == "" && f.acr_values == "" && nat_eq f.started 0
      then some f.key
      else none;
  decode = λ b. some (flow_of b);
}

abbrev pub session_of : String → Session
session_of token = record {
  key = "";
  access_token = token;
  access_expiry = 0;
  refresh_token = "";
  subject = "";
  csrf = "";
  capabilities = none;
}

abbrev has_capabilities : {A : Type 0} → Option A → Bool
has_capabilities none = false
has_capabilities (some c) = true

abbrev pub session_codec : Codec Session
session_codec = record {
  encode = λ s.
      if s.key == ""
        && nat_eq s.access_expiry 0
        && s.refresh_token == ""
        && s.subject == ""
        && s.csrf == ""
        && signbyte_bff.Base.not (has_capabilities s.capabilities)
      then some s.access_token
      else none;
  decode = λ b. some (session_of b);
}

pub flow_trip : IsRoundTrip flow_codec
flow_trip f b p = ground (arith, eq_iff f.verifier "", eq_iff f.nonce "", eq_iff f.acr_values "")

pub session_trip : IsRoundTrip session_codec
session_trip s b p =
    ground
      (arith, eq_iff s.key "", eq_iff s.refresh_token "", eq_iff s.subject "", eq_iff s.csrf "")

memory-IsStore_example : IsStore (memory flow_codec session_codec 3600 600) 3600 600
memory-IsStore_example = memory-IsStore flow_codec session_codec 3600 600 flow_trip session_trip

abbrev pub live_text : ℕ → Option Entry → Option String
live_text now none = none
live_text now (some e) = if ltb e.expires now then none else some e.bytes

abbrev pub server : Redis (Map Entry)
server = record {
  set = λ now k b ttl r. (ok tt, insert k (record { bytes = b; expires = now + ttl }) r);
  get = λ now k r. ok (live_text now (lookup k r));
  get_del = λ now k r. (ok (live_text now (lookup k r)), remove k r);
  del = λ now k r. (ok tt, remove k r);
  ping = λ now r. ok tt;
}

pub server-IsRedis : IsRedis server
server-IsRedis = record {
  get-set_live = λ t u ttl k b r q p lt.
      ground (arith, lookup-insert k k (record { bytes = b; expires = t + ttl }) r, eq_refl k);
  get-set_expired = λ t u ttl k b r q p lt.
      ground (arith, lookup-insert k k (record { bytes = b; expires = t + ttl }) r, eq_refl k);
  get-set_ne = λ t u ttl k j b r ne.
      ground (arith, lookup-insert k j (record { bytes = b; expires = t + ttl }) r, eq_iff k j);
  get_del-get = λ t k r. refl;
  get-get_del = λ t u k b r q p. ground (arith, lookup-remove k k r, eq_refl k);
  get-get_del_ne = λ t u k j r ne. ground (arith, lookup-remove k j r, eq_iff k j);
  get-del = λ t u k r q p. ground (arith, lookup-remove k k r, eq_refl k);
  get-del_ne = λ t u k j r ne. ground (arith, lookup-remove k j r, eq_iff k j);
}

redis_store-IsStore_example :
    IsStore (redis_store server flow_codec session_codec 3600 600) 3600 600
redis_store-IsStore_example =
    redis_store-IsStore server server-IsRedis flow_codec session_codec 3600 600 flow_trip
      session_trip

-- a digest of three characters that keeps two texts apart
abbrev digest : String → String
digest x = if x == "one" then "one" else if x == "two" then "two" else "xyz"

fixed : (x : String) → count (digest x) ≡ 3
fixed x = elim (Bool-cases (x == "one")) [
  | inl p ↦ rw p refl
  | inr p ↦ elim (Bool-cases (x == "two")) [ inl q ↦ rw (p, q) refl | inr q ↦ rw (p, q) refl ]
]

flow_key-injective_example : ◌≡◌ {A = String} "state" "state" × ◌≡◌ {A = String} "one" "one"
flow_key-injective_example =
    flow_key-injective digest 3 "state" "state" "one" "one" fixed (λ e. refl) refl
