-- ===== src/Session/Redis.antt =====
-- session/redis.go: the store over Redis. The client library is a parameter: the commands that the
-- source issues, over a state `R` of the server.
pub mod Laws
use Prim.Native.String.{◌++◌ as text_append}
use signbyte_bff.Base.{ℕ, String, Option, none, some}
use signbyte_bff.Errors.{Result, ok, err, not_found, bad_json, redis_failed, or_err}
use signbyte_bff.Session.{Flow, Session}
use signbyte_bff.Session.Interface.{Store, Codec}

-- `err redis_failed` is any failure; a missing key is `ok none` (redis.Nil).
pub record Redis (R : Type 0) : Type 0 where
  pub set : ℕ → String → String → ℕ → R → Result (Unit {0}) × R
  pub get : ℕ → String → R → Result (Option String)
  pub get_del : ℕ → String → R → Result (Option String) × R
  pub del : ℕ → String → R → Result (Unit {0}) × R
  pub ping : ℕ → R → Result (Unit {0})

unfoldable pub flow_key : String → String
flow_key state = text_append "portal:flow:" state

unfoldable pub sess_key : String → String
sess_key id = text_append "portal:sess:" id

-- `errors.Is(err, redis.Nil)`, any other error, and the decoding of what was read
unfoldable pub decoded : {A : Type 0} → Codec A → Result (Option String) → Result A
decoded codec (ok none) = err not_found
decoded codec (ok (some b)) = or_err (codec.decode b) bad_json
decoded codec (err e) = err e

-- `Set` with what was encoded, if the encoding succeeds
unfoldable pub set_encoded :
    {R : Type 0} → Redis R → ℕ → String → Option String → ℕ → R → Result (Unit {0}) × R
set_encoded client now key none ttl r = (err bad_json, r)
set_encoded client now key (some b) ttl r = client.set now key b ttl r

module _ {R : Type 0} (client : Redis R) (flow_codec : Codec Flow) (session_codec : Codec Session)
    (session_ttl flow_ttl : ℕ) where
  unfoldable pub put_flow : ℕ → String → Flow → R → Result (Unit {0}) × R
  put_flow now state f r = set_encoded client now (flow_key state) (flow_codec.encode f) flow_ttl r

  unfoldable pub take_flow : ℕ → String → R → Result Flow × R
  take_flow now state r =
      let (b, r') = client.get_del now (flow_key state) r in (decoded flow_codec b, r')

  unfoldable pub put_session : ℕ → String → Session → R → Result (Unit {0}) × R
  put_session now id sess r =
      set_encoded client now (sess_key id) (session_codec.encode sess) session_ttl r

  unfoldable pub get_session : ℕ → String → R → Result Session
  get_session now id r = decoded session_codec (client.get now (sess_key id) r)

  unfoldable pub delete_session : ℕ → String → R → Result (Unit {0}) × R
  delete_session now id r = client.del now (sess_key id) r

  unfoldable pub redis_ping : ℕ → R → Result (Unit {0})
  redis_ping now r = client.ping now r

  abbrev pub redis_store : Store R
  redis_store = record {
    put_flow = put_flow;
    take_flow = take_flow;
    put_session = put_session;
    get_session = get_session;
    delete_session = delete_session;
    ping = redis_ping;
  }
