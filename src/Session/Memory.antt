-- ===== src/Session/Memory.antt =====
-- session/memory.go: the in-process store. An operation runs whole under the store's mutex.
pub mod Laws
use signbyte_bff.Base.{
  ℕ, ◌+◌, String, [], Option, none, some, ltb, Map, lookup, insert, remove, if◌then◌else◌,
}
use signbyte_bff.Errors.{Result, ok, err, not_found, bad_json, or_err}
use signbyte_bff.Session.{Flow, Session}
use signbyte_bff.Session.Interface.{Store, Codec}

pub record Entry : Type 0 where
  pub bytes : String
  pub expires : ℕ

pub record MemoryStore : Type 0 where
  pub flows : Map Entry
  pub sessions : Map Entry

abbrev pub new_memory : MemoryStore
new_memory = record { flows = []; sessions = [] }

module _ {A : Type 0} (codec : Codec A) where
  -- `!ok || s.now().After(e.expires)`, then the decoding of the entry
  unfoldable pub read : ℕ → Option Entry → Result A
  read now none = err not_found
  read now (some e) =
      if ltb e.expires now then err not_found else or_err (codec.decode e.bytes) bad_json

  -- the entry that is stored for a value
  unfoldable pub entry : ℕ → A → Option Entry
  entry expires a = elim (codec.encode a) [
    | none ↦ none
    | some b ↦ some (record { bytes = b; expires = expires })
  ]

module _ (flow_codec : Codec Flow) (session_codec : Codec Session) (session_ttl flow_ttl : ℕ) where
  unfoldable pub put_flow : ℕ → String → Flow → MemoryStore → Result (Unit {0}) × MemoryStore
  put_flow now state f s = elim (entry flow_codec (now + flow_ttl) f) [
    | none ↦ (err bad_json, s)
    | some e ↦ (ok tt, record s { flows = insert state e s.flows })
  ]

  unfoldable pub take_flow : ℕ → String → MemoryStore → Result Flow × MemoryStore
  take_flow now state s =
      (read flow_codec now (lookup state s.flows), record s { flows = remove state s.flows })

  unfoldable pub put_session : ℕ → String → Session → MemoryStore → Result (Unit {0}) × MemoryStore
  put_session now id sess s = elim (entry session_codec (now + session_ttl) sess) [
    | none ↦ (err bad_json, s)
    | some e ↦ (ok tt, record s { sessions = insert id e s.sessions })
  ]

  unfoldable pub get_session : ℕ → String → MemoryStore → Result Session
  get_session now id s = read session_codec now (lookup id s.sessions)

  unfoldable pub delete_session : ℕ → String → MemoryStore → Result (Unit {0}) × MemoryStore
  delete_session now id s = (ok tt, record s { sessions = remove id s.sessions })

  unfoldable pub ping : ℕ → MemoryStore → Result (Unit {0})
  ping now s = ok tt

  abbrev pub memory : Store MemoryStore
  memory = record {
    put_flow = put_flow;
    take_flow = take_flow;
    put_session = put_session;
    get_session = get_session;
    delete_session = delete_session;
    ping = ping;
  }
