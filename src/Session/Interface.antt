-- ===== src/Session/Interface.antt =====
-- session/session.go: the interface `Store`, and what its comments promise.
use signbyte_bff.Base.{ℕ, ◌+◌, ◌<◌, String, ◌≡◌, ◌≢◌, Option, some}
use signbyte_bff.Errors.{Result, ok, err, not_found}
use signbyte_bff.Session.{Flow, Session}

-- A store over the state `Db`. The first argument of an operation is the time at which it runs.
pub record Store (Db : Type 0) : Type 0 where
  pub put_flow : ℕ → String → Flow → Db → Result (Unit {0}) × Db
  pub take_flow : ℕ → String → Db → Result Flow × Db
  pub put_session : ℕ → String → Session → Db → Result (Unit {0}) × Db
  pub get_session : ℕ → String → Db → Result Session
  pub delete_session : ℕ → String → Db → Result (Unit {0}) × Db
  pub ping : ℕ → Db → Result (Unit {0})

-- encoding/json on one type.
pub record Codec (A : Type 0) : Type 0 where
  pub encode : A → Option String
  pub decode : String → Option A

-- What was encoded is decoded to the same value.
abbrev pub IsRoundTrip : {A : Type 0} → Codec A → Type 0
IsRoundTrip {A} c = (a : A) (b : String) → c.encode a ≡ some b → c.decode b ≡ some a

-- The contract of `Store`, for operations that succeed: bounded lifetimes, a flow is used once, keys
-- do not disturb each other, and flows and sessions are apart.
pub record IsStore {Db : Type 0} (st : Store Db) (session_ttl flow_ttl : ℕ) : Type 0 where
  pub get-put_live :
      (t u : ℕ) (k : String) (s : Session) (d e : Db)
      → st.put_session t k s d ≡ (ok tt, e)
      → u < t + session_ttl
      → st.get_session u k e ≡ ok s
  pub get-put_expired :
      (t u : ℕ) (k : String) (s : Session) (d e : Db)
      → st.put_session t k s d ≡ (ok tt, e)
      → t + session_ttl < u
      → st.get_session u k e ≡ err not_found
  pub get-put_ne :
      (t u : ℕ) (k j : String) (s : Session) (d : Db)
      → k ≢ j
      → st.get_session u j (st.put_session t k s d).1 ≡ st.get_session u j d
  pub get-delete :
      (t u : ℕ) (k : String) (d e : Db)
      → st.delete_session t k d ≡ (ok tt, e)
      → st.get_session u k e ≡ err not_found
  pub get-delete_ne :
      (t u : ℕ) (k j : String) (d : Db)
      → k ≢ j
      → st.get_session u j (st.delete_session t k d).1 ≡ st.get_session u j d
  pub take-put_live :
      (t u : ℕ) (k : String) (f : Flow) (d e : Db)
      → st.put_flow t k f d ≡ (ok tt, e)
      → u < t + flow_ttl
      → (st.take_flow u k e).0 ≡ ok f
  pub take-put_expired :
      (t u : ℕ) (k : String) (f : Flow) (d e : Db)
      → st.put_flow t k f d ≡ (ok tt, e)
      → t + flow_ttl < u
      → (st.take_flow u k e).0 ≡ err not_found
  pub take-take :
      (t u : ℕ) (k : String) (f : Flow) (d e : Db)
      → st.take_flow t k d ≡ (ok f, e)
      → (st.take_flow u k e).0 ≡ err not_found
  pub take-take_ne :
      (t u : ℕ) (k j : String) (d : Db)
      → k ≢ j
      → (st.take_flow u j (st.take_flow t k d).1).0 ≡ (st.take_flow u j d).0
  pub take-put_ne :
      (t u : ℕ) (k j : String) (f : Flow) (d : Db)
      → k ≢ j
      → (st.take_flow u j (st.put_flow t k f d).1).0 ≡ (st.take_flow u j d).0
  pub get-put_flow :
      (t u : ℕ) (k j : String) (f : Flow) (d : Db)
      → st.get_session u j (st.put_flow t k f d).1 ≡ st.get_session u j d
  pub get-take_flow :
      (t u : ℕ) (k j : String) (d : Db)
      → st.get_session u j (st.take_flow t k d).1 ≡ st.get_session u j d
  pub take-put_session :
      (t u : ℕ) (k j : String) (s : Session) (d : Db)
      → (st.take_flow u j (st.put_session t k s d).1).0 ≡ (st.take_flow u j d).0
  pub take-delete_session :
      (t u : ℕ) (k j : String) (d : Db)
      → (st.take_flow u j (st.delete_session t k d).1).0 ≡ (st.take_flow u j d).0
