-- ===== src/Routes/Token/Refreshed.antt =====
-- What `freshToken` leaves in the store.
use signbyte_bff.Base.{ℕ, suc, ◌+◌, ◌<◌, String, ◌≡◌, ◌≢◌, some}
use signbyte_bff.Errors.{ok, or_err, auth_failed}
use signbyte_bff.Session.{Session}
use signbyte_bff.Session.Interface.{IsStore}
use signbyte_bff.Server.{Env, Tokens}
use signbyte_bff.Server.Monad.{St}

-- The session with the answer of the Auth Service: the new access token, the new refresh token where one
-- came and the old one where none did, and the rest as it was.
pub record IsRefreshed (sess : Session) (tokens : Tokens) (s' : Session) : Type 0 where
  pub access : s'.access_token ≡ tokens.access_token
  pub rotated : tokens.refresh_token ≢ "" → s'.refresh_token ≡ tokens.refresh_token
  pub kept : tokens.refresh_token ≡ "" → s'.refresh_token ≡ sess.refresh_token
  pub subject : s'.subject ≡ sess.subject
  pub key : s'.key ≡ sess.key
  pub csrf : s'.csrf ≡ sess.csrf
  pub capabilities : s'.capabilities ≡ sess.capabilities

module _ {Db Key Any : Type 0} (env : Env Db Key Any) (session_ttl flow_ttl : ℕ)
    (laws : IsStore env.store session_ttl flow_ttl) (sid : String) (sess : Session) where
  -- The session is the answer's, and is found in the store during the lifetime from the step's time.
  abbrev pub IsStored : Tokens → Session → ℕ → Db → Type 0
  IsStored tokens s' step db =
      IsRefreshed sess tokens s'
      × ((u : ℕ) → u < env.now step + session_ttl → env.store.get_session u sid db ≡ ok s')

  -- The Auth Service answered, and the answer's session is stored.
  abbrev pub IsAnswered : Key → Session → St Db → Db → Type 0
  IsAnswered key s' t db =
      (tokens : Tokens) × (env.refresh (suc t.step) key sess.refresh_token ≡ some tokens)
      × IsStored tokens s' (suc (suc (suc t.step))) db
