-- ===== src/Routes/Token.antt =====
-- routes/session.go and routes/documents.go: the access token a request acts with.
pub mod Refreshed
use signbyte_bff.Base.{
  ℕ, ◌+◌, ◌-◌, ◌*◌, ◌/◌, ◌%◌, String, Bool, not, ◌&&◌, ◌==◌, ltb, if◌then◌else◌,
}
use signbyte_bff.Errors.{Result, ok, err, auth_failed, or_err}
use signbyte_bff.Session.{Session}
use signbyte_bff.Session.Keys.{parse_key}
use signbyte_bff.Server.{Env, Tokens, OnBehalf, refreshed}
use signbyte_bff.Server.Monad.{M, ret, ◌>>=◌, ◌>>◌, sample, emit, on_store}
use signbyte_bff.Routes.Relay.{unauthorized, or_reply}

-- `t.Add(d).Unix()` for a time in nanoseconds and the 64-bit pattern of a duration. An instant before
-- 1970 counts as 0.
abbrev pub unix_after : ℕ → ℕ → ℕ
unix_after now d =
    if ltb d 9223372036854775808
    then (now + d) / 1000000000
    else (now - (18446744073709551616 - d)) / 1000000000

-- refreshLeeway
abbrev pub refresh_leeway : ℕ
refresh_leeway = 30000000000

-- `applyTokens`
unfoldable pub apply_tokens : ℕ → Tokens → Session → Session
apply_tokens now tokens sess = record sess {
  access_token = tokens.access_token;
  access_expiry = unix_after now (tokens.expires_in * 1000000000 % 18446744073709551616);
  refresh_token = if tokens.refresh_token == "" then sess.refresh_token else tokens.refresh_token;
}

-- `if err := PutSession(...); err != nil { return "", err }`
unfoldable pub stored_session : Session → Result (Unit {0}) → Result Session
stored_session sess (ok u) = ok sess
stored_session sess (err e) = err e

abbrev pub is_fresh : ℕ → Session → Bool
is_fresh now sess =
    not (sess.access_token == "") && ltb ((now + refresh_leeway) / 1000000000) sess.access_expiry

-- The delegation, and the session object as it then is.
pub record Acting : Type 0 where
  pub obo : OnBehalf
  pub session : Session

module _ {Db Key Any : Type 0} (env : Env Db Key Any) where
  -- the clock, read once
  abbrev pub clock : M Db ℕ
  clock = sample env.now

  -- `r.AuthService().Refresh`
  unfoldable pub ask_refresh : Key → String → M Db (Result Tokens)
  ask_refresh key token = do
    emit (refreshed token)
    tokens ← sample (λ i. env.refresh i key token)
    ret (or_err tokens auth_failed)

  -- `r.Sessions().PutSession`
  unfoldable pub put_session : String → Session → M Db (Result (Unit {0}))
  put_session sid sess = do now ← clock; on_store (λ d. env.store.put_session now sid sess d)

  -- after the answer of the Auth Service: the session is changed and stored
  unfoldable pub store_tokens : String → Session → Result Tokens → M Db (Result Session)
  store_tokens sid sess (err e) = ret (err e)
  store_tokens sid sess (ok tokens) = do
    now ← clock
    let sess' : Session = apply_tokens now tokens sess
    stored ← put_session sid sess'
    ret (stored_session sess' stored)

  unfoldable pub refresh_with : String → Session → Result Key → M Db (Result Session)
  refresh_with sid sess (err e) = ret (err e)
  refresh_with sid sess (ok key) = do
    tokens ← ask_refresh key sess.refresh_token
    store_tokens sid sess tokens

  -- `freshToken`: the session as it is then; the token is its access token
  unfoldable pub fresh_token : String → Session → M Db (Result Session)
  fresh_token sid sess = do
    now ← clock
    if is_fresh now sess
        then ret (ok sess)
        else refresh_with sid sess (parse_key env.format sess.key)

  abbrev pub acting : Session → Acting
  acting sess = record {
    obo = record { sub = sess.subject; token = sess.access_token };
    session = sess;
  }

  -- `onBehalf`
  unfoldable pub on_behalf : String → Session → M Db Acting
  on_behalf sid sess = do
    result ← fresh_token sid sess
    sess' ← or_reply unauthorized result
    ret (acting sess')
