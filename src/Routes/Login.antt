-- ===== src/Routes/Login.antt =====
-- routes/session.go: a sign-in, from its start to the session it establishes.
pub mod Binding
pub mod Once
use signbyte_bff.Base.{
  ℕ, String, Bool, true, false, not, ◌&&◌, ◌||◌, ◌==◌, Option, none, some, if◌then◌else◌,
}
use signbyte_bff.Errors.{Result, ok, err}
use signbyte_bff.Session.{Flow, Session}
use signbyte_bff.Session.Interface.{Store}
use signbyte_bff.Session.Keys.{flow_key, marshal_key, parse_key}
use signbyte_bff.Server.{Env, Request, Tokens, TokenCheck, Authorization, Effect, exchanged}
use signbyte_bff.Server.Monad.{
  M, Reply, problem, refused, json, redirect, login_start_answer, ret, reply, ◌>>=◌, ◌>>◌, emit,
  sample, on_store,
}
use signbyte_bff.Routes.Relay.{internal, or_reply, some_or, require, redirect_with_error}
use signbyte_bff.Routes.Token.{apply_tokens, put_session}
use signbyte_bff.Routes.Cookies.{bind_browser, browser_binding, set_session_cookies}

-- `freshOnly`
abbrev pub fresh_only : Option ℕ
fresh_only = some 0

-- `*v` of an optional query parameter, "" when it is absent
unfoldable pub text_or_empty : Option String → String
text_or_empty none = ""
text_or_empty (some v) = v

-- The marker for an error that the Auth Service propagates.
unfoldable pub idp_marker : String → String
idp_marker e = if e == "access_denied" then "cancelled" else "idp_error"

-- The session that a token answer establishes, before `apply_tokens`.
abbrev pub new_session : String → String → String → Tokens → Session
new_session key csrf subject tokens = record {
  key = key;
  access_token = "";
  access_expiry = 0;
  refresh_token = tokens.refresh_token;
  subject = subject;
  csrf = csrf;
  capabilities = tokens.capabilities;
}

module _ {Db Key Any : Type 0} (env : Env Db Key Any) where
  abbrev pub park : String → Flow → M Db (Result (Unit {0}))
  park key flow = do now ← sample env.now; on_store (λ d. env.store.put_flow now key flow d)

  -- `loginStart`; `body` is the decoded body (an absent one has an empty `acr_values`)
  unfoldable pub login_start : Request → Result String → M Db (Unit {0})
  login_start req (err e) = reply (refused e)
  login_start req (ok acr_values) = do
    require (acr_values == "" || env.method_names acr_values)
        (problem "err:request:invalid" (some 400))
    generated ← sample env.generate_key
    key ← some_or internal generated
    key_enc ← or_reply internal (marshal_key env.format key)
    proof ← sample env.pkce
    pair ← some_or internal proof
    drawn ← sample (λ i. env.random_token i 24)
    state ← some_or internal drawn
    drawn' ← sample (λ i. env.random_token i 24)
    nonce ← some_or internal drawn'
    binding ← bind_browser env req
    started ← sample env.now
    parked ← park (flow_key env.digest state binding) (record {
      key = key_enc;
      verifier = pair.0;
      nonce = nonce;
      acr_values = acr_values;
      started = started;
    })
    or_reply internal parked
    reply (
        json 200 (
          login_start_answer
            (env.authorization_url (record {
              code_challenge = pair.1;
              state = state;
              nonce = nonce;
              acr_values = acr_values;
              prompt = "login";
              max_age = fresh_only;
            }))
            state))

  -- `exchangeFlow`
  unfoldable pub exchange_flow : Key → String → Flow → M Db (Option Tokens)
  exchange_flow key code flow = do
    let check : TokenCheck = record {
      nonce = flow.nonce;
      acr_values = flow.acr_values;
      max_age = fresh_only;
      started = flow.started;
    }
    emit (exchanged code flow.verifier check)
    sample (λ i. env.exchange i key code flow.verifier check)

  -- `establishSession`, whose errors its caller answers with a 500
  unfoldable pub establish_session : Request → String → Tokens → M Db (Unit {0})
  establish_session req key_enc tokens = do
    drawn ← sample (λ i. env.random_token i 32)
    sid ← some_or internal drawn
    drawn' ← sample (λ i. env.random_token i 32)
    csrf ← some_or internal drawn'
    now ← sample env.now
    stored ← put_session env sid (
        apply_tokens now tokens
          (new_session key_enc csrf (env.subject_from_token tokens.access_token) tokens))
    or_reply internal stored
    set_session_cookies req env.config.cookie_name sid csrf

  -- what follows the guards of `loginCallback`
  unfoldable pub redeem : Request → String → String → String → M Db (Unit {0})
  redeem req code state binding = do
    now ← sample env.now
    taken ← on_store (λ d. env.store.take_flow now (flow_key env.digest state binding) d)
    flow ← or_reply (redirect_with_error env "expired") taken
    key ← or_reply (redirect_with_error env "bad_state") (parse_key env.format flow.key)
    answer ← exchange_flow key code flow
    tokens ← some_or (redirect_with_error env "login_failed") answer
    establish_session req flow.key tokens
    reply (redirect 302 env.config.post_login_url)

  -- `loginCallback`
  unfoldable pub login_callback : Request → M Db (Unit {0})
  login_callback req = do
    require (env.check_issuer (text_or_empty (req.query "iss")))
        (redirect_with_error env "login_failed")
    let idp_error : String = text_or_empty (req.query "error")
    require (idp_error == "") (redirect_with_error env (idp_marker idp_error))
    let code : String = text_or_empty (req.query "code")
    let state : String = text_or_empty (req.query "state")
    require (not (code == "" || state == "")) (redirect_with_error env "missing_code")
    let binding : String = browser_binding env req
    require (not (binding == "")) (redirect_with_error env "expired")
    redeem req code state binding
