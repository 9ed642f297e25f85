-- ===== src/Routes/Account.antt =====
-- routes/session.go: the handlers of an established session.
pub mod Logout
use Prim.Native.String.{◌++◌}
use signbyte_bff.Base.{
  ℕ, String, Bool, true, false, not, ◌&&◌, ◌||◌, ◌==◌, List, [], ◌∷◌, Option, none, some, map, keep,
  contains, if◌then◌else◌,
}
use signbyte_bff.Errors.{Result, ok, err, auth_failed, or_err}
use signbyte_bff.Session.{Session, Capabilities, Seal}
use signbyte_bff.Session.Interface.{Store}
use signbyte_bff.Session.Keys.{parse_key}
use signbyte_bff.Server.{Env, Config, Request, Identity, Tokens, Effect, revoked}
use signbyte_bff.Server.Monad.{
  M, Me, Reply, problem, json, me_answer, ok_answer, logout_answer, ret, reply, ◌>>=◌, ◌>>◌, emit,
  sample, on_store,
}
use signbyte_bff.Routes.Relay.{internal, unauthorized, or_reply, some_or}
use signbyte_bff.Routes.Token.{apply_tokens, put_session, fresh_token, ask_refresh}
use signbyte_bff.Routes.Cookies.{clear_session_cookies}
use signbyte_bff.Routes.Dashboard.{is_empty}

-- `offeredOnly`, for the flows that the signing service is known to run
unfoldable pub offered_only : Option (List String) → List String → List String
offered_only none permitted = permitted
offered_only (some offered) permitted = keep (λ f. contains offered f) permitted

-- The seals of a sign-in that read their catalog: whether there are any, and their ids and labels.
unfoldable pub shown_seals : Option Capabilities → Option Bool × List (String × String)
shown_seals none = (none, [])
shown_seals (some caps) =
    if caps.seals_known
    then (some (not (is_empty caps.seals)), map (λ s. (s.id, s.label)) caps.seals)
    else (none, [])

abbrev pub me_of : Identity → Option (List String) → Option Capabilities → Me
me_of id offered caps = record {
  sub = id.subject;
  name = id.name;
  loa = id.loa;
  login_method = id.login_method;
  permitted_flows = offered_only offered id.permitted_flows;
  can_eseal = (shown_seals caps).0;
  seals = (shown_seals caps).1;
}

module _ {Db Key Any : Type 0} (env : Env Db Key Any) where
  -- `LogoutRedirectURI` of config.go
  unfoldable pub logout_redirect_uri : String
  logout_redirect_uri = elim (env.url_parse env.config.post_login_url) [
    | none ↦ ""
    | some (scheme, host) ↦
        if scheme == ""
        then ""
        else if host == ""
        then ""
        else scheme ++ "://" ++ host ++ "/welcome"
  ]

  -- `me`; `offered` is what `OfferedFlows` last learned
  unfoldable pub me : Option (List String) → String → Session → M Db (Unit {0})
  me offered sid sess = do
    result ← fresh_token env sid sess
    sess' ← or_reply unauthorized result
    key ← or_reply internal (parse_key env.format sess'.key)
    looked ← sample (λ i. env.identity i key sess'.access_token)
    id ← some_or (problem "err:upstream:unavailable" (some 502)) looked
    reply (json 200 (me_answer (me_of id offered sess'.capabilities)))

  -- `refresh`
  unfoldable pub refresh : String → Session → M Db (Unit {0})
  refresh sid sess = do
    key ← or_reply internal (parse_key env.format sess.key)
    answer ← ask_refresh env key sess.refresh_token
    tokens ← or_reply unauthorized answer
    now ← sample env.now
    stored ← put_session env sid (apply_tokens now tokens sess)
    or_reply internal stored
    reply (json 200 ok_answer)

  -- the session is ended at the Auth Service, whatever it answers
  unfoldable pub revoke_with : String → Result Key → M Db (Unit {0})
  revoke_with token (err e) = ret tt
  revoke_with token (ok key) = if token == "" then ret tt else emit (revoked token)

  -- the address the browser goes on to
  unfoldable pub logout_url : Session → String
  logout_url sess =
      if not env.has_auth_service || logout_redirect_uri == ""
      then ""
      else env.logout_url logout_redirect_uri
          (elim (env.login_method sess.access_token) [ none ↦ "" | some method ↦ method ])

  -- `logout`
  unfoldable pub logout : Request → String → Session → M Db (Unit {0})
  logout req sid sess = do
    if env.has_auth_service
        then revoke_with sess.refresh_token (parse_key env.format sess.key)
        else ret tt
    now ← sample env.now
    if sid == "" then ret (ok tt) else on_store (λ d. env.store.delete_session now sid d)
    clear_session_cookies req env.config.cookie_name
    reply (json 200 (logout_answer (logout_url sess)))
