-- ===== src/Routes/Cookies.antt =====
-- routes/cookies.go: the cookies of a browser.
use Prim.Native.String.{◌++◌, count}
use signbyte_bff.Base.{ℕ, String, Bool, true, false, not, ◌||◌, ◌==◌, nat_eq, if◌then◌else◌}
use signbyte_bff.Server.{Env, Request, Cookie, cookie_set, cookie_cleared}
use signbyte_bff.Server.Monad.{M, ret, ◌>>=◌, ◌>>◌, sample, emit}
use signbyte_bff.Routes.Relay.{internal, some_or}

abbrev pub sign_in_cookie : String
sign_in_cookie = "portal_signin"

abbrev pub csrf_cookie : String
csrf_cookie = "portal_csrf"

unfoldable pub secure_cookies : Request → Bool
secure_cookies req = req.is_tls || not req.is_development

unfoldable pub cookie_name : Request → String → String
cookie_name req name = if secure_cookies req then "__Host-" ++ name else name

unfoldable pub read_cookie : Request → String → String
read_cookie req name = req.cookie (cookie_name req name)

-- A session cookie, without an age of its own.
abbrev pub session_cookie : Request → String → String → Bool → Cookie
session_cookie req name text http_only = record {
  name = cookie_name req name;
  value = text;
  http_only = http_only;
  secure = secure_cookies req;
  same_site_lax = true;
  path = "/";
  max_age = 0;
}

abbrev pub binding_cookie : Request → ℕ → String → Cookie
binding_cookie req flow_ttl binding = record {
  name = cookie_name req sign_in_cookie;
  value = binding;
  http_only = true;
  secure = secure_cookies req;
  same_site_lax = true;
  path = "/";
  max_age = flow_ttl;
}

module _ {Db : Type 0} where
  unfoldable pub set_session_cookies : Request → String → String → String → M Db (Unit {0})
  set_session_cookies req name sid csrf = do
    emit (cookie_set (session_cookie req name sid true))
    emit (cookie_set (session_cookie req csrf_cookie csrf false))

  unfoldable pub clear_session_cookies : Request → String → M Db (Unit {0})
  clear_session_cookies req name = do
    emit (cookie_cleared (cookie_name req name) (secure_cookies req))
    emit (cookie_cleared (cookie_name req csrf_cookie) (secure_cookies req))

module _ {Db Key Any : Type 0} (env : Env Db Key Any) where
  unfoldable pub browser_binding : Request → String
  browser_binding req =
      let v : String = read_cookie req sign_in_cookie in
      if not (nat_eq (count v) 43) then "" else if env.is_base64url v then v else ""

  -- the binding the browser sent, or a new one
  unfoldable pub binding_or_new : String → M Db String
  binding_or_new binding = do
    fresh ← sample (λ i. env.random_token i 32)
    if binding == "" then some_or internal fresh else ret binding

  unfoldable pub bind_browser : Request → M Db String
  bind_browser req = do
    binding ← binding_or_new (browser_binding req)
    emit (cookie_set (binding_cookie req env.config.flow_ttl binding))
    ret binding
