-- ===== src/Routes/Gate.antt =====
-- routes/middleware.go: the guard of every authenticated route.
use signbyte_bff.Base.{String, Bool, not, ◌&&◌, ◌||◌, ◌==◌, some, if◌then◌else◌}
use signbyte_bff.Errors.{Result, ok, err}
use signbyte_bff.Session.{Session}
use signbyte_bff.Server.{Env, Request, denied}
use signbyte_bff.Server.Monad.{M, Reply, problem, ret, reply, ◌>>=◌, ◌>>◌, emit, sample, from_store}
use signbyte_bff.Routes.Relay.{unauthorized}
use signbyte_bff.Routes.Cookies.{read_cookie, clear_session_cookies}

unfoldable pub state_changing : String → Bool
state_changing method = not (method == "GET" || method == "HEAD" || method == "OPTIONS")

abbrev pub csrf_refused : Reply
csrf_refused = problem "err:session:csrf" (some 403)

-- The request may go on under this session.
unfoldable pub csrf_passes : Request → Session → Bool
csrf_passes req sess =
    not (state_changing req.method)
    || (not (sess.csrf == "") && req.header "X-CSRF-Token" == sess.csrf)

module _ {Db Key Any : Type 0} (env : Env Db Key Any) where
  -- `csrfDenied`; an emission that fails is only logged
  unfoldable pub csrf_denied : Session → M Db (Unit {0})
  csrf_denied sess = if env.has_sec_events then emit (denied sess.subject) else ret tt

  -- what follows the lookup of the session
  unfoldable pub with_session :
      Request → String → (String → Session → M Db (Unit {0})) → Result Session → M Db (Unit {0})
  with_session req sid next (err e) = do
    clear_session_cookies req env.config.cookie_name
    reply unauthorized
  with_session req sid next (ok sess) =
      if csrf_passes req sess then next sid sess else (csrf_denied sess >> reply csrf_refused)

  -- `requireSession`, around the handler `next`
  unfoldable pub require_session : Request → (String → Session → M Db (Unit {0})) → M Db (Unit {0})
  require_session req next = do
    let sid : String = read_cookie req env.config.cookie_name
    now ← sample env.now
    found ← from_store (env.store.get_session now sid)
    if sid == "" then reply unauthorized else with_session req sid next found
