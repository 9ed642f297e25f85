-- ===== src/Routes/Login/Once.antt =====
-- A return from the Auth Service that comes again.
use signbyte_bff.Base.{ℕ, suc, String, ◌≡◌, refl, ◌∙◌, Bool, true, false, Option, none, some}
use signbyte_bff.Errors.{Result, ok, err, not_found}
use signbyte_bff.Session.{Flow, Session}
use signbyte_bff.Session.Interface.{IsStore}
use signbyte_bff.Server.{Env, Request, Effect, Tokens}
use signbyte_bff.Server.Monad.{
  M, Reply, redirect, Res, value, replied, panicked, St, follow, ret, reply, ◌>>=◌, emit, sample,
  on_store,
}
use signbyte_bff.Routes.Relay.{require, redirect_with_error, some_or, or_reply}
use signbyte_bff.Routes.Token.{put_session}
use signbyte_bff.Routes.Cookies.{browser_binding, set_session_cookies}
use signbyte_bff.Session.Keys.{flow_key, parse_key}
use signbyte_bff.Routes.Login.{
  text_or_empty, exchange_flow, establish_session, redeem, login_callback,
}

-- From a store with `P` the action leaves one with `P`.
record Keeps {Db A : Type 0} (P : Db → Type 0) (m : M Db A) : Type 0 where
  at : (s : St Db) → P s.db → P (m s).1.db

module _ {Db : Type 0} {P : Db → Type 0} where
  module _ {A B : Type 0} where
    Keeps-follow :
        (f : A → M Db B) (h : (a : A) → Keeps P (f a)) (o : Res A × St Db)
        → P o.1.db
        → P (follow f o).1.db
    Keeps-follow f h (value a, s) p = (h a).at s p
    Keeps-follow f h (replied r, s) p = p
    Keeps-follow f h (panicked, s) p = p

    Keeps-bind :
        (m : M Db A) (f : A → M Db B) → Keeps P m → ((a : A) → Keeps P (f a)) → Keeps P (m >>= f)
    unfolding ◌>>=◌
    Keeps-bind m f h k = record { at = λ s p. Keeps-follow f k (m s) (h.at s p) }

  module _ {A : Type 0} where
    Keeps-reply : (r : Reply) → Keeps P (reply {Db = Db} {A = A} r)
    unfolding reply
    Keeps-reply r = record { at = λ s p. p }

    Keeps-ret : (a : A) → Keeps P (ret {Db = Db} a)
    unfolding ret
    Keeps-ret a = record { at = λ s p. p }

    Keeps-sample : (f : ℕ → A) → Keeps P (sample {Db = Db} f)
    unfolding sample
    Keeps-sample f = record { at = λ s p. p }

    Keeps-some_or : (r : Reply) (o : Option A) → Keeps P (some_or {Db = Db} r o)
    unfolding some_or
    Keeps-some_or r none = Keeps-reply r
    Keeps-some_or r (some a) = Keeps-ret a

    Keeps-or_reply : (r : Reply) (o : Result A) → Keeps P (or_reply {Db = Db} r o)
    unfolding or_reply
    Keeps-or_reply r (ok a) = Keeps-ret a
    Keeps-or_reply r (err e) = Keeps-reply r

  Keeps-emit : (e : Effect) → Keeps P (emit {Db = Db} e)
  unfolding emit
  Keeps-emit e = record { at = λ s p. p }

ruleset keeping =
    (Keeps-bind, Keeps-reply, Keeps-ret, Keeps-sample, Keeps-some_or, Keeps-or_reply, Keeps-emit)

module _ {Db Key Any : Type 0} (env : Env Db Key Any) (session_ttl flow_ttl : ℕ)
    (laws : IsStore env.store session_ttl flow_ttl) (key : String) where
  -- The parked sign-in is gone, at every time.
  abbrev Gone : Db → Type 0
  Gone d = (u : ℕ) → (env.store.take_flow u key d).0 ≡ err not_found

  put_session-Keeps : (sid : String) (sess : Session) → Keeps Gone (put_session env sid sess)
  unfolding put_session ◌>>=◌ sample on_store
  put_session-Keeps sid sess = record {
    at = λ s p u. laws.take-put_session (env.now s.step) u sid key sess s.db ∙ p u;
  }

  set_session_cookies-Keeps :
      (req : Request) (name sid csrf : String) → Keeps Gone (set_session_cookies req name sid csrf)
  unfolding set_session_cookies
  set_session_cookies-Keeps req name sid csrf = search keeping depth 8

  establish_session-Keeps :
      (req : Request) (key_enc : String) (tokens : Tokens)
      → Keeps Gone (establish_session env req key_enc tokens)
  unfolding establish_session
  establish_session-Keeps req key_enc tokens =
      search (keeping, put_session-Keeps, set_session_cookies-Keeps) depth 16

  exchange_flow-Keeps :
      (k : Key) (code : String) (flow : Flow) → Keeps Gone (exchange_flow env k code flow)
  unfolding exchange_flow
  exchange_flow-Keeps k code flow = search keeping depth 8

-- The action ends in an error redirect and has no effect.
abbrev pub IsRejected : {Db Key Any : Type 0} → Env Db Key Any → M Db (Unit {0}) → St Db → Type 0
IsRejected env m t =
    (marker : String) × ((m t).0 ≡ replied (redirect_with_error env marker))
    × ((m t).1.trace ≡ t.trace)

module _ {Db Key Any : Type 0} (env : Env Db Key Any) (session_ttl flow_ttl : ℕ)
    (laws : IsStore env.store session_ttl flow_ttl) (req : Request) (s t : St Db) where
  -- what follows the parked sign-in
  abbrev rest : String → Flow → M Db (Unit {0})
  rest code flow =
      or_reply (redirect_with_error env "bad_state") (parse_key env.format flow.key) >>= λ key.
      exchange_flow env key code flow >>= λ answer.
      some_or (redirect_with_error env "login_failed") answer >>= λ tokens.
      establish_session env req flow.key tokens >>= λ u.
      reply (redirect 302 env.config.post_login_url)

  rest-Keeps :
      (key code : String) (flow : Flow)
      → Keeps (Gone env session_ttl flow_ttl laws key) (rest code flow)
  rest-Keeps key code flow =
      search
        (
          keeping,
          exchange_flow-Keeps env session_ttl flow_ttl laws,
          establish_session-Keeps env session_ttl flow_ttl laws,
        )
        depth 16

  module _ (state code binding : String) (flow : Flow)
      (found : (env.store.take_flow (env.now s.step) (flow_key env.digest state binding) s.db).0
        ≡ ok flow) where
    abbrev key : String
    key = flow_key env.digest state binding

    redeem-Gone : Gone env session_ttl flow_ttl laws key (redeem env req code state binding s).1.db
    unfolding redeem ◌>>=◌ sample on_store or_reply ret
    redeem-Gone = rw found (
        (rest-Keeps key code flow).at
          (record s { db = (env.store.take_flow (env.now s.step) key s.db).1; step = suc s.step })
          (λ u.
            laws.take-take (env.now s.step) u key flow s.db
              (env.store.take_flow (env.now s.step) key s.db).1
              (λ i. (found i, (env.store.take_flow (env.now s.step) key s.db).1))))

    redeem_again :
        t.db ≡ (redeem env req code state binding s).1.db
        → IsRejected env (redeem env req code state binding) t
    unfolding redeem ◌>>=◌ sample on_store or_reply reply
    redeem_again e =
        let gone : (env.store.take_flow (env.now t.step) key t.db).0 ≡ err not_found =
          rw e (redeem-Gone (env.now t.step)) in
        ("expired", rw gone refl, rw gone refl)

  guarded :
      (b : Bool) (marker : String) (f : Unit {0} → M Db (Unit {0}))
      → (b ≡ true → t.db ≡ (f tt s).1.db → IsRejected env (f tt) t)
      → t.db ≡ ((require b (redirect_with_error env marker) >>= f) s).1.db
      → IsRejected env (require b (redirect_with_error env marker) >>= f) t
  unfolding ◌>>=◌ require ret reply
  guarded true marker f h e = h refl e
  guarded false marker f h e = (marker, refl, refl)

  -- A return whose parked sign-in was there ends, when it comes again at any moment, in an error redirect:
  -- nothing is exchanged and no cookie is set. For a store that keeps its contract, which the second
  -- return finds as the first left it.
  pub login_callback_once :
      (flow : Flow)
      → (env.store.take_flow
          (env.now s.step)
          (flow_key env.digest (text_or_empty (req.query "state")) (browser_binding env req))
          s.db).0
        ≡ ok flow
      → t.db ≡ (login_callback env req s).1.db
      → IsRejected env (login_callback env req) t
  unfolding login_callback
  login_callback_once flow found =
      guarded _ _ _
        λ p. guarded _ _ _ λ q. guarded _ _ _ λ r. guarded _ _ _ λ b. redeem_again _ _ _ flow found
