-- ===== src/Routes/Delegation/Base.antt =====
-- The effects that act for the session's user, and the rules of the shared actions.
use signbyte_bff.Base.{
  ℕ, String, Bool, true, false, not, ◌||◌, ◌==◌, List, Option, none, some, ◌≡◌, ◌≢◌, ◌∙◌, refl,
  arith, eq_iff, All,
}
use signbyte_bff.Errors.{Result, ok, err, bad_json}
use signbyte_bff.Session.{Session}
use signbyte_bff.Session.Keys.{parse_key}
use signbyte_bff.Server.{
  Env, Effect, OnBehalf, Tokens, called, access_recorded, Payload, Content, json_content, Request,
}
use signbyte_bff.Server.Monad.{M, Reply, ret, ◌>>=◌, emit, sample}
use signbyte_bff.Server.Safe.{
  Safe, Responds, Any as Whatever, Safe-bind, Safe-then, Safe-ret, Safe-reply, Safe-if, Safe-sample,
  Safe-on_store,
}
use signbyte_bff.Audit.{document_read}
use signbyte_bff.Clients.Calls.{
  Ask, request_on_behalf, do_on_behalf, do_json, do_json_slow, with_json,
}
use signbyte_bff.Routes.Relay.{or_relay, or_reply, some_or, ready, require, decoded_body}
use signbyte_bff.Routes.Token.{
  Acting, is_fresh, stored_session, apply_tokens, ask_refresh, put_session, store_tokens,
  refresh_with, fresh_token, on_behalf,
}
use signbyte_bff.Routes.Cookies.{clear_session_cookies}

-- A call is made with a token, and for the subject; nothing else calls.
abbrev pub IsDelegated : String → Effect → Type 0
IsDelegated sub (called c r) = (c.sub ≡ sub) × (c.token ≢ "")
IsDelegated sub (access_recorded who id) = who ≡ sub
IsDelegated sub e = Unit

abbrev pub AreDelegated : String → List Effect → Type 0
AreDelegated sub trace = All (IsDelegated sub) trace

-- Acting only for the subject, with a panic only if the test is false.
abbrev pub Delegates : {Db A : Type 0} → Bool → String → (A → Type 0) → M Db A → Type 0
Delegates d sub Q m = Safe (AreDelegated sub) (Responds d) Q m

module _ {Db : Type 0} {d : Bool} (sub : String) where
  pub emit-Delegates :
      (e : Effect) → IsDelegated sub e → Delegates d sub Whatever (emit {Db = Db} e)
  unfolding emit
  emit-Delegates e h = record { at = λ s p. ((h, p), tt) }

  pub clear-Safe :
      (req : Request) (name : String)
      → Delegates d sub Whatever (clear_session_cookies {Db = Db} req name)
  unfolding clear_session_cookies
  clear-Safe req name = Safe-then _ _ (emit-Delegates _ tt) λ u. emit-Delegates _ tt

module _ {Db Key Any : Type 0} {d : Bool} (env : Env Db Key Any) (sub : String) where
  request-Delegates :
      (slow : Bool) (ask : Ask) (obo : OnBehalf)
      → obo.sub ≡ sub
      → (obo.token == "") ≡ false
      → Delegates d sub Whatever (request_on_behalf env slow ask obo)
  unfolding request_on_behalf ◌>>=◌ sample emit ret
  request-Delegates slow ask obo h k = record {
    at = λ s p. (((h, λ e. ground (arith, eq_iff obo.token "")), p), tt);
  }

  pub do_on_behalf-Delegates :
      (slow : Bool) (ask : Ask) (obo : OnBehalf)
      → obo.sub ≡ sub
      → Delegates d sub Whatever (do_on_behalf env slow ask obo)
  unfolding do_on_behalf
  do_on_behalf-Delegates slow ask obo h =
      Safe-if _ _ _ (λ k. Safe-ret _ tt) (λ k. request-Delegates slow ask obo h k)

  pub do_json-Delegates :
      {A : Type 0} (ask : Ask) (obo : OnBehalf) (decode : String → Option A) (zero : A)
      → obo.sub ≡ sub
      → Delegates d sub Whatever (do_json env ask obo decode zero)
  unfolding do_json
  do_json-Delegates ask obo decode zero h =
      Safe-bind _ _ (do_on_behalf-Delegates false ask obo h) λ r q. Safe-ret _ tt

  pub do_json_slow-Delegates :
      {A : Type 0} (ask : Ask) (obo : OnBehalf) (decode : String → Option A) (zero : A)
      → obo.sub ≡ sub
      → Delegates d sub Whatever (do_json_slow env ask obo decode zero)
  unfolding do_json_slow
  do_json_slow-Delegates ask obo decode zero h =
      Safe-bind _ _ (do_on_behalf-Delegates true ask obo h) λ r q. Safe-ret _ tt

  pub with_json-Delegates :
      {A : Type 0} (p : Payload) (call : Content → M Db (Result A))
      → ((c : Content) → Delegates d sub Whatever (call c))
      → Delegates d sub Whatever (with_json env p call)
  unfolding with_json
  with_json-Delegates p call h =
      Safe-if (env.marshals p) (call (json_content p)) (ret (err bad_json)) (λ k. h _)
        (λ k. Safe-ret _ tt)

-- The value that is not an error keeps what was known of it.
abbrev pub IfOk : {A : Type 0} → (A → Type 0) → Result A → Type 0
IfOk Q (ok a) = Q a
IfOk Q (err e) = Unit

module _ {Db : Type 0} {A : Type 0} {P : List Effect → Type 0} {d : Bool} where
  pub or_relay-Safe : (r : Result A) → Safe P (Responds d) Whatever (or_relay {Db = Db} r)
  unfolding or_relay
  or_relay-Safe (ok a) = Safe-ret a tt
  or_relay-Safe (err e) = Safe-reply _ tt

  pub some_or-Safe :
      (r : Reply) (o : Option A) → Safe P (Responds d) Whatever (some_or {Db = Db} r o)
  unfolding some_or
  some_or-Safe r none = Safe-reply _ tt
  some_or-Safe r (some a) = Safe-ret a tt

  pub decoded_body-Safe : (r : Result A) → Safe P (Responds d) Whatever (decoded_body {Db = Db} r)
  unfolding decoded_body
  decoded_body-Safe (ok a) = Safe-ret a tt
  decoded_body-Safe (err e) = Safe-reply _ tt

  pub or_reply-Safe :
      {Q : A → Type 0} (r : Reply) (x : Result A)
      → IfOk Q x
      → Safe P (Responds d) Q (or_reply {Db = Db} r x)
  unfolding or_reply
  or_reply-Safe r (ok a) q = Safe-ret a q
  or_reply-Safe r (err e) q = Safe-reply _ tt

  pub or_reply_any :
      (r : Reply) (x : Result A) → Safe P (Responds d) Whatever (or_reply {Db = Db} r x)
  unfolding or_reply
  or_reply_any r (ok a) = Safe-ret a tt
  or_reply_any r (err e) = Safe-reply _ tt

module _ {Db : Type 0} {P : List Effect → Type 0} {d : Bool} where
  pub ready-Safe :
      (code : String) (b : Bool) → Safe P (Responds d) Whatever (ready {Db = Db} code b)
  unfolding ready
  ready-Safe code true = Safe-ret _ tt
  ready-Safe code false = Safe-reply _ tt

  pub require-Safe : (b : Bool) (r : Reply) → Safe P (Responds d) Whatever (require {Db = Db} b r)
  unfolding require
  require-Safe true r = Safe-ret _ tt
  require-Safe false r = Safe-reply _ tt

-- The session object stays the same person's, with what the sign-in captured.
abbrev pub SamePerson : Session → Session → Type 0
SamePerson sess s =
    (s.subject ≡ sess.subject)
    × (s.key ≡ sess.key)
    × (s.csrf ≡ sess.csrf)
    × (s.capabilities ≡ sess.capabilities)
    × (sess.refresh_token ≢ "" → s.refresh_token ≢ "")

pub stored_session-SamePerson :
    (sess s : Session)
    → SamePerson sess s
    → (r : Result (Unit {0})) → IfOk (SamePerson sess) (stored_session s r)
unfolding stored_session
stored_session-SamePerson sess s h (ok u) = h
stored_session-SamePerson sess s h (err e) = tt

pub apply_tokens-SamePerson :
    (now : ℕ) (tokens : Tokens) (sess : Session) → SamePerson sess (apply_tokens now tokens sess)
unfolding apply_tokens
apply_tokens-SamePerson now tokens sess =
    (refl, refl, refl, refl, λ n e. ground (arith, eq_iff tokens.refresh_token ""))

module _ {Db Key Any : Type 0} {d : Bool} (env : Env Db Key Any) (sub : String) where
  pub put_session-Safe :
      (sid : String) (sess : Session) → Delegates d sub Whatever (put_session env sid sess)
  unfolding put_session
  put_session-Safe sid sess = search (Safe-then, Safe-sample, Safe-on_store)

  pub ask_refresh-Safe :
      (key : Key) (token : String) → Delegates d sub Whatever (ask_refresh env key token)
  unfolding ask_refresh
  ask_refresh-Safe key token =
      Safe-then _ _ (emit-Delegates sub _ tt) λ u. search (Safe-then, Safe-sample, Safe-ret)

  store_tokens-Safe :
      (sid : String) (sess : Session) (tokens : Result Tokens)
      → Delegates d sub (IfOk (SamePerson sess)) (store_tokens env sid sess tokens)
  unfolding store_tokens
  store_tokens-Safe sid sess (err e) = Safe-ret _ tt
  store_tokens-Safe sid sess (ok tokens) = Safe-then _ _ (Safe-sample _) λ now.
      Safe-then _ _ (put_session-Safe sid _) λ stored.
        Safe-ret _
          (stored_session-SamePerson sess _ (apply_tokens-SamePerson now tokens sess) stored)

  refresh_with-Safe :
      (sid : String) (sess : Session) (key : Result Key)
      → Delegates d sub (IfOk (SamePerson sess)) (refresh_with env sid sess key)
  unfolding refresh_with
  refresh_with-Safe sid sess (err e) = Safe-ret _ tt
  refresh_with-Safe sid sess (ok key) =
      Safe-then _ _ (ask_refresh-Safe key _) λ tokens. store_tokens-Safe sid sess tokens

  pub document_read-Delegates :
      (user id : String) → user ≡ sub → Delegates d sub Whatever (document_read env user id)
  unfolding document_read
  document_read-Delegates user id h =
      Safe-if (not env.has_access_audit || user == "") (ret tt) (emit (access_recorded user id))
        (λ k. Safe-ret _ tt) (λ k. emit-Delegates sub _ h)

  -- Whatever the Auth Service answers, a session that comes back has the subject, the key, the
  -- anti-forgery token and the capabilities it had, and has a refresh token if it had one; and if all
  -- calls so far were made for a subject with a token, that is still so.
  pub fresh_token-Safe :
      (sid : String) (sess : Session)
      → Delegates d sub (IfOk (SamePerson sess)) (fresh_token env sid sess)
  unfolding fresh_token
  fresh_token-Safe sid sess = Safe-then _ _ (Safe-sample _) λ now.
      Safe-if (is_fresh now sess) (ret (ok sess))
        (refresh_with env sid sess (parse_key env.format sess.key))
        (λ k. Safe-ret (ok sess) (refl, refl, refl, refl, λ n. n))
        (λ k. refresh_with-Safe sid sess _)

  pub on_behalf-Safe :
      (sid : String) (sess : Session)
      → Delegates d sub
          (λ who. (who.obo.sub ≡ sess.subject) × SamePerson sess who.session)
          (on_behalf env sid sess)
  unfolding on_behalf
  on_behalf-Safe sid sess =
      Safe-bind _ _ (fresh_token-Safe sid sess)
        λ r q. Safe-bind _ _ (or_reply-Safe _ r q) λ s same. Safe-ret _ (same.0, same)

  -- A handler that acts for the user of its session.
  pub Safe-acting :
      {A : Type 0} {Q : A → Type 0} (sid : String) (sess : Session) (f : Acting → M Db A)
      → sess.subject ≡ sub
      → ((who : Acting) → who.obo.sub ≡ sub → Delegates d sub Q (f who))
      → Delegates d sub Q (on_behalf env sid sess >>= f)
  Safe-acting sid sess f e h = Safe-bind _ _ (on_behalf-Safe sid sess) λ who q. h who (q.0 ∙ e)
