-- ===== src/Routes/Quiet.antt =====
-- The actions that never reply: the calls of the clients, and the refreshing of a token.
use signbyte_bff.Base.{String, refl, Bool, true, false, Option, ◌==◌, ℤ}
use signbyte_bff.Errors.{Result, ok, err, missing_token, bad_json}
use signbyte_bff.Session.{Session}
use signbyte_bff.Session.Keys.{parse_key}
use signbyte_bff.Server.{Env, Effect, OnBehalf, Tokens, Payload, Content, json_content}
use signbyte_bff.Server.Monad.{M, Reply, ret, emit}
use signbyte_bff.Server.Safe.{
  Safe, Any as Whatever, Safe-then, Safe-ret, Safe-if, Safe-sample, Safe-on_store,
}
use signbyte_bff.Clients.Calls.{
  Ask, request_on_behalf, do_on_behalf, do_json, do_json_slow, with_json,
}
use signbyte_bff.Clients.Envelope.{capture_signer_name}
use signbyte_bff.Clients.Envelope as Envelope
use signbyte_bff.Clients.Signflow.{status}
use signbyte_bff.Clients.Document.{metadata}
use signbyte_bff.Routes.Delegation.Base.{
  IfOk, SamePerson, stored_session-SamePerson, apply_tokens-SamePerson,
}
use signbyte_bff.Routes.Token.{
  is_fresh, ask_refresh, put_session, store_tokens, refresh_with, fresh_token,
}

abbrev pub Quiet : {Db A : Type 0} → (Option Reply → Type 0) → M Db A → Type 0
Quiet R m = Safe (λ t. Unit {0}) R Whatever m

module _ {Db Key Any : Type 0} (env : Env Db Key Any) (R : Option Reply → Type 0) where
  -- A session that is the same person's, if any.
  abbrev Keeps : Session → M Db (Result Session) → Type 0
  Keeps sess m = Safe (λ t. Unit {0}) R (IfOk (SamePerson sess)) m

  emit-Quiet : (e : Effect) → Quiet R (emit {Db = Db} e)
  unfolding emit
  emit-Quiet e = record { at = λ s p. (tt, tt) }

  request-Quiet :
      (slow : Bool) (ask : Ask) (obo : OnBehalf) → Quiet R (request_on_behalf env slow ask obo)
  unfolding request_on_behalf
  request-Quiet slow ask obo = search (Safe-then, Safe-sample, emit-Quiet, Safe-ret)

  do_on_behalf-Quiet :
      (slow : Bool) (ask : Ask) (obo : OnBehalf) → Quiet R (do_on_behalf env slow ask obo)
  unfolding do_on_behalf
  do_on_behalf-Quiet slow ask obo =
      Safe-if (obo.token == "") (ret (err (missing_token ask.service)))
        (request_on_behalf env slow ask obo) (λ k. Safe-ret _ tt) (λ k. request-Quiet slow ask obo)

  do_json-Quiet :
      {A : Type 0} (ask : Ask) (obo : OnBehalf) (decode : String → Option A) (zero : A)
      → Quiet R (do_json env ask obo decode zero)
  unfolding do_json
  do_json-Quiet ask obo decode zero =
      Safe-then _ _ (do_on_behalf-Quiet false ask obo) λ r. Safe-ret _ tt

  do_json_slow-Quiet :
      {A : Type 0} (ask : Ask) (obo : OnBehalf) (decode : String → Option A) (zero : A)
      → Quiet R (do_json_slow env ask obo decode zero)
  unfolding do_json_slow
  do_json_slow-Quiet ask obo decode zero =
      Safe-then _ _ (do_on_behalf-Quiet true ask obo) λ r. Safe-ret _ tt

  with_json-Quiet :
      {A : Type 0} (p : Payload) (call : Content → M Db (Result A))
      → ((c : Content) → Quiet R (call c))
      → Quiet R (with_json env p call)
  unfolding with_json
  with_json-Quiet p call h =
      Safe-if (env.marshals p) (call (json_content p)) (ret (err bad_json)) (λ k. h _)
        (λ k. Safe-ret _ tt)

  pub status-Quiet : (obo : OnBehalf) (job : String) (wait : ℤ) → Quiet R (status env obo job wait)
  unfolding status
  status-Quiet obo job wait = do_json_slow-Quiet _ _ _ _

  pub metadata-Quiet : (obo : OnBehalf) (id : String) → Quiet R (metadata env obo id)
  unfolding metadata
  metadata-Quiet obo id = do_json-Quiet _ _ _ _

  pub get-Quiet : (obo : OnBehalf) (id : String) → Quiet R (Envelope.get env obo id)
  unfolding Envelope.get
  get-Quiet obo id = do_json-Quiet _ _ _ _

  pub capture_signer_name-Quiet :
      (obo : OnBehalf) (id slot name : String) → Quiet R (capture_signer_name env obo id slot name)
  unfolding capture_signer_name
  capture_signer_name-Quiet obo id slot name = with_json-Quiet _ _ λ c. do_json-Quiet _ _ _ _

  put_session-Quiet : (sid : String) (sess : Session) → Quiet R (put_session env sid sess)
  unfolding put_session
  put_session-Quiet sid sess = search (Safe-then, Safe-sample, Safe-on_store)

  ask_refresh-Quiet : (key : Key) (token : String) → Quiet R (ask_refresh env key token)
  unfolding ask_refresh
  ask_refresh-Quiet key token = search (Safe-then, emit-Quiet, Safe-sample, Safe-ret)

  store_tokens-Quiet :
      (sid : String) (sess : Session) (r : Result Tokens) → Keeps sess (store_tokens env sid sess r)
  unfolding store_tokens
  store_tokens-Quiet sid sess (err e) = Safe-ret _ tt
  store_tokens-Quiet sid sess (ok tokens) = Safe-then _ _ (Safe-sample _) λ now.
      Safe-then _ _ (put_session-Quiet sid _) λ stored.
        Safe-ret _
          (stored_session-SamePerson sess _ (apply_tokens-SamePerson now tokens sess) stored)

  refresh_with-Quiet :
      (sid : String) (sess : Session) (r : Result Key) → Keeps sess (refresh_with env sid sess r)
  unfolding refresh_with
  refresh_with-Quiet sid sess (err e) = Safe-ret _ tt
  refresh_with-Quiet sid sess (ok key) =
      Safe-then _ _ (ask_refresh-Quiet key _) λ r. store_tokens-Quiet sid sess r

  pub fresh_token-Quiet : (sid : String) (sess : Session) → Keeps sess (fresh_token env sid sess)
  unfolding fresh_token
  fresh_token-Quiet sid sess = Safe-then _ _ (Safe-sample _) λ now.
      Safe-if (is_fresh now sess) (ret (ok sess))
        (refresh_with env sid sess (parse_key env.format sess.key))
        (λ k. Safe-ret (ok sess) (refl, refl, refl, refl, λ n. n))
        (λ k. refresh_with-Quiet sid sess _)
