-- ===== src/Routes/Sign/Begun.antt =====
-- What is so at each call that begins a signing, carried through the steps that begin none.
use signbyte_bff.Base.{
  ℕ, String, Bool, true, false, ◌==◌, List, [], ◌∷◌, Option, ◌≡◌, ◌≢◌, refl, arith, eq_iff, inl,
  inr, Bool-cases, if◌then◌else◌,
}
use signbyte_bff.Errors.{Result, ok, err, bad_json}
use signbyte_bff.Session.{Session}
use signbyte_bff.Session.Keys.{parse_key}
use signbyte_bff.Server.{
  Env, Effect, Call, OnBehalf, Tokens, called, refreshed, Payload, Content, json_content,
  begin_payload,
}
use signbyte_bff.Server.Monad.{M, Reply, ret, reply, ◌>>=◌, emit, sample}
use signbyte_bff.Clients.Calls.{
  Ask, do_json, do_json_slow, do_on_behalf, request_on_behalf, with_json,
}
use signbyte_bff.Clients.Envelope.{set_slot_job}
use signbyte_bff.Clients.Signflow.{begin_signing}
use signbyte_bff.Clients.Types.{BeginInput}
use signbyte_bff.Routes.Relay.{require, decoded_body}
use signbyte_bff.Routes.Token.{
  is_fresh, ask_refresh, put_session, store_tokens, refresh_with, fresh_token, on_behalf,
}
use signbyte_bff.Routes.Sign.Triple.{
  Triple, Stays, Stays-bind, Stays-ret, Stays-sample, Stays-if, staying,
}

-- Each call that begins a signing is one of `B`, with the effects before it.
abbrev pub Begins : (Call → List Effect → Type 0) → List Effect → Type 0
Begins B [] = Unit
Begins B (called c r ∷ earlier) = (c.scope ≡ "signatures:create" → B c earlier) × Begins B earlier
Begins B (e ∷ earlier) = Begins B earlier

module _ {Db Key Any : Type 0} (env : Env Db Key Any) (B : Call → List Effect → Type 0) where
  abbrev pub Keeps : {A : Type 0} → M Db A → Type 0
  Keeps m = Stays (Begins B) m

  refreshed-Keeps : (token : String) → Keeps (emit (refreshed token))
  unfolding emit
  refreshed-Keeps token = record { at = λ s p. p }

  ask_refresh-Keeps : (key : Key) (token : String) → Keeps (ask_refresh env key token)
  unfolding ask_refresh
  ask_refresh-Keeps key token = search (staying, refreshed-Keeps) depth 8

  put_session-Keeps : (sid : String) (sess : Session) → Keeps (put_session env sid sess)
  unfolding put_session
  put_session-Keeps sid sess = search staying depth 8

  store_tokens-Keeps :
      (sid : String) (sess : Session) (tokens : Result Tokens)
      → Keeps (store_tokens env sid sess tokens)
  unfolding store_tokens
  store_tokens-Keeps sid sess (err e) = Stays-ret _
  store_tokens-Keeps sid sess (ok tokens) = search (staying, put_session-Keeps) depth 8

  refresh_with-Keeps :
      (sid : String) (sess : Session) (key : Result Key) → Keeps (refresh_with env sid sess key)
  unfolding refresh_with
  refresh_with-Keeps sid sess (err e) = Stays-ret _
  refresh_with-Keeps sid sess (ok key) =
      search (staying, ask_refresh-Keeps, store_tokens-Keeps) depth 8

  token_from-Keeps :
      (sid : String) (sess : Session) (now : ℕ)
      → Keeps (
          if is_fresh now sess
          then ret (ok sess)
          else refresh_with env sid sess (parse_key env.format sess.key))
  token_from-Keeps sid sess now =
      Stays-if (is_fresh now sess) (ret (ok sess))
        (refresh_with env sid sess (parse_key env.format sess.key)) (Stays-ret _)
        (refresh_with-Keeps sid sess _)

  fresh_token-Keeps : (sid : String) (sess : Session) → Keeps (fresh_token env sid sess)
  unfolding fresh_token
  fresh_token-Keeps sid sess = Stays-bind _ _ (Stays-sample _) λ now. token_from-Keeps sid sess now

  pub on_behalf-Keeps : (sid : String) (sess : Session) → Keeps (on_behalf env sid sess)
  unfolding on_behalf
  on_behalf-Keeps sid sess = search (staying, fresh_token-Keeps) depth 8

  -- The outcome of a call that begins no signing.
  pub do_json-Keeps :
      {A : Type 0} (asked : Ask) (obo : OnBehalf) (decode : String → Option A) (zero : A)
      → asked.scope ≢ "signatures:create"
      → Keeps (do_json env asked obo decode zero)
  unfolding do_json do_on_behalf request_on_behalf ◌>>=◌ sample emit ret
  do_json-Keeps asked obo decode zero ne = record {
    at = λ s p. elim (Bool-cases (obo.token == "")) [
      | inl k ↦ rw k p
      | inr k ↦ rw k (λ e. absurd (ne e), p)
    ];
  }

  pub with_json-Keeps :
      {A : Type 0} (p : Payload) (call : Content → M Db (Result A))
      → ((c : Content) → Keeps (call c))
      → Keeps (with_json env p call)
  unfolding with_json
  with_json-Keeps p call h =
      Stays-if (env.marshals p) (call (json_content p)) (ret (err bad_json)) (h _) (Stays-ret _)

  pub set_slot_job-Keeps :
      (obo : OnBehalf) (e t job : String) → Keeps (set_slot_job env obo e t job)
  unfolding set_slot_job
  set_slot_job-Keeps obo e t job = with_json-Keeps _ _ λ c.
      do_json-Keeps _ obo _ tt
        λ k. ground (arith, eq_iff "envelopes:transition" "signatures:create")

  -- A signing that is begun has `B`, so that what began it has it.
  pub begin_signing-Keeps :
      (obo : OnBehalf) (input : BeginInput)
      → Triple
          (λ trace.
            Begins B trace
            × ((c : Call) → c.content ≡ json_content (begin_payload input) → B c trace))
          (λ r. Begins B)
          (Begins B)
          (begin_signing env obo input)
  unfolding begin_signing with_json do_json_slow do_on_behalf request_on_behalf ◌>>=◌ sample emit
      ret
  begin_signing-Keeps obo input = record {
    at = λ s p. elim (Bool-cases (env.marshals (begin_payload input))) [
      | inl m ↦ elim (Bool-cases (obo.token == "")) [
        | inl k ↦ rw (m, k) p.0
        | inr k ↦ rw (m, k) (λ e. p.1 _ refl, p.0)
      ]
      | inr m ↦ rw m p.0
    ];
  }

  -- A body that was decoded is known.
  pub decoded_body-Keeps :
      {A : Type 0} (body : Result A)
      → Triple
          (Begins B)
          (λ a trace. Begins B trace × (body ≡ ok a))
          (Begins B)
          (decoded_body {Db = Db} body)
  unfolding decoded_body ret reply
  decoded_body-Keeps (ok a) = record { at = λ s p. (p, refl) }
  decoded_body-Keeps (err x) = record { at = λ s p. p }

  -- A requirement that was met is known.
  pub require-Keeps :
      (K : Type 0) (b : Bool) (r : Reply)
      → Triple
          (λ trace. Begins B trace × K)
          (λ u trace. Begins B trace × (K × (b ≡ true)))
          (Begins B)
          (require {Db = Db} b r)
  unfolding require ret reply
  require-Keeps K true r = record { at = λ s p. (p.0, (p.1, refl)) }
  require-Keeps K false r = record { at = λ s p. p.0 }
