-- ===== src/Routes/Validations/Cached.antt =====
-- What the cache of answers saves and what it never skips.
use signbyte_bff.Base.{ℕ, suc, ◌+◌, ◌<◌, String, true, false, some, ◌≡◌, refl, ap, ◌∙◌}
use signbyte_bff.Session.{Session}
use signbyte_bff.Answers.{AnswerCache, IsAnswerCache}
use signbyte_bff.Server.{Env, Request, Validation}
use signbyte_bff.Server.Monad.{value, replied, St, ret, reply, ◌>>=◌, sample, on_store}
use signbyte_bff.Routes.Relay.{ready, or_reply}
use signbyte_bff.Routes.Token.{is_fresh, fresh_token, on_behalf}
use signbyte_bff.Routes.Validations.{
  answer_key, force_requested, cached, served, serve_cached_answer, set_answer, store_answer,
  cached_reply, validate_document, signature_validation,
}

module _ {Db Key Any : Type 0} (env : Env Db Key Any) where
  -- `on_behalf` with a token that is still good changes nothing but reads the clock.
  pub on_behalf-fresh :
      (sid : String) (sess : Session) (s : St Db)
      → is_fresh (env.now s.step) sess ≡ true
      → on_behalf env sid sess s ≡ (
        value (record {
          obo = record { sub = sess.subject; token = sess.access_token };
          session = sess;
        }),
        record s { step = suc s.step },
      )
  unfolding on_behalf fresh_token ◌>>=◌ sample ret or_reply
  on_behalf-fresh sid sess s f = rw f refl

module _ {Db Key Any : Type 0} (env : Env Db Key Any) (c : AnswerCache Db)
    (on : env.answers ≡ some c) where
  -- The state after a lookup of the cache.
  abbrev pub looked : String → St Db → St Db
  looked key s = record s { db = (c.get (env.now s.step) key s.db).1; step = suc s.step }

  pub serve-hit :
      (req : Request) (key b : String) (s : St Db)
      → force_requested req ≡ false
      → (c.get (env.now s.step) key s.db).0 ≡ some b
      → serve_cached_answer env req key s ≡ (replied (cached_reply b), looked key s)
  unfolding serve_cached_answer cached served ◌>>=◌ sample on_store reply ret
  serve-hit req key b s f h = simp (on, f, h) refl

  -- A validation of a document whose answer is cached replies with it and has no effect but the lookup:
  -- where no fresh round is asked for and the token is good.
  pub validate_document-hit :
      (req : Request) (sid b : String) (sess : Session) (s : St Db)
      → env.has_signflow ≡ true
      → is_fresh (env.now s.step) sess ≡ true
      → force_requested req ≡ false
      → (c.get (env.now (suc s.step)) (answer_key sess.subject "doc" (req.param "id")) s.db).0
        ≡ some b
      → validate_document env req sid sess s ≡ (
        replied (cached_reply b),
        looked (answer_key sess.subject "doc" (req.param "id")) (record s { step = suc s.step }),
      )
  unfolding validate_document ready ret ◌>>=◌
  validate_document-hit req sid b sess s r f g h =
      simp
        (
          r,
          on_behalf-fresh env sid sess s f,
          serve-hit req (answer_key sess.subject "doc" (req.param "id")) b
              (record s { step = suc s.step }) g h,
        )
        refl

  -- So does the validation of a signature.
  pub signature_validation-hit :
      (req : Request) (sid b : String) (sess : Session) (s : St Db)
      → env.has_signflow ≡ true
      → is_fresh (env.now s.step) sess ≡ true
      → force_requested req ≡ false
      → (c.get (env.now (suc s.step)) (answer_key sess.subject "sig" (req.param "sigId")) s.db).0
        ≡ some b
      → signature_validation env req sid sess s ≡ (
        replied (cached_reply b),
        looked (answer_key sess.subject "sig" (req.param "sigId")) (record s { step = suc s.step }),
      )
  unfolding signature_validation ready ret ◌>>=◌
  signature_validation-hit req sid b sess s r f g h =
      simp
        (
          r,
          on_behalf-fresh env sid sess s f,
          serve-hit req (answer_key sess.subject "sig" (req.param "sigId")) b
              (record s { step = suc s.step }) g h,
        )
        refl

  -- An answer that was stored under a key is served under it, without any effect, while it lives and no
  -- fresh round is asked for: for a cache that keeps its contract, an answer that can be encoded, and a
  -- store from a valid state that the cache carried out.
  pub serve-store :
      (ttl : ℕ) (IsValid : Db → Type 0) (IsStored : ℕ → String → String → Db → Type 0)
      (req : Request) (key b : String) (v : Validation) (s t : St Db)
      → IsAnswerCache c ttl IsValid IsStored
      → IsValid s.db
      → IsStored (env.now s.step) key b s.db
      → env.marshal_validation v ≡ some b
      → force_requested req ≡ false
      → t.db ≡ (store_answer env key v s).1.db
      → env.now t.step < env.now s.step + ttl
      → ((serve_cached_answer env req key t).0 ≡ replied (cached_reply b))
        × ((serve_cached_answer env req key t).1.trace ≡ t.trace)
  serve-store ttl IsValid IsStored req key b v s t laws valid stored m g d lt =
      let hit = serve-hit req key b t g (held) in (ap (λ o. o.0) hit, ap (λ o. o.1.trace) hit)
    where
      written : (store_answer env key v s).1.db ≡ c.set (env.now s.step) key b s.db
      written = unfold store_answer set_answer ◌>>=◌ sample on_store in simp (on, m) refl

      held : (c.get (env.now t.step) key t.db).0 ≡ some b
      held =
          ap (λ x. (c.get (env.now t.step) key x).0) (d ∙ written)
          ∙ laws.get-set_live (env.now s.step) (env.now t.step) key b s.db valid stored lt
