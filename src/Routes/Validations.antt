-- ===== src/Routes/Validations.antt =====
-- routes/anscache.go, and the two validations that it serves: `validateDocument` of
-- routes/documents.go and `signatureValidation` of routes/signing.go.
pub mod Keys
pub mod Cached
pub mod Apart
pub mod Forced
use Prim.Native.String.{◌++◌}
use signbyte_bff.Base.{ℕ, String, Bool, true, false, [], ◌∷◌, Option, none, some}
use signbyte_bff.Session.{Session}
use signbyte_bff.Answers.{AnswerCache}
use signbyte_bff.Server.{Env, Request, Validation}
use signbyte_bff.Server.Monad.{
  M, Reply, json, raw, validation_answer, ret, reply, ◌>>=◌, ◌>>◌, sample, on_store,
}
use signbyte_bff.Clients.Signflow as Signflow
use signbyte_bff.Routes.Relay.{or_relay, ready}
use signbyte_bff.Routes.Token.{on_behalf}

unfoldable pub answer_key : String → String → String → String
answer_key sub kind id = "va:" ++ sub ++ ":" ++ kind ++ ":" ++ id

unfoldable pub is_forced : Option Bool → Bool
is_forced none = false
is_forced (some f) = f

unfoldable pub force_requested : Request → Bool
force_requested req = is_forced (req.query_bool "force")

abbrev pub cached_reply : String → Reply
cached_reply b = raw 200 b (("Content-Type", "application/json") ∷ [])

module _ {Db Key Any : Type 0} (env : Env Db Key Any) where
  -- the cached answer, if there is a cache and no fresh round is asked for
  unfoldable pub cached : Option (AnswerCache Db) → Bool → String → M Db (Option String)
  cached none forced key = ret none
  cached (some c) true key = ret none
  cached (some c) false key = do now ← sample env.now; on_store (c.get now key)

  unfoldable pub served : Option String → M Db (Unit {0})
  served none = ret tt
  served (some b) = reply (cached_reply b)

  -- `serveCachedAnswer`, and the handler's return when it was served
  unfoldable pub serve_cached_answer : Request → String → M Db (Unit {0})
  serve_cached_answer req key = do
    found ← cached env.answers (force_requested req) key
    served found

  unfoldable pub set_answer : Option (AnswerCache Db) → String → Option String → M Db (Unit {0})
  set_answer none key b = ret tt
  set_answer (some c) key none = ret tt
  set_answer (some c) key (some b) = do
    now ← sample env.now
    on_store (λ d. (tt, c.set now key b d))

  unfoldable pub store_answer : String → Validation → M Db (Unit {0})
  store_answer key v = set_answer env.answers key (env.marshal_validation v)

  unfoldable pub validate_document : Request → String → Session → M Db (Unit {0})
  validate_document req sid sess = do
    ready "err:signing:notConfigured" env.has_signflow
    who ← on_behalf env sid sess
    let key : String = answer_key who.obo.sub "doc" (req.param "id")
    serve_cached_answer req key
    answer ← Signflow.validate_document env who.obo (req.param "id")
    out ← or_relay answer
    store_answer key out
    reply (json 200 (validation_answer out))

  unfoldable pub signature_validation : Request → String → Session → M Db (Unit {0})
  signature_validation req sid sess = do
    ready "err:signing:notConfigured" env.has_signflow
    who ← on_behalf env sid sess
    let key : String = answer_key who.obo.sub "sig" (req.param "sigId")
    serve_cached_answer req key
    answer ← Signflow.validate env who.obo (req.param "sigId")
    out ← or_relay answer
    store_answer key out
    reply (json 200 (validation_answer out))
