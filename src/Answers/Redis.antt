-- ===== src/Answers/Redis.antt =====
-- anscache.go, `redisAnswerCache`: the cache in the Redis of the sessions.
use signbyte_bff.Base.{ℕ, String, Option, none}
use signbyte_bff.Errors.{Result, ok, err}
use signbyte_bff.Session.Redis.{Redis}
use signbyte_bff.Answers.{AnswerCache}

-- any failure is a missing answer
unfoldable pub or_none : Result (Option String) → Option String
or_none (ok b) = b
or_none (err e) = none

module _ {R : Type 0} (client : Redis R) (ttl : ℕ) where
  unfoldable pub get : ℕ → String → R → Option String × R
  get now key r = (or_none (client.get now key r), r)

  -- a failed store is not an error
  unfoldable pub set : ℕ → String → String → R → R
  set now key val r = (client.set now key val ttl r).1

  abbrev pub redis_answers : AnswerCache R
  redis_answers = record { get = get; set = set }
