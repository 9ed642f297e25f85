-- ===== src/Answers.antt =====
-- anscache.go: the short-lived cache of validation answers, as an interface with its contract.
pub mod Memory
pub mod Redis
pub mod Laws
use signbyte_bff.Base.{ℕ, ◌+◌, ◌≤◌, ◌<◌, String, ◌≡◌, ◌≢◌, Option, none, some}

-- A cache over the state `C`. The first argument of an operation is the time at which it runs.
pub record AnswerCache (C : Type 0) : Type 0 where
  pub get : ℕ → String → C → Option String × C
  pub set : ℕ → String → String → C → C

-- What the comments promise, for states that the cache can be in and for sets that stored the value: it
-- is there for its lifetime and not longer, no other key changes, and reading changes nothing.
pub record IsAnswerCache {C : Type 0} (cache : AnswerCache C) (ttl : ℕ) (IsValid : C → Type 0)
    (IsStored : ℕ → String → String → C → Type 0) : Type 0 where
  pub get-IsValid : (t : ℕ) (k : String) (c : C) → IsValid c → IsValid (cache.get t k c).1
  pub set-IsValid : (t : ℕ) (k v : String) (c : C) → IsValid c → IsValid (cache.set t k v c)
  pub get-set_live :
      (t u : ℕ) (k v : String) (c : C)
      → IsValid c
      → IsStored t k v c
      → u < t + ttl
      → (cache.get u k (cache.set t k v c)).0 ≡ some v
  pub get-set_expired :
      (t u : ℕ) (k v : String) (c : C)
      → IsValid c
      → IsStored t k v c
      → t + ttl < u
      → (cache.get u k (cache.set t k v c)).0 ≡ none
  pub get-set_ne :
      (t u : ℕ) (k j v : String) (c : C)
      → IsValid c
      → t ≤ u
      → k ≢ j
      → (cache.get u j (cache.set t k v c)).0 ≡ (cache.get u j c).0
  pub get-get :
      (t u : ℕ) (k j : String) (c : C)
      → IsValid c
      → t ≤ u
      → (cache.get u j (cache.get t k c).1).0 ≡ (cache.get u j c).0
