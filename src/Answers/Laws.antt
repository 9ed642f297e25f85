-- ===== src/Answers/Laws.antt =====
-- The two caches keep the contract of `AnswerCache`.
use signbyte_bff.Base.{
  ℕ, ◌+◌, ◌≤◌, String, ◌≡◌, refl, ap, arith, eq_iff, eq_refl, inl, inr, ◌==◌, Option, none, some,
  [], ◌∷◌, Option-cases, ltb, Map, lookup, remove, keep, IsMap, insert-IsMap, lookup-insert,
  lookup-remove, if◌then◌else◌,
}
use signbyte_bff.Errors.{ok}
use signbyte_bff.Session.Redis.{Redis}
use signbyte_bff.Session.Redis.Laws.{IsRedis}
use signbyte_bff.Answers.{IsAnswerCache}
use signbyte_bff.Answers.Memory.{
  MemoryAnswerEntry, MemoryAnswerCache, read_entry, is_live, memory_answers,
}
use signbyte_bff.Answers.Memory as Memory
use signbyte_bff.Answers.Redis as Shared
use signbyte_bff.Answers.Redis.{or_none, redis_answers}

-- What a read at a time gives for an entry.
abbrev live_value : ℕ → Option MemoryAnswerEntry → Option String
live_value now none = none
live_value now (some e) = if ltb e.exp now then none else some e.val

get_lem :
    (now : ℕ) (k : String) (c : MemoryAnswerCache)
    → (Memory.get now k c).0 ≡ live_value now (lookup k c.m)
unfolding Memory.get read_entry
get_lem now k c = elim (Option-cases (lookup k c.m)) [
  | inl p ↦ rw p refl
  | inr (e, p) ↦ rw p (ground arith)
]

-- The sweep keeps the entries that live.
lookup-keep_live :
    (now : ℕ) (k : String) (m : Map MemoryAnswerEntry)
    → IsMap m
    → lookup k (keep (is_live now) m)
      ≡ (elim (lookup k m) [ none ↦ none | some e ↦ if ltb e.exp now then none else some e ])
unfolding lookup keep
lookup-keep_live now k [] h = refl
lookup-keep_live now k ((j, e) ∷ m) (fresh, h) =
    ground (arith, lookup-keep_live now k m h, eq_iff j k)

keep-IsMap : (now : ℕ) (m : Map MemoryAnswerEntry) → IsMap m → IsMap (keep (is_live now) m)
unfolding keep
keep-IsMap now [] h = tt
keep-IsMap now ((j, e) ∷ m) (fresh, h) =
    ground (arith, keep-IsMap now m h, lookup-keep_live now j m h, fresh)

remove-IsMap : (k : String) (m : Map MemoryAnswerEntry) → IsMap m → IsMap (remove k m)
unfolding remove
remove-IsMap k [] h = tt
remove-IsMap k ((j, e) ∷ m) (fresh, h) =
    ground (arith, remove-IsMap k m h, lookup-remove k j m, eq_iff j k, eq_iff k j, fresh)

-- A state that was built with a lifetime, with one entry for a key.
abbrev pub IsValid : ℕ → MemoryAnswerCache → Type 0
IsValid ttl c = (c.ttl ≡ ttl) × IsMap c.m

module _ (t u : ℕ) (k : String) (c : MemoryAnswerCache) where
  -- Reading removes at most an entry that has expired.
  live_value-get :
      (j : String)
      → t ≤ u
      → live_value u (lookup j (Memory.get t k c).1.m) ≡ live_value u (lookup j c.m)
  unfolding Memory.get read_entry
  live_value-get j le = elim (Option-cases (lookup k c.m)) [
    | inl p ↦ rw p refl
    | inr (e, p) ↦ rw p (ground (arith, p, lookup-remove k j c.m, eq_iff k j, le))
  ]

  live_value-set :
      (j v : String)
      → t ≤ u
      → IsMap c.m
      → live_value u (lookup j (Memory.set t k v c).m) ≡ (
          if k == j
          then live_value u (some (record { val = v; exp = t + c.ttl }))
          else live_value u (lookup j c.m))
  unfolding Memory.set
  live_value-set j v le h = elim (Option-cases (lookup j c.m)) [
    | inl p ↦ ground (
      arith,
      p,
      lookup-insert k j (record { val = v; exp = t + c.ttl }) (keep (is_live t) c.m),
      lookup-keep_live t j c.m h,
    )
    | inr (e, p) ↦ ground (
      arith,
      p,
      le,
      lookup-insert k j (record { val = v; exp = t + c.ttl }) (keep (is_live t) c.m),
      lookup-keep_live t j c.m h,
    )
  ]

  get-set_same :
      (v : String)
      → (Memory.get u k (Memory.set t k v c)).0 ≡ (if ltb (t + c.ttl) u then none else some v)
  unfolding Memory.set
  get-set_same v = rw (get_lem u k (Memory.set t k v c)) (
      ground (
        arith,
        lookup-insert k k (record { val = v; exp = t + c.ttl }) (keep (is_live t) c.m),
        eq_refl k,
      ))

memory_get-IsValid :
    (ttl t : ℕ) (k : String) (c : MemoryAnswerCache)
    → IsValid ttl c
    → IsValid ttl (Memory.get t k c).1
unfolding Memory.get read_entry
memory_get-IsValid ttl t k c (e, h) = elim (Option-cases (lookup k c.m)) [
  | inl p ↦ rw p (e, h)
  | inr (x, p) ↦ rw p (ground (arith, e, h, remove-IsMap k c.m h))
]

memory_set-IsValid :
    (ttl t : ℕ) (k v : String) (c : MemoryAnswerCache)
    → IsValid ttl c
    → IsValid ttl (Memory.set t k v c)
unfolding Memory.set
memory_set-IsValid ttl t k v c (e, h) = (e, insert-IsMap k _ _ (keep-IsMap t c.m h))

-- The in-process cache keeps the contract of `AnswerCache`, with the lifetime it was built with: every
-- set stores, from any state with one entry for a key.
pub memory_answers-IsAnswerCache :
    (ttl : ℕ) → IsAnswerCache memory_answers ttl (IsValid ttl) (λ t k v c. Unit)
memory_answers-IsAnswerCache ttl = record {
  get-IsValid = memory_get-IsValid ttl;
  set-IsValid = memory_set-IsValid ttl;
  get-set_live = λ t u k v c h stored lt. ground (arith, get-set_same t u k c v, h.0);
  get-set_expired = λ t u k v c h stored lt. ground (arith, get-set_same t u k c v, h.0);
  get-set_ne = λ t u k j v c h le ne. ground (
    arith,
    get_lem u j (Memory.set t k v c),
    get_lem u j c,
    live_value-set t u k c j v le h.1,
    eq_iff k j,
  );
  get-get = λ t u k j c h le.
      ground (arith, get_lem u j (Memory.get t k c).1, get_lem u j c, live_value-get t u k c j le);
}

-- The cache in Redis keeps it for the sets that Redis carried out, for a client whose commands do what
-- Redis documents.
pub redis_answers-IsAnswerCache :
    {R : Type 0} (client : Redis R) (laws : IsRedis client) (ttl : ℕ)
    → IsAnswerCache
        (redis_answers client ttl)
        ttl
        (λ r. Unit)
        (λ t k v r. (client.set t k v ttl r).0 ≡ ok tt)
unfolding Shared.get Shared.set or_none
redis_answers-IsAnswerCache client laws ttl = record {
  get-IsValid = λ t k c h. tt;
  set-IsValid = λ t k v c h. tt;
  get-set_live = λ t u k v c h stored lt. ap or_none (
      laws.get-set_live t u ttl k v c (client.set t k v ttl c).1
        (λ i. (stored i, (client.set t k v ttl c).1)) lt);
  get-set_expired = λ t u k v c h stored lt. ap or_none (
      laws.get-set_expired t u ttl k v c (client.set t k v ttl c).1
        (λ i. (stored i, (client.set t k v ttl c).1)) lt);
  get-set_ne = λ t u k j v c h le ne. ap or_none (laws.get-set_ne t u ttl k j v c ne);
  get-get = λ t u k j c h le. refl;
}
