-- ===== src/Answers/Memory.antt =====
-- anscache.go, `memoryAnswerCache`. An operation runs whole under the cache's mutex.
use signbyte_bff.Base.{
  ℕ, ◌+◌, String, Bool, not, [], Option, none, some, ltb, Map, lookup, insert, remove, keep,
  if◌then◌else◌,
}
use signbyte_bff.Answers.{AnswerCache}

pub record MemoryAnswerEntry : Type 0 where
  pub val : String
  pub exp : ℕ

pub record MemoryAnswerCache : Type 0 where
  pub ttl : ℕ
  pub m : Map MemoryAnswerEntry

unfoldable pub new_memory_answer_cache : ℕ → MemoryAnswerCache
new_memory_answer_cache ttl = record { ttl = ttl; m = [] }

-- what `Get` does with the entry it found
unfoldable pub read_entry :
    ℕ → String → Option MemoryAnswerEntry → MemoryAnswerCache → Option String × MemoryAnswerCache
read_entry now key none c = (none, c)
read_entry now key (some e) c =
    if ltb e.exp now then (none, record c { m = remove key c.m }) else (some e.val, c)

unfoldable pub get : ℕ → String → MemoryAnswerCache → Option String × MemoryAnswerCache
get now key c = read_entry now key (lookup key c.m) c

-- `!now.After(e.exp)`
abbrev pub is_live : ℕ → String × MemoryAnswerEntry → Bool
is_live now e = not (ltb e.1.exp now)

unfoldable pub set : ℕ → String → String → MemoryAnswerCache → MemoryAnswerCache
set now key val c = record c {
  m = insert key (record { val = val; exp = now + c.ttl }) (keep (is_live now) c.m);
}

abbrev pub memory_answers : AnswerCache MemoryAnswerCache
memory_answers = record { get = get; set = set }
