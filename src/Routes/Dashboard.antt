-- ===== src/Routes/Dashboard.antt =====
-- routes/dashboard.go: the rows of the library view. A Go set is the list of its keys.
pub mod Order
pub mod Homes
pub mod Latest
pub mod Rows
pub mod Listed
pub mod Destroyed
pub mod Retention
pub mod Soonest
use signbyte_bff.Base.{
  ℕ, String, Bool, true, false, not, List, [], ◌∷◌, ◌++◌, Option, none, some, ltb, nat_eq, keep,
  contains, Map, lookup, insert, text_lt, map, ◌==◌, ◌&&◌, ◌||◌, if◌then◌else◌,
}
use signbyte_bff.Clients.Types.{Summary, SigningTask, ChainRow}

pub record DashboardResponse : Type 0 where
  pub tasks : List SigningTask
  pub envelopes : List Summary
  pub chains : List ChainRow

abbrev pub is_empty {ℓ} : {A : Type ℓ} → List A → Bool
is_empty [] = true
is_empty (x ∷ xs) = false

-- `covered`: the documents of the user's envelopes, then those of the signing tasks
unfoldable pub covered : List Summary → List SigningTask → List String
covered [] [] = []
covered [] (tk ∷ tasks) = tk.envelope.doc_ids ++ covered [] tasks
covered (e ∷ envs) tasks = e.doc_ids ++ covered envs tasks

unfoldable pub standalone : List Summary → List SigningTask → List ChainRow → List ChainRow
standalone envs tasks chains =
    let ids = covered envs tasks in
    keep (λ c. not (contains ids c.chain_root_id || contains ids c.id)) chains

-- `live`: the ids, root or head, of the listed chains; an empty id names nothing
unfoldable pub live : List ChainRow → List String
live [] = []
live (c ∷ chains) =
    let rest = live chains in
    let with_head = if c.id == "" then rest else c.id ∷ rest in
    if c.chain_root_id == "" then with_head else c.chain_root_id ∷ with_head

abbrev pub terminal : List String
terminal = "completed" ∷ "declined" ∷ "cancelled" ∷ "expired" ∷ []

-- the loop that looks for one document that is still listed
unfoldable pub resolved : List String → List String → Bool
resolved ids [] = false
resolved ids (doc ∷ docs) = contains ids doc || resolved ids docs

unfoldable pub without_destroyed_chains : List Summary → List ChainRow → List Summary
without_destroyed_chains envs chains =
    if is_empty envs || is_empty chains
    then envs
    else keep
        (λ e. not (
          contains terminal e.status
          && not (is_empty e.doc_ids)
          && not (resolved (live chains) e.doc_ids)))
        envs

-- one round of the loop over a chain's two ids
unfoldable pub note_until : ℕ → Map ℕ → String → Map ℕ
note_until t until id = if id == "" then until else elim (lookup id until) [
  | none ↦ insert id t until
  | some cur ↦ if ltb t cur then insert id t until else until
]

unfoldable pub untils : Map ℕ → List ChainRow → Map ℕ
untils until [] = until
untils until (c ∷ chains) =
    untils
      (if nat_eq c.retention_until 0
        then until
        else note_until c.retention_until (note_until c.retention_until until c.chain_root_id) c.id)
      chains

-- one round of the loop over an envelope's documents; 0 is the zero time
unfoldable pub better : ℕ → Option ℕ → ℕ
better best none = best
better best (some t) = if nat_eq best 0 || ltb t best then t else best

unfoldable pub soonest : Map ℕ → ℕ → List String → ℕ
soonest until best [] = best
soonest until best (doc ∷ docs) = soonest until (better best (lookup doc until)) docs

-- `rfc3339` is `t.UTC().Format(time.RFC3339)`
unfoldable pub stamp : (ℕ → String) → Map ℕ → Summary → Summary
stamp rfc3339 until e =
    let t = soonest until 0 e.doc_ids in
    if nat_eq t 0 then e else record e { retention_until = rfc3339 t }

unfoldable pub with_retention : (ℕ → String) → List Summary → List ChainRow → List Summary
with_retention rfc3339 envs chains =
    if is_empty envs || is_empty chains then envs else map (stamp rfc3339 (untils [] chains)) envs

unfoldable pub acted_later : Summary → Summary → Bool
acted_later a b =
    if a.updated_at == b.updated_at then text_lt b.id a.id else text_lt b.updated_at a.updated_at

unfoldable pub home_doc : Summary → Map Summary → String → Map Summary
home_doc e home doc = elim (lookup doc home) [
  | none ↦ insert doc e home
  | some cur ↦ if acted_later e cur then insert doc e home else home
]

unfoldable pub home_docs : Summary → Map Summary → List String → Map Summary
home_docs e home [] = home
home_docs e home (doc ∷ docs) = home_docs e (home_doc e home doc) docs

unfoldable pub homes : Map Summary → List Summary → Map Summary
homes home [] = home
homes home (e ∷ envs) = homes (home_docs e home e.doc_ids) envs

unfoldable pub latest_per_chain : List Summary → List Summary
latest_per_chain envs =
    let ids = map (λ b. b.1.id) (homes [] envs) in
    keep (λ e. is_empty e.doc_ids || contains ids e.id) envs

-- the rows of the answer, from the three listings
unfoldable pub compose :
    (ℕ → String) → List SigningTask → List Summary → List ChainRow → DashboardResponse
compose rfc3339 tasks envs chains = record {
  tasks = tasks;
  envelopes =
      with_retention rfc3339 (latest_per_chain (without_destroyed_chains envs chains)) chains;
  chains = standalone envs tasks chains;
}
