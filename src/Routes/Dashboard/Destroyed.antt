-- ===== src/Routes/Dashboard/Destroyed.antt =====
-- Which terminal envelopes the library view drops.
use signbyte_bff.Base.{
  String, ◌≢◌, ◌≡◌, refl, ◌↔◌, ◌⊎◌, inl, inr, Bool, true, not, List, [], ◌∷◌, arith, Bool-cases,
  contains, ◌&&◌, In, In-keep, keep-In, contains→In, In→contains,
}
use signbyte_bff.Clients.Types.{Summary, ChainRow}
use signbyte_bff.Routes.Dashboard.{is_empty, live, terminal, resolved, without_destroyed_chains}
use signbyte_bff.Routes.Dashboard.Listed.{IsListed, live→IsListed, IsListed→live}

resolved→doc :
    (ids docs : List String) → resolved ids docs ≡ true → (doc : String) × In doc docs × In doc ids
unfolding resolved
resolved→doc ids [] h = cc
resolved→doc ids (doc ∷ docs) h = elim (Bool-cases (contains ids doc)) [
  | inl k ↦ (doc, inl refl, contains→In ids doc k)
  | inr k ↦ let (d, m, n) = resolved→doc ids docs (ground arith) in (d, inr m, n)
]

doc→resolved :
    (ids docs : List String) (doc : String) → In doc docs → In doc ids → resolved ids docs ≡ true
unfolding resolved
doc→resolved ids [] doc m n = absurd m
doc→resolved ids (d ∷ docs) doc (inl e) n = ground (arith, In→contains ids d (rw e at n))
doc→resolved ids (d ∷ docs) doc (inr m) n = ground (arith, doc→resolved ids docs doc m n)

abbrev pub IsTerminal : String → Type 0
IsTerminal status = In status terminal

-- The reason for an envelope not to be dropped.
abbrev pub IsKept : List ChainRow → Summary → Type 0
IsKept chains e =
    (¬ (IsTerminal e.status))
    ⊎ (e.doc_ids ≡ [])
    ⊎ ((doc : String) × In doc e.doc_ids × IsListed chains doc)

nonempty : (docs : List String) → is_empty docs ≡ true → docs ≡ []
nonempty [] h = refl
nonempty (d ∷ docs) h = cc

keeps_row : (chains : List ChainRow) (e : Summary) → Bool
keeps_row chains e = not (
    contains terminal e.status
    && not (is_empty e.doc_ids)
    && not (resolved (live chains) e.doc_ids))

keeps_row→IsKept :
    (chains : List ChainRow) (e : Summary) → keeps_row chains e ≡ true → IsKept chains e
unfolding keeps_row
keeps_row→IsKept chains e h = elim (Bool-cases (contains terminal e.status)) [
  | inr k ↦ inl (λ t. ground (arith, In→contains terminal e.status t))
  | inl k ↦ elim (Bool-cases (is_empty e.doc_ids)) [
    | inl n ↦ inr (inl (nonempty e.doc_ids n))
    | inr n ↦
        let (d, m, q) = resolved→doc (live chains) e.doc_ids (ground arith) in
        inr (inr (d, m, live→IsListed chains d q))
  ]
]

IsKept→keeps_row :
    (chains : List ChainRow) (e : Summary) → IsKept chains e → keeps_row chains e ≡ true
unfolding keeps_row
IsKept→keeps_row chains e (inl h) = elim (Bool-cases (contains terminal e.status)) [
  | inl k ↦ absurd (h (contains→In terminal e.status k))
  | inr k ↦ rw k
]
IsKept→keeps_row chains e (inr (inl h)) = rw h (ground arith)
IsKept→keeps_row chains e (inr (inr (doc, m, l))) =
    ground (arith, doc→resolved (live chains) e.doc_ids doc m (IsListed→live chains doc l))

-- While the listing shows a chain at all, an envelope is dropped exactly if it is terminal, has
-- documents, and none of them is listed any more.
pub without_destroyed_chains_iff :
    (envs : List Summary) (chains : List ChainRow) (e : Summary)
    → chains ≢ []
    → In e (without_destroyed_chains envs chains) ↔ (In e envs × IsKept chains e)
unfolding without_destroyed_chains
without_destroyed_chains_iff [] chains e ne = (λ m. absurd m, λ p. absurd p.0)
without_destroyed_chains_iff (x ∷ envs) [] e ne = absurd (ne refl)
without_destroyed_chains_iff (x ∷ envs) (c ∷ chains) e ne = (
  (λ m.
      let (l, k) = In-keep (keeps_row (c ∷ chains)) (x ∷ envs) e (unfold keeps_row in m) in
      (l, keeps_row→IsKept (c ∷ chains) e k)),
  (λ p.
      unfold keeps_row in
      keep-In (keeps_row (c ∷ chains)) (x ∷ envs) e p.0 (IsKept→keeps_row (c ∷ chains) e p.1)),
)

-- An empty listing drops nothing.
pub without_destroyed_chains_unlisted :
    (envs : List Summary) → without_destroyed_chains envs [] ≡ envs
unfolding without_destroyed_chains
without_destroyed_chains_unlisted [] = refl
without_destroyed_chains_unlisted (e ∷ envs) = refl
