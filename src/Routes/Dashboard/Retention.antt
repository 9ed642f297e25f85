-- ===== src/Routes/Dashboard/Retention.antt =====
-- The auto-delete instant that an envelope is stamped with.
use signbyte_bff.Base.{
  ℕ, ℕ_discrete, ◌≤◌, String, ◌≢◌, ◌≡◌, sym, ◌∙◌, ◌⊎◌, inl, inr, true, false, List, [], ◌∷◌, none,
  some, arith, eq_iff, Option-cases, Map, lookup, lookup-insert, ◌==◌, if◌then◌else◌, ltb, nat_eq,
}
use signbyte_bff.Clients.Types.{ChainRow}
use signbyte_bff.Routes.Dashboard.{note_until, untils}
use signbyte_bff.Routes.Dashboard.Listed.{IsAddressed}

-- A chain of the list addressed by `id` has the auto-delete instant `t`.
abbrev pub HasRetention : List ChainRow → String → ℕ → Type 0
HasRetention [] id t = ⊥
HasRetention (c ∷ chains) id t =
    (IsAddressed c id × (c.retention_until ≡ t) × (t ≢ 0)) ⊎ HasRetention chains id t

-- What the `until` map holds after the chains in `seen`.
record Bounds (seen : List ChainRow) (until : Map ℕ) : Type 0 where
  known : (id : String) (t : ℕ) → lookup id until ≡ some t → HasRetention seen id t
  least :
      (id : String) (t : ℕ)
      → HasRetention seen id t
      → (u : ℕ) × (lookup id until ≡ some u) × (u ≤ t)

-- The value under `j` after one round.
lookup-note_until :
    (t : ℕ) (until : Map ℕ) (id j : String)
    → lookup j (note_until t until id) ≡ (
        if id == ""
        then lookup j until
        else if id == j
        then elim (lookup j until) [
          | none ↦ some t
          | some cur ↦ some (if ltb t cur then t else cur)
        ]
        else lookup j until)
unfolding note_until
lookup-note_until t until id j = ground (arith, eq_iff id j, lookup-insert id j t until)

noted : ChainRow → Map ℕ → Map ℕ
noted c until =
    note_until c.retention_until (note_until c.retention_until until c.chain_root_id) c.id

noted-known :
    (c : ChainRow) (seen : List ChainRow) (until : Map ℕ)
    → c.retention_until ≢ 0
    → Bounds seen until
    → (id : String) (t : ℕ) → lookup id (noted c until) ≡ some t
    → HasRetention (c ∷ seen) id t
unfolding noted
noted-known c seen until pos b id t p = ground (
  arith,
  eq_iff c.id id,
  eq_iff c.chain_root_id id,
  eq_iff c.id "",
  eq_iff c.chain_root_id "",
  lookup-note_until c.retention_until (note_until c.retention_until until c.chain_root_id) c.id id,
  lookup-note_until c.retention_until until c.chain_root_id id,
  b.known id t,
)

noted-found :
    (c : ChainRow) (seen : List ChainRow) (until : Map ℕ)
    → c.retention_until ≢ 0
    → Bounds seen until
    → (id : String) (t : ℕ) → HasRetention (c ∷ seen) id t
    → lookup id (noted c until) ≢ none
unfolding noted
noted-found c seen until pos b id t h p = ground (
  arith,
  eq_iff c.id id,
  eq_iff c.chain_root_id id,
  eq_iff c.id "",
  eq_iff c.chain_root_id "",
  lookup-note_until c.retention_until (note_until c.retention_until until c.chain_root_id) c.id id,
  lookup-note_until c.retention_until until c.chain_root_id id,
  b.least id t,
)

noted-le :
    (c : ChainRow) (seen : List ChainRow) (until : Map ℕ)
    → c.retention_until ≢ 0
    → Bounds seen until
    → (id : String) (t u : ℕ) → HasRetention (c ∷ seen) id t
    → lookup id (noted c until) ≡ some u
    → u ≤ t
unfolding noted
noted-le c seen until pos b id t u h p = ground (
  arith,
  eq_iff c.id id,
  eq_iff c.chain_root_id id,
  eq_iff c.id "",
  eq_iff c.chain_root_id "",
  lookup-note_until c.retention_until (note_until c.retention_until until c.chain_root_id) c.id id,
  lookup-note_until c.retention_until until c.chain_root_id id,
  b.least id t,
)

noted-Bounds :
    (c : ChainRow) (seen : List ChainRow) (until : Map ℕ)
    → c.retention_until ≢ 0
    → Bounds seen until
    → Bounds (c ∷ seen) (noted c until)
noted-Bounds c seen until pos b = record {
  known = noted-known c seen until pos b;
  least = λ id t h. elim (Option-cases (lookup id (noted c until))) [
    | inl p ↦ absurd (noted-found c seen until pos b id t h p)
    | inr (u, p) ↦ (u, p, noted-le c seen until pos b id t u h p)
  ];
}

-- A chain without an instant adds nothing.
zero-Bounds :
    (c : ChainRow) (seen : List ChainRow) (until : Map ℕ)
    → c.retention_until ≡ 0
    → Bounds seen until
    → Bounds (c ∷ seen) until
zero-Bounds c seen until zero b = record {
  known = λ id t p. inr (b.known id t p);
  least = λ id t h. elim h [ inl (a, e, n) ↦ absurd (n (sym e ∙ zero)) | inr k ↦ b.least id t k ];
}

onto : List ChainRow → List ChainRow → List ChainRow
onto seen [] = seen
onto seen (c ∷ chains) = onto (c ∷ seen) chains

untils-Bounds :
    (seen : List ChainRow) (until : Map ℕ) (chains : List ChainRow)
    → Bounds seen until
    → Bounds (onto seen chains) (untils until chains)
unfolding untils onto note_until noted
untils-Bounds seen until [] b = b
untils-Bounds seen until (c ∷ chains) b = elim (ℕ_discrete c.retention_until 0) [
  | yes e ↦
      let test : nat_eq c.retention_until 0 ≡ true = ground arith in
      rw test (untils-Bounds (c ∷ seen) until chains (zero-Bounds c seen until e b))
  | no ne ↦
      let test : nat_eq c.retention_until 0 ≡ false = ground arith in
      rw test (untils-Bounds (c ∷ seen) (noted c until) chains (noted-Bounds c seen until ne b))
]

onto-old :
    (seen chains : List ChainRow) (id : String) (t : ℕ)
    → HasRetention seen id t
    → HasRetention (onto seen chains) id t
unfolding onto
onto-old seen [] id t h = h
onto-old seen (c ∷ chains) id t h = onto-old (c ∷ seen) chains id t (inr h)

onto-new :
    (seen chains : List ChainRow) (id : String) (t : ℕ)
    → HasRetention chains id t
    → HasRetention (onto seen chains) id t
unfolding onto
onto-new seen [] id t h = absurd h
onto-new seen (c ∷ chains) id t (inl h) = onto-old (c ∷ seen) chains id t (inl h)
onto-new seen (c ∷ chains) id t (inr h) = onto-new (c ∷ seen) chains id t h

onto-from :
    (seen chains : List ChainRow) (id : String) (t : ℕ)
    → HasRetention (onto seen chains) id t
    → HasRetention seen id t ⊎ HasRetention chains id t
unfolding onto
onto-from seen [] id t h = inl h
onto-from seen (c ∷ chains) id t h = elim (onto-from (c ∷ seen) chains id t h) [
  | inl (inl k) ↦ inr (inl k)
  | inl (inr k) ↦ inl k
  | inr k ↦ inr (inr k)
]

empty-Bounds : Bounds [] []
unfolding lookup
empty-Bounds = record { known = λ id t p. cc; least = λ id t h. absurd h }

pub lookup-untils :
    (chains : List ChainRow) (id : String) (t : ℕ)
    → lookup id (untils [] chains) ≡ some t
    → HasRetention chains id t
lookup-untils chains id t p =
    elim (onto-from [] chains id t ((untils-Bounds [] [] chains empty-Bounds).known id t p)) [
      | inl h ↦ absurd h
      | inr h ↦ h
    ]

pub untils-least :
    (chains : List ChainRow) (id : String) (t : ℕ)
    → HasRetention chains id t
    → (u : ℕ) × (lookup id (untils [] chains) ≡ some u) × (u ≤ t)
untils-least chains id t h =
    (untils-Bounds [] [] chains empty-Bounds).least id t (onto-new [] chains id t h)
