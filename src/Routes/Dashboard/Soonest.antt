-- ===== src/Routes/Dashboard/Soonest.antt =====
-- `withRetention` stamps an envelope with the soonest of its documents' instants.
use signbyte_bff.Base.{
  ℕ, ◌≤◌, String, ◌≢◌, ◌≡◌, ap, sym, ◌∙◌, refl, ◌⊎◌, inl, inr, List, [], ◌∷◌, Option, none, some,
  arith, Option-cases, Map, lookup, map, In,
}
use native.Mathlib.Nat.{le_trans}
use mathlib.Core.Path.{subst}
use signbyte_bff.Clients.Types.{Summary, ChainRow}
use signbyte_bff.Routes.Dashboard.{untils, better, soonest, stamp, with_retention}
use signbyte_bff.Routes.Dashboard.Retention.{HasRetention, lookup-untils, untils-least}

abbrev IsPositive : Map ℕ → Type 0
IsPositive until = (doc : String) (t : ℕ) → lookup doc until ≡ some t → t ≢ 0

better_bounds :
    (until : Map ℕ) (best : ℕ) (doc : String)
    → IsPositive until
    → best ≢ 0
    → (better best (lookup doc until) ≢ 0) × (better best (lookup doc until) ≤ best)
unfolding better
better_bounds until best doc pos h = elim (Option-cases (lookup doc until)) [
  | inl p ↦ rw p (h, omega arith)
  | inr (t, p) ↦ let q = pos doc t p in rw p (ground arith, ground arith)
]

better_found :
    (until : Map ℕ) (best : ℕ) (doc : String) (t : ℕ)
    → IsPositive until
    → lookup doc until ≡ some t
    → (better best (lookup doc until) ≢ 0) × (better best (lookup doc until) ≤ t)
unfolding better
better_found until best doc t pos p = let q = pos doc t p in rw p (ground arith, ground arith)

-- The loop only goes down from an instant that it has.
soonest_bounds :
    (until : Map ℕ) (best : ℕ) (docs : List String)
    → IsPositive until
    → best ≢ 0
    → (soonest until best docs ≢ 0) × (soonest until best docs ≤ best)
unfolding soonest
soonest_bounds until best [] pos h = (h, omega arith)
soonest_bounds until best (doc ∷ docs) pos h =
    let (ne, le) = better_bounds until best doc pos h in
    let (ne', le') = soonest_bounds until (better best (lookup doc until)) docs pos ne in
    (ne', omega arith)

soonest_found :
    (until : Map ℕ) (best : ℕ) (docs : List String) (doc : String) (t : ℕ)
    → IsPositive until
    → In doc docs
    → lookup doc until ≡ some t
    → (soonest until best docs ≢ 0) × (soonest until best docs ≤ t)
unfolding soonest
soonest_found until best [] doc t pos m p = absurd m
soonest_found until best (d ∷ docs) doc t pos (inl e) p =
    let (ne, le) = better_found until best d t pos (rw e at p) in
    let (ne', le') = soonest_bounds until (better best (lookup d until)) docs pos ne in
    (ne', omega arith)
soonest_found until best (d ∷ docs) doc t pos (inr m) p =
    soonest_found until (better best (lookup d until)) docs doc t pos m p

better_source : (best : ℕ) (o : Option ℕ) → (better best o ≡ best) ⊎ (o ≡ some (better best o))
unfolding better
better_source best none = inl refl
better_source best (some t) = ground arith

-- What the loop returns is where it began, or the instant of a document.
soonest_source :
    (until : Map ℕ) (best : ℕ) (docs : List String)
    → (soonest until best docs ≡ best)
      ⊎ ((doc : String) × In doc docs × (lookup doc until ≡ some (soonest until best docs)))
unfolding soonest
soonest_source until best [] = inl refl
soonest_source until best (d ∷ docs) =
    elim (soonest_source until (better best (lookup d until)) docs) [
      | inl e ↦ elim (better_source best (lookup d until)) [
        | inl q ↦ inl (e ∙ q)
        | inr q ↦ inr (d, inl refl, q ∙ ap some (sym e))
      ]
      | inr (doc, m, p) ↦ inr (doc, inr m, p)
    ]

-- `t` is the soonest auto-delete instant of the documents, as the listed chains give it.
abbrev pub IsSoonest : List ChainRow → List String → ℕ → Type 0
IsSoonest chains docs t =
    ((doc : String) × In doc docs × HasRetention chains doc t)
    × ((doc : String) (u : ℕ) → In doc docs → HasRetention chains doc u → t ≤ u)

abbrev pub IsUnknown : List ChainRow → List String → Type 0
IsUnknown chains docs = (doc : String) (t : ℕ) → In doc docs → HasRetention chains doc t → ⊥

HasRetention-pos :
    (chains : List ChainRow) (doc : String) (t : ℕ) → HasRetention chains doc t → t ≢ 0
HasRetention-pos [] doc t h = absurd h
HasRetention-pos (c ∷ chains) doc t (inl (a, e, n)) = n
HasRetention-pos (c ∷ chains) doc t (inr h) = HasRetention-pos chains doc t h

untils-IsPositive : (chains : List ChainRow) → IsPositive (untils [] chains)
untils-IsPositive chains doc t p = HasRetention-pos chains doc t (lookup-untils chains doc t p)

soonest-IsSoonest :
    (chains : List ChainRow) (docs : List String)
    → let t = soonest (untils [] chains) 0 docs in
      ((t ≡ 0) × IsUnknown chains docs) ⊎ ((t ≢ 0) × IsSoonest chains docs t)
soonest-IsSoonest chains docs = elim (soonest_source until 0 docs) [
  | inl zero' ↦ inl (
    zero',
    λ doc t m h.
        let (u, p, le) = untils-least chains doc t h in
        (soonest_found until 0 docs doc u pos m p).0 zero',
  )
  | inr (doc, m, p) ↦ inr (
    pos doc _ p,
    (
      (doc, m, lookup-untils chains doc _ p),
      λ d u k h.
          let (v, q, le) = untils-least chains d u h in
          le_trans (soonest_found until 0 docs d v pos k q).1 le,
    ),
  )
]
  where
    until : Map ℕ
    until = untils [] chains

    pos : IsPositive until
    pos = untils-IsPositive chains

stamp_zero :
    (rfc3339 : ℕ → String) (until : Map ℕ) (e : Summary)
    → soonest until 0 e.doc_ids ≡ 0
    → stamp rfc3339 until e ≡ e
unfolding stamp
stamp_zero rfc3339 until e h = simp h

stamp_some :
    (rfc3339 : ℕ → String) (until : Map ℕ) (e : Summary)
    → soonest until 0 e.doc_ids ≢ 0
    → stamp rfc3339 until e ≡ record e { retention_until = rfc3339 (soonest until 0 e.doc_ids) }
unfolding stamp
stamp_some rfc3339 until e h = ground arith

In-map : {A B : Type 0} (f : A → B) (xs : List A) (x : A) → In x xs → In (f x) (map f xs)
In-map f [] x m = m
In-map f (y ∷ xs) x (inl e) = inl (ap f e)
In-map f (y ∷ xs) x (inr m) = inr (In-map f xs x m)

-- While the listing shows a chain, each envelope comes back stamped with the soonest instant of its
-- documents, and unchanged exactly when none of them has one.
pub with_retention-IsSoonest :
    (rfc3339 : ℕ → String) (envs : List Summary) (chains : List ChainRow) (e : Summary)
    → chains ≢ []
    → In e envs
    → (IsUnknown chains e.doc_ids × In e (with_retention rfc3339 envs chains))
      ⊎ ((t : ℕ) × IsSoonest chains e.doc_ids t
          × In (record e { retention_until = rfc3339 t }) (with_retention rfc3339 envs chains))
unfolding with_retention
with_retention-IsSoonest rfc3339 [] chains e ne m = absurd m
with_retention-IsSoonest rfc3339 (x ∷ envs) [] e ne m = absurd (ne refl)
with_retention-IsSoonest rfc3339 (x ∷ envs) (c ∷ chains) e ne m =
    elim (soonest-IsSoonest (c ∷ chains) e.doc_ids) [
      | inl (z, unknown) ↦
          inl (unknown, subst rows (stamp_zero rfc3339 (untils [] (c ∷ chains)) e z) stamped)
      | inr (p, h) ↦
          inr (_, h, subst rows (stamp_some rfc3339 (untils [] (c ∷ chains)) e p) stamped)
    ]
  where
    rows : Summary → Type 0
    rows x' = In x' (map (stamp rfc3339 (untils [] (c ∷ chains))) (x ∷ envs))

    stamped :
        In
          (stamp rfc3339 (untils [] (c ∷ chains)) e)
          (map (stamp rfc3339 (untils [] (c ∷ chains))) (x ∷ envs))
    stamped = In-map (stamp rfc3339 (untils [] (c ∷ chains))) (x ∷ envs) e m
