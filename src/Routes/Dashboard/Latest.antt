-- ===== src/Routes/Dashboard/Latest.antt =====
-- Which envelopes `latestPerChain` keeps.
use signbyte_bff.Base.{
  In-lookup, lookup-In, String, ◌≢◌, ◌≡◌, ap, sym, ◌∙◌, refl, ◌↔◌, ◌⊎◌, inl, inr, true, false, List,
  [], ◌∷◌, arith, Bool-cases, contains, Map, map, In, In-keep, keep-In, contains→In, In→contains,
}
use signbyte_bff.Clients.Types.{Summary}
use signbyte_bff.Routes.Dashboard.{is_empty, acted_later, homes, latest_per_chain}
use signbyte_bff.Routes.Dashboard.Order.{acted_later_irrefl, acted_later_total, not_both}
use signbyte_bff.Routes.Dashboard.Homes.{IsHome, lookup-homes-IsHome, homes-IsMap, homes-covers}

-- `b.ID` is among the ids of the homes exactly when an entry carries it.
ids-of_entry :
    (m : Map Summary) (doc : String) (h : Summary) → In (doc, h) m → In h.id (map (λ b. b.1.id) m)
ids-of_entry [] doc h p = p
ids-of_entry (b ∷ m) doc h (inl e) = inl (ap (λ p. p.1.id) e)
ids-of_entry (b ∷ m) doc h (inr p) = inr (ids-of_entry m doc h p)

entry-of_ids :
    (m : Map Summary) (k : String)
    → In k (map (λ b. b.1.id) m)
    → (doc : String) × (h : Summary) × In (doc, h) m × (h.id ≡ k)
entry-of_ids [] k p = elim p [ ]
entry-of_ids ((doc, h) ∷ m) k (inl e) = (doc, h, inl refl, sym e)
entry-of_ids ((doc, h) ∷ m) k (inr p) = let (d, x, q, e) = entry-of_ids m k p in (d, x, inr q, e)

-- Two homes of one document carry one identifier.
IsHome-id_unique :
    (envs : List Summary) (doc : String) (a b : Summary)
    → IsHome envs doc a
    → IsHome envs doc b
    → a.id ≡ b.id
IsHome-id_unique envs doc a b h k =
    ground
      (arith, acted_later_total a b, h.latest b k.listed k.covers, k.latest a h.listed h.covers)

-- The reason for an envelope to keep its row.
abbrev pub HasRow : List Summary → Summary → Type 0
HasRow envs e =
    (e.doc_ids ≡ []) ⊎ ((doc : String) × (h : Summary) × IsHome envs doc h × (h.id ≡ e.id))

is_empty→nil : (docs : List String) → is_empty docs ≡ true → docs ≡ []
is_empty→nil [] h = refl
is_empty→nil (d ∷ docs) h = cc

-- An envelope is kept exactly if it is listed and has no documents, or carries the identifier of the
-- envelope that acted last on some document.
pub latest_per_chain_iff :
    (envs : List Summary) (e : Summary) → In e (latest_per_chain envs) ↔ (In e envs × HasRow envs e)
unfolding latest_per_chain
latest_per_chain_iff envs e = (to, from)
  where
    ids : List String
    ids = map (λ b. b.1.id) (homes [] envs)

    to : In e (latest_per_chain envs) → In e envs × HasRow envs e
    to m =
        let (listed, kept) = In-keep _ envs e m in
        (
          listed,
          elim (Bool-cases (is_empty e.doc_ids)) [
            | inl h ↦ inl (is_empty→nil e.doc_ids h)
            | inr h ↦
                let (doc, x, p, q) =
                  entry-of_ids (homes [] envs) e.id (contains→In ids e.id (rw h at kept)) in
                inr (
                  doc,
                  x,
                  lookup-homes-IsHome envs doc x (In-lookup doc x _ (homes-IsMap [] envs tt) p),
                  q,
                )
          ],
        )

    from : In e envs × HasRow envs e → In e (latest_per_chain envs)
    from (listed, inl p) = keep-In _ envs e listed (rw p)
    from (listed, inr (doc, h, home, p)) =
        let (x, q) = homes-covers envs h doc home.listed home.covers in
        let same : e.id ≡ x.id =
          sym p ∙ IsHome-id_unique envs doc h x home (lookup-homes-IsHome envs doc x q) in
        let kept : contains ids e.id ≡ true =
          In→contains ids e.id
            (rw same (ids-of_entry (homes [] envs) doc x (lookup-In doc x _ q))) in
        keep-In _ envs e listed (ground arith)

-- No document loses its row: a document of a listed envelope is covered by a kept one, which is the
-- envelope that acted last on it.
pub latest_per_chain-covers :
    (envs : List Summary) (e : Summary) (doc : String)
    → In e envs
    → In doc e.doc_ids
    → (h : Summary) × In h (latest_per_chain envs) × IsHome envs doc h
latest_per_chain-covers envs e doc m d =
    let (h, p) = homes-covers envs e doc m d in
    let home = lookup-homes-IsHome envs doc h p in
    (h, (latest_per_chain_iff envs h).1 (home.listed, inr (doc, h, home, refl)), home)

only_doc : {x y : String} → In x (y ∷ []) → x ≡ y
only_doc (inl e) = e
only_doc (inr z) = absurd z

not_later : (a b : Summary) → acted_later b a ≡ true → acted_later a b ≡ false
not_later a b h = elim (Bool-cases (acted_later a b)) [
  | inl k ↦ absurd (not_both a b k h)
  | inr k ↦ k
]

-- One document can still occupy two rows: an envelope over two documents keeps its row for the first
-- while a newer envelope over the second has one too.
pub latest_per_chain_shared :
    (a b : Summary) (first second : String)
    → a.doc_ids ≡ first ∷ second ∷ []
    → b.doc_ids ≡ second ∷ []
    → first ≢ second
    → acted_later b a ≡ true
    → In a (latest_per_chain (b ∷ a ∷ [])) × In b (latest_per_chain (b ∷ a ∷ []))
latest_per_chain_shared a b first second p q ne later = (
  (latest_per_chain_iff (b ∷ a ∷ []) a).1 (inr (inl refl), inr (first, a, home_a, refl)),
  (latest_per_chain_iff (b ∷ a ∷ []) b).1 (inl refl, inr (second, b, home_b, refl)),
)
  where
    home_a : IsHome (b ∷ a ∷ []) first a
    home_a = record {
      listed = inr (inl refl);
      covers = rw p (inl refl);
      latest = λ e m d. elim m [
        | inl x ↦ absurd (ne (only_doc (rw q at (rw x at d))))
        | inr (inl x) ↦ rw x (acted_later_irrefl a)
        | inr (inr z) ↦ absurd z
      ];
    }

    home_b : IsHome (b ∷ a ∷ []) second b
    home_b = record {
      listed = inl refl;
      covers = rw q (inl refl);
      latest = λ e m d. elim m [
        | inl x ↦ rw x (acted_later_irrefl b)
        | inr (inl x) ↦ rw x (not_later a b later)
        | inr (inr z) ↦ absurd z
      ];
    }
