-- ===== src/Routes/Dashboard/Homes.antt =====
-- What the `home` map of `latestPerChain` holds: for each document the envelope that acted last.
use signbyte_bff.Base.{
  IsMap, insert-IsMap, String, ◌≡◌, ap, ◌⊎◌, inl, inr, false, List, [], ◌∷◌, none, some, arith,
  eq_iff, Option-cases, Map, lookup, lookup-insert, In,
}
use signbyte_bff.Clients.Types.{Summary}
use signbyte_bff.Routes.Dashboard.{acted_later, home_doc, home_docs, homes}
use signbyte_bff.Routes.Dashboard.Order.{acted_later_irrefl, acted_later_trans}

-- What the `home` map holds after the pairs of envelope and document in `seen`.
record Tracks (seen : List (Summary × String)) (home : Map Summary) : Type 0 where
  held : (doc : String) (h : Summary) → lookup doc home ≡ some h → In (h, doc) seen
  last :
      (doc : String) (h e : Summary)
      → lookup doc home ≡ some h
      → In (e, doc) seen
      → acted_later e h ≡ false
  missing : (doc : String) (e : Summary) → lookup doc home ≡ none → In (e, doc) seen → ⊥

home_doc-Tracks :
    (seen : List (Summary × String)) (e : Summary) (home : Map Summary) (doc : String)
    → Tracks seen home
    → Tracks ((e, doc) ∷ seen) (home_doc e home doc)
unfolding home_doc
home_doc-Tracks seen e home doc t = record {
  held = λ d h p. ground (arith, lookup-insert doc d e home, eq_iff doc d, t.held d h);
  last = λ d h x p m. elim (Option-cases (lookup doc home)) [
    | inl q ↦ ground (
      arith,
      q,
      lookup-insert doc d e home,
      eq_iff doc d,
      t.last d h x,
      t.missing d x,
      acted_later_irrefl e,
    )
    | inr (cur, q) ↦ ground (
      arith,
      q,
      lookup-insert doc d e home,
      eq_iff doc d,
      t.last d h x,
      t.last d cur x,
      acted_later_irrefl e,
      acted_later_trans x e cur,
    )
  ];
  missing = λ d x p m. ground (arith, lookup-insert doc d e home, eq_iff doc d, t.missing d x);
}

-- The pairs that the two loops go through, the last one first.
push_docs : Summary → List (Summary × String) → List String → List (Summary × String)
push_docs e seen [] = seen
push_docs e seen (doc ∷ docs) = push_docs e ((e, doc) ∷ seen) docs

push_all : List (Summary × String) → List Summary → List (Summary × String)
push_all seen [] = seen
push_all seen (e ∷ envs) = push_all (push_docs e seen e.doc_ids) envs

home_docs-Tracks :
    (seen : List (Summary × String)) (e : Summary) (home : Map Summary) (docs : List String)
    → Tracks seen home
    → Tracks (push_docs e seen docs) (home_docs e home docs)
unfolding home_docs push_docs
home_docs-Tracks seen e home [] t = t
home_docs-Tracks seen e home (doc ∷ docs) t =
    home_docs-Tracks ((e, doc) ∷ seen) e (home_doc e home doc) docs
      (home_doc-Tracks seen e home doc t)

homes-Tracks :
    (seen : List (Summary × String)) (home : Map Summary) (envs : List Summary)
    → Tracks seen home
    → Tracks (push_all seen envs) (homes home envs)
unfolding homes push_all
homes-Tracks seen home [] t = t
homes-Tracks seen home (e ∷ envs) t =
    homes-Tracks (push_docs e seen e.doc_ids) (home_docs e home e.doc_ids) envs
      (home_docs-Tracks seen e home e.doc_ids t)

push_docs-old :
    (e : Summary) (seen : List (Summary × String)) (docs : List String) (p : Summary × String)
    → In p seen
    → In p (push_docs e seen docs)
unfolding push_docs
push_docs-old e seen [] p m = m
push_docs-old e seen (doc ∷ docs) p m = push_docs-old e ((e, doc) ∷ seen) docs p (inr m)

push_docs-new :
    (e : Summary) (seen : List (Summary × String)) (docs : List String) (doc : String)
    → In doc docs
    → In (e, doc) (push_docs e seen docs)
unfolding push_docs
push_docs-new e seen [] doc m = elim m [ ]
push_docs-new e seen (d ∷ docs) doc (inl q) =
    push_docs-old e ((e, d) ∷ seen) docs (e, doc) (inl (ap (λ x. (e, x)) q))
push_docs-new e seen (d ∷ docs) doc (inr m) = push_docs-new e ((e, d) ∷ seen) docs doc m

push_docs-from :
    (e : Summary) (seen : List (Summary × String)) (docs : List String) (h : Summary) (doc : String)
    → In (h, doc) (push_docs e seen docs)
    → In (h, doc) seen ⊎ ((h ≡ e) × In doc docs)
unfolding push_docs
push_docs-from e seen [] h doc m = inl m
push_docs-from e seen (d ∷ docs) h doc m = elim (push_docs-from e ((e, d) ∷ seen) docs h doc m) [
  | inl (inl q) ↦ inr (ap (λ p. p.0) q, inl (ap (λ p. p.1) q))
  | inl (inr k) ↦ inl k
  | inr (q, k) ↦ inr (q, inr k)
]

push_all-old :
    (seen : List (Summary × String)) (envs : List Summary) (p : Summary × String)
    → In p seen
    → In p (push_all seen envs)
unfolding push_all
push_all-old seen [] p m = m
push_all-old seen (e ∷ envs) p m =
    push_all-old (push_docs e seen e.doc_ids) envs p (push_docs-old e seen e.doc_ids p m)

push_all-new :
    (seen : List (Summary × String)) (envs : List Summary) (e : Summary) (doc : String)
    → In e envs
    → In doc e.doc_ids
    → In (e, doc) (push_all seen envs)
unfolding push_all
push_all-new seen [] e doc m k = elim m [ ]
push_all-new seen (x ∷ envs) e doc (inl q) k =
    push_all-old (push_docs x seen x.doc_ids) envs (e, doc)
      (rw q (push_docs-new x seen x.doc_ids doc (rw q at k)))
push_all-new seen (x ∷ envs) e doc (inr m) k =
    push_all-new (push_docs x seen x.doc_ids) envs e doc m k

push_all-from :
    (seen : List (Summary × String)) (envs : List Summary) (h : Summary) (doc : String)
    → In (h, doc) (push_all seen envs)
    → In (h, doc) seen ⊎ (In h envs × In doc h.doc_ids)
unfolding push_all
push_all-from seen [] h doc m = inl m
push_all-from seen (e ∷ envs) h doc m =
    elim (push_all-from (push_docs e seen e.doc_ids) envs h doc m) [
      | inl k ↦ elim (push_docs-from e seen e.doc_ids h doc k) [
        | inl old ↦ inl old
        | inr (q, d) ↦ inr (inl q, rw q d)
      ]
      | inr (k, d) ↦ inr (inr k, d)
    ]

-- `h` is the envelope of the list that last acted on `doc`.
pub record IsHome (envs : List Summary) (doc : String) (h : Summary) : Type 0 where
  pub listed : In h envs
  pub covers : In doc h.doc_ids
  pub latest : (e : Summary) → In e envs → In doc e.doc_ids → acted_later e h ≡ false

empty-Tracks : Tracks [] []
unfolding lookup
empty-Tracks = record {
  held = λ doc h p. cc;
  last = λ doc h e p m. elim m [ ];
  missing = λ doc e p m. m;
}

home_of : (envs : List Summary) → Tracks (push_all [] envs) (homes [] envs)
home_of envs = homes-Tracks [] [] envs empty-Tracks

pub lookup-homes-IsHome :
    (envs : List Summary) (doc : String) (h : Summary)
    → lookup doc (homes [] envs) ≡ some h
    → IsHome envs doc h
lookup-homes-IsHome envs doc h p =
    elim (push_all-from [] envs h doc ((home_of envs).held doc h p)) [
      | inl m ↦ elim m [ ]
      | inr (m, d) ↦ record {
        listed = m;
        covers = d;
        latest = λ e k c. (home_of envs).last doc h e p (push_all-new [] envs e doc k c);
      }
    ]

home_doc-IsMap :
    (e : Summary) (home : Map Summary) (doc : String) → IsMap home → IsMap (home_doc e home doc)
unfolding home_doc
home_doc-IsMap e home doc h = ground (arith, insert-IsMap doc e home h)

home_docs-IsMap :
    (e : Summary) (home : Map Summary) (docs : List String)
    → IsMap home
    → IsMap (home_docs e home docs)
unfolding home_docs
home_docs-IsMap e home [] h = h
home_docs-IsMap e home (doc ∷ docs) h =
    home_docs-IsMap e (home_doc e home doc) docs (home_doc-IsMap e home doc h)

pub homes-IsMap : (home : Map Summary) (envs : List Summary) → IsMap home → IsMap (homes home envs)
unfolding homes
homes-IsMap home [] h = h
homes-IsMap home (e ∷ envs) h =
    homes-IsMap (home_docs e home e.doc_ids) envs (home_docs-IsMap e home e.doc_ids h)

-- A document of a listed envelope has a home.
pub homes-covers :
    (envs : List Summary) (e : Summary) (doc : String)
    → In e envs
    → In doc e.doc_ids
    → (h : Summary) × (lookup doc (homes [] envs) ≡ some h)
homes-covers envs e doc m d = elim (Option-cases (lookup doc (homes [] envs))) [
  | inl p ↦ absurd ((home_of envs).missing doc e p (push_all-new [] envs e doc m d))
  | inr q ↦ q
]
