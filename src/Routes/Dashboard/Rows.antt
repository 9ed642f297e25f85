-- ===== src/Routes/Dashboard/Rows.antt =====
-- Which chains and which terminal envelopes the library view shows.
use signbyte_bff.Base.{
  String, ◌≡◌, refl, ◌↔◌, ◌⊎◌, inl, inr, true, false, List, [], ◌∷◌, arith, Bool-cases, contains,
  In, In-keep, keep-In, contains→In, In→contains, In-append_cases, In-append_left, In-append_right,
}
use signbyte_bff.Clients.Types.{Summary, SigningTask, ChainRow}
use signbyte_bff.Routes.Dashboard.{covered, standalone}

-- An envelope of the user's, or one that awaits the user's signature, holds the document.
abbrev pub IsCovered : List Summary → List SigningTask → String → Type 0
IsCovered envs tasks id =
    ((e : Summary) × In e envs × In id e.doc_ids)
    ⊎ ((tk : SigningTask) × In tk tasks × In id tk.envelope.doc_ids)

covered→IsCovered :
    (envs : List Summary) (tasks : List SigningTask) (id : String)
    → In id (covered envs tasks)
    → IsCovered envs tasks id
unfolding covered
covered→IsCovered [] [] id m = absurd m
covered→IsCovered [] (tk ∷ tasks) id m =
    elim (In-append_cases id tk.envelope.doc_ids (covered [] tasks) m) [
      | inl h ↦ inr (tk, inl refl, h)
      | inr h ↦ elim (covered→IsCovered [] tasks id h) [
        | inl (e, z, d) ↦ absurd z
        | inr (t, k, d) ↦ inr (t, inr k, d)
      ]
    ]
covered→IsCovered (e ∷ envs) tasks id m =
    elim (In-append_cases id e.doc_ids (covered envs tasks) m) [
      | inl h ↦ inl (e, inl refl, h)
      | inr h ↦ elim (covered→IsCovered envs tasks id h) [
        | inl (x, k, d) ↦ inl (x, inr k, d)
        | inr r ↦ inr r
      ]
    ]

envelope→covered :
    (envs : List Summary) (tasks : List SigningTask) (id : String) (e : Summary)
    → In e envs
    → In id e.doc_ids
    → In id (covered envs tasks)
unfolding covered
envelope→covered [] tasks id e m d = absurd m
envelope→covered (x ∷ envs) tasks id e (inl q) d =
    In-append_left id x.doc_ids (covered envs tasks) (rw q at d)
envelope→covered (x ∷ envs) tasks id e (inr m) d =
    In-append_right id x.doc_ids (covered envs tasks) (envelope→covered envs tasks id e m d)

task→covered :
    (envs : List Summary) (tasks : List SigningTask) (id : String) (tk : SigningTask)
    → In tk tasks
    → In id tk.envelope.doc_ids
    → In id (covered envs tasks)
unfolding covered
task→covered [] [] id tk m d = absurd m
task→covered [] (x ∷ tasks) id tk (inl q) d =
    In-append_left id x.envelope.doc_ids (covered [] tasks) (rw q at d)
task→covered [] (x ∷ tasks) id tk (inr m) d =
    In-append_right id x.envelope.doc_ids (covered [] tasks) (task→covered [] tasks id tk m d)
task→covered (e ∷ envs) tasks id tk m d =
    In-append_right id e.doc_ids (covered envs tasks) (task→covered envs tasks id tk m d)

IsCovered→covered :
    (envs : List Summary) (tasks : List SigningTask) (id : String)
    → IsCovered envs tasks id
    → In id (covered envs tasks)
IsCovered→covered envs tasks id (inl (e, m, d)) = envelope→covered envs tasks id e m d
IsCovered→covered envs tasks id (inr (tk, m, d)) = task→covered envs tasks id tk m d

-- A chain is a row of its own exactly if no envelope, the user's or one that awaits the user's
-- signature, holds its root or its head.
pub standalone_iff :
    (envs : List Summary) (tasks : List SigningTask) (chains : List ChainRow) (c : ChainRow)
    → In c (standalone envs tasks chains)
      ↔ (In c chains × (¬ (IsCovered envs tasks c.chain_root_id)) × (¬ (IsCovered envs tasks c.id)))
unfolding standalone
standalone_iff envs tasks chains c = (to, from)
  where
    ids : List String
    ids = covered envs tasks

    seen : (id : String) → IsCovered envs tasks id → contains ids id ≡ true
    seen id h = In→contains ids id (IsCovered→covered envs tasks id h)

    to :
        In c (standalone envs tasks chains)
        → In c chains × (¬ (IsCovered envs tasks c.chain_root_id)) × (¬ (IsCovered envs tasks c.id))
    to m =
        let (listed, kept) = In-keep _ chains c m in
        (listed, λ h. ground (arith, seen c.chain_root_id h), λ h. ground (arith, seen c.id h))

    free : (id : String) → ¬ (IsCovered envs tasks id) → contains ids id ≡ false
    free id h = elim (Bool-cases (contains ids id)) [
      | inl k ↦ absurd (h (covered→IsCovered envs tasks id (contains→In ids id k)))
      | inr k ↦ k
    ]

    from :
        In c chains × (¬ (IsCovered envs tasks c.chain_root_id)) × (¬ (IsCovered envs tasks c.id))
        → In c (standalone envs tasks chains)
    from (listed, h, k) = keep-In _ chains c listed (rw (free c.chain_root_id h, free c.id k))
