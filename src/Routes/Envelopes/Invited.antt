-- ===== src/Routes/Envelopes/Invited.antt =====
-- Who may be invited to sign, and what a created envelope holds.
use signbyte_bff.Base.{
  ℕ, suc, String, ◌≡◌, refl, Bool, true, false, ◌==◌, ◌⊎◌, inl, inr, List, [], ◌∷◌, Option, none,
  some, Bool-cases, arith, eq_iff,
}
use signbyte_bff.Errors.{Result, ok, err}
use signbyte_bff.Server.{Env}
use signbyte_bff.Clients.Types.{SlotInput}
use signbyte_bff.Routes.Envelopes.{
  SlotEntry, slot_input, only_person, canonical_person, invite_identity, slot_of, invited,
}

module _ {Db Key Any : Type 0} (env : Env Db Key Any) where
  -- The slot keeps what was asked for; its code is empty, or the canonical spelling of a natural
  -- person's, from the code and the country that were given.
  abbrev pub IsInvited : SlotEntry → SlotInput → Type 0
  IsInvited e s =
      (s ≡ slot_input e s.identity_ref)
      × ((e.identity_ref ≡ "") × (s.identity_ref ≡ "")
          ⊎ (env.canonical e.identity_ref e.country ≡ some s.identity_ref)
            × (env.is_natural_person s.identity_ref ≡ some true))

  abbrev pub AreInvited : List SlotEntry → List SlotInput → Type 0
  AreInvited [] [] = Unit
  AreInvited [] (s ∷ slots) = ⊥
  AreInvited (e ∷ entries) [] = ⊥
  AreInvited (e ∷ entries) (s ∷ slots) = IsInvited e s × AreInvited entries slots

  only_person_ok :
      (name code : String) (o : Option Bool) (r : String)
      → only_person env name code o ≡ ok r
      → (o ≡ some true) × (r ≡ code)
  unfolding only_person
  only_person_ok name code none r e = cc
  only_person_ok name code (some true) r e = (refl, cc)
  only_person_ok name code (some false) r e = cc

  canonical_person_ok :
      (name : String) (o : Option String) (r : String)
      → canonical_person env name o ≡ ok r
      → (o ≡ some r) × (env.is_natural_person r ≡ some true)
  unfolding canonical_person
  canonical_person_ok name none r e = cc
  canonical_person_ok name (some code) r e =
      let (p, q) = only_person_ok name code (env.is_natural_person code) r e in (cc, cc)

  invite_identity_ok :
      (name code country r : String)
      → invite_identity env name code country ≡ ok r
      → (code ≡ "") × (r ≡ "")
        ⊎ (env.canonical code country ≡ some r) × (env.is_natural_person r ≡ some true)
  unfolding invite_identity
  invite_identity_ok name code country r e = elim (Bool-cases (code == "")) [
    | inl p ↦ inl (ground (arith, eq_iff code ""), ground (arith, p))
    | inr p ↦ inr (canonical_person_ok name (env.canonical code country) r (rw p at e))
  ]

  slot_of_ok :
      (e : SlotEntry) (r : Result String) (rest : Result (List SlotInput)) (slots : List SlotInput)
      → slot_of env e r rest ≡ ok slots
      → (code : String) × (others : List SlotInput) × (r ≡ ok code)
        × (rest ≡ ok others)
        × (slots ≡ slot_input e code ∷ others)
  unfolding slot_of
  slot_of_ok e (err x) rest slots h = cc
  slot_of_ok e (ok code) (err x) slots h = cc
  slot_of_ok e (ok code) (ok others) slots h = (code, others, refl, refl, cc)

  -- The slots of a created envelope are those of the request, one for one in their order, and each
  -- invites nobody by code or a natural person by the canonical spelling.
  pub invited-AreInvited :
      (i : ℕ) (entries : List SlotEntry) (slots : List SlotInput)
      → invited env i entries ≡ ok slots
      → AreInvited entries slots
  unfolding invited
  invited-AreInvited i [] [] h = tt
  invited-AreInvited i [] (s ∷ slots) h = cc
  invited-AreInvited i (e ∷ entries) slots h =
      let (code, others, p, q, r) = slot_of_ok e _ _ slots h in
      rw r ((refl, invite_identity_ok _ _ _ code p), invited-AreInvited (suc i) entries others q)
