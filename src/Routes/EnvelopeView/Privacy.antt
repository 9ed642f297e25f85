-- ===== src/Routes/EnvelopeView/Privacy.antt =====
-- What the composed view of an envelope tells a viewer about the other parties.
use signbyte_bff.Base.{
  Option, ◌≢◌, arith, eq_iff, String, ◌≡◌, refl, List, [], ◌∷◌, not, ◌==◌, ◌||◌,
}
use signbyte_bff.Errors.{Result, ok, err}
use signbyte_bff.Session.{Session}
use signbyte_bff.Clients.Types.{Slot, DocRef, Detail, Job}
use signbyte_bff.Server.{Env, OnBehalf}
use signbyte_bff.Server.Monad.{M, Reply, ComposedSlot, ret, ◌>>=◌}
use signbyte_bff.Server.Safe.{Safe, Safe-bind, Safe-then, Safe-ret, Safe-if, Safe-sample}
use signbyte_bff.Routes.Token.{Acting, fresh_token}
use signbyte_bff.Routes.Quiet.{
  Quiet, status-Quiet, metadata-Quiet, capture_signer_name-Quiet, fresh_token-Quiet,
}
use signbyte_bff.Routes.EnvelopeView.{
  is_you, identity_name, refreshed_name, refine, refined, shown, compose_slot, compose_slots,
  name_slot, viewer_name, capture, compose_detail, filenames,
}

module _ {Db Key Any : Type 0} (env : Env Db Key Any) where
  -- The slot names a person, and that person has the serial.
  abbrev pub IsOwn : String → Slot → Type 0
  IsOwn serial s = (s.identity_ref ≢ "") × (env.identity_key s.identity_ref ≡ serial)

  -- What of the slot `s` of the envelope service is shown as `c`: the owner sees the identity code and the
  -- return address, the person of the slot sees the return address, and nobody else sees either.
  abbrev pub IsPrivate : String → String → String → Slot → ComposedSlot → Type 0
  IsPrivate owner sub serial s c =
      (c.slot.id ≡ s.id)
      × (owner ≡ sub → (c.slot.identity_ref ≡ s.identity_ref) × (c.slot.return_url ≡ s.return_url))
      × (owner ≢ sub → c.slot.identity_ref ≡ "")
      × (IsOwn serial s → c.slot.return_url ≡ s.return_url)
      × (owner ≢ sub → c.slot.return_url ≢ "" → IsOwn serial s)

  -- The slots are shown one by one and in their order.
  abbrev pub ArePrivate : String → String → String → List Slot → List ComposedSlot → Type 0
  ArePrivate owner sub serial [] [] = Unit
  ArePrivate owner sub serial (s ∷ slots) (c ∷ shown_slots) =
      IsPrivate owner sub serial s c × ArePrivate owner sub serial slots shown_slots
  ArePrivate owner sub serial [] (c ∷ shown_slots) = ⊥
  ArePrivate owner sub serial (s ∷ slots) [] = ⊥

  shown-IsPrivate :
      (owner sub serial : String) (s : Slot)
      → IsPrivate owner sub serial s (shown env owner sub serial s)
  unfolding shown is_you
  shown-IsPrivate owner sub serial s = (
    refl,
    λ mine. (ground (arith, eq_iff owner sub), ground (arith, eq_iff owner sub)),
    λ other. ground (arith, eq_iff owner sub),
    λ own. ground (
      arith,
      eq_iff (env.identity_key s.identity_ref) serial,
      eq_iff s.identity_ref "",
      eq_iff owner sub,
    ),
    λ other visible. (
      λ e. ground (arith, eq_iff s.identity_ref "", eq_iff owner sub, visible),
      ground (
        arith,
        eq_iff (env.identity_key s.identity_ref) serial,
        eq_iff s.identity_ref "",
        eq_iff owner sub,
        visible,
      ),
    ),
  )

  refined-IsPrivate :
      (owner sub serial : String) (s : Slot) (c : ComposedSlot) (r : Result Job)
      → IsPrivate owner sub serial s c
      → IsPrivate owner sub serial s (refined c r)
  unfolding refined refine
  refined-IsPrivate owner sub serial s c (ok job) h = h
  refined-IsPrivate owner sub serial s c (err e) h = h

abbrev pub Shows : {Db A : Type 0} → (Option Reply → Type 0) → (A → Type 0) → M Db A → Type 0
Shows R Q m = Safe (λ t. Unit {0}) R Q m

module _ {Db Key Any : Type 0} (env : Env Db Key Any) (R : Option Reply → Type 0) (obo : OnBehalf)
    (owner serial : String) where
  compose_slot-IsPrivate :
      (s : Slot)
      → Shows R (IsPrivate env owner obo.sub serial s) (compose_slot env obo owner serial s)
  unfolding compose_slot
  compose_slot-IsPrivate s =
      Safe-if (s.job_id == "" || not env.has_signflow) (ret (shown env owner obo.sub serial s)) _
        (λ k. Safe-ret _ (shown-IsPrivate env owner obo.sub serial s))
        (λ k. Safe-then _ _ (status-Quiet env R _ _ _) λ r. Safe-ret _ (
          refined-IsPrivate env owner obo.sub serial s _ r
            (shown-IsPrivate env owner obo.sub serial s)))

  compose_slots-IsPrivate :
      (slots : List Slot)
      → Shows R
          (ArePrivate env owner obo.sub serial slots)
          (compose_slots env obo owner serial slots)
  unfolding compose_slots
  compose_slots-IsPrivate [] = Safe-ret _ tt
  compose_slots-IsPrivate (s ∷ slots) =
      Safe-bind _ _ (compose_slot-IsPrivate s)
        λ c p. Safe-bind _ _ (compose_slots-IsPrivate slots) λ rest ps. Safe-ret _ (p, ps)

  name_slot-IsPrivate :
      (id name : String) (s : Slot) (c : ComposedSlot)
      → IsPrivate env owner obo.sub serial s c
      → Shows R (IsPrivate env owner obo.sub serial s) (name_slot env obo id name c)
  unfolding name_slot
  name_slot-IsPrivate id name s c h =
      Safe-if (name == "") (ret c) _ (λ k. Safe-ret _ h)
        (λ k. Safe-then _ _ (capture_signer_name-Quiet env R _ _ _ _) λ u. Safe-ret _ h)

  identity_name-Quiet : (sess : Session) (key : Result Key) → Quiet R (identity_name env sess key)
  unfolding identity_name
  identity_name-Quiet sess (err e) = Safe-ret _ tt
  identity_name-Quiet sess (ok key) = Safe-then _ _ (Safe-sample _) λ id. Safe-ret _ tt

  refreshed_name-Quiet : (r : Result Session) → Quiet R (refreshed_name env r)
  unfolding refreshed_name
  refreshed_name-Quiet (err e) = Safe-ret _ tt
  refreshed_name-Quiet (ok s) = identity_name-Quiet s _

  viewer_name-Quiet : (sid : String) (sess : Session) → Quiet R (viewer_name env sid sess)
  unfolding viewer_name
  viewer_name-Quiet sid sess =
      Safe-if env.has_auth_service (fresh_token env sid sess >>= refreshed_name env) (ret "")
        (λ k. Safe-bind _ _ (fresh_token-Quiet env R sid sess) λ r q. refreshed_name-Quiet r)
        (λ k. Safe-ret _ tt)

  capture-IsPrivate :
      (sid : String) (sess : Session) (id : String) (slots : List Slot)
      (shown_slots : List ComposedSlot)
      → ArePrivate env owner obo.sub serial slots shown_slots
      → Shows R
          (ArePrivate env owner obo.sub serial slots)
          (capture env obo sid sess id shown_slots)
  unfolding capture
  capture-IsPrivate sid sess id [] [] h = Safe-ret _ tt
  capture-IsPrivate sid sess id [] (c ∷ shown_slots) h = absurd h
  capture-IsPrivate sid sess id (s ∷ slots) [] h = absurd h
  capture-IsPrivate sid sess id (s ∷ slots) (c ∷ shown_slots) h =
      Safe-if (not c.you || not (c.slot.signer_name == "")) _ _
        (λ k.
          Safe-bind _ _ (capture-IsPrivate sid sess id slots shown_slots h.1)
            λ rest q. Safe-ret _ (h.0, q))
        (λ k. Safe-then _ _ (viewer_name-Quiet sid sess) λ name.
          Safe-bind _ _ (name_slot-IsPrivate id name s c h.0) λ named q. Safe-ret _ (q, h.1))

  filenames-Quiet : (docs : List DocRef) → Quiet R (filenames env obo docs)
  unfolding filenames
  filenames-Quiet [] = Safe-ret _ tt
  filenames-Quiet (d ∷ docs) =
      Safe-then _ _ (metadata-Quiet env R obo _)
        λ meta. Safe-then _ _ (filenames-Quiet docs) λ rest. Safe-ret _ tt

module _ {Db Key Any : Type 0} (env : Env Db Key Any) where
  -- The view of an envelope that is composed for a user shows the slots that the envelope service gave, in
  -- their order. The owner sees the identity codes and the return addresses; the person whose identity is
  -- that of the user's token sees the return address of the own slot; otherwise both are empty.
  pub compose_detail-ArePrivate :
      (R : Option Reply → Type 0) (who : Acting) (sid id : String) (detail : Detail)
      → Shows R
          (λ d.
            ArePrivate env detail.envelope.owner who.obo.sub
              (env.serial_from_token who.obo.token)
              detail.slots
              d.slots)
          (compose_detail env who sid id detail)
  unfolding compose_detail
  compose_detail-ArePrivate R who sid id detail =
      let owner : String = detail.envelope.owner in
      let serial : String = env.serial_from_token who.obo.token in
      Safe-bind _ _ (compose_slots-IsPrivate env R who.obo owner serial detail.slots) λ slots p.
        Safe-bind _ _
          (capture-IsPrivate env R who.obo owner serial sid who.session id detail.slots slots p)
          λ named q.
            Safe-then _ _
              (Safe-if env.has_documents (filenames env who.obo detail.documents)
                (ret detail.documents) (λ k. filenames-Quiet env R who.obo owner serial _)
                (λ k. Safe-ret _ tt))
              λ docs. Safe-ret _ q
