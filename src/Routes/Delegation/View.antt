-- ===== src/Routes/Delegation/View.antt =====
-- The composed view of an envelope is read for the user of its session.
use signbyte_bff.Base.{String, ◌≡◌, List, [], ◌∷◌, not, ◌==◌, ◌||◌}
use signbyte_bff.Errors.{Result, ok, err}
use signbyte_bff.Session.{Session}
use signbyte_bff.Clients.Types.{Slot, DocRef, Detail}
use signbyte_bff.Server.{Env, Request, OnBehalf}
use signbyte_bff.Server.Monad.{ComposedSlot, ret, ◌>>=◌}
use signbyte_bff.Server.Safe.{Any as Whatever, Never, Safe-then, Safe-bind, Safe-ret, Safe-if}
use signbyte_bff.Routes.Token.{Acting, fresh_token}
use signbyte_bff.Routes.EnvelopeView.{
  compose_slot, compose_slots, identity_name, refreshed_name, viewer_name, name_slot, capture,
  filenames, compose_detail, get_envelope, shown,
}
use signbyte_bff.Routes.Delegation.Base.{Delegates, fresh_token-Safe}
use signbyte_bff.Routes.Delegation.Calls.{client_rules}
use signbyte_bff.Routes.Delegation.Handlers.{handler_rules}

module _ {Db Key Any : Type 0} (env : Env Db Key Any) where
  module _ (sub : String) (obo : OnBehalf) (h : obo.sub ≡ sub) where
    compose_slot-Delegates :
        (owner serial : String) (s : Slot)
        → Delegates env.has_documents sub Whatever (compose_slot env obo owner serial s)
    unfolding compose_slot
    compose_slot-Delegates owner serial s =
        Safe-if (s.job_id == "" || not env.has_signflow) (ret (shown env owner obo.sub serial s)) _
          (λ k. Safe-ret _ tt) (λ k. search handler_rules depth 16)

    compose_slots-Delegates :
        (owner serial : String) (slots : List Slot)
        → Delegates env.has_documents sub Whatever (compose_slots env obo owner serial slots)
    unfolding compose_slots
    compose_slots-Delegates owner serial [] = Safe-ret _ tt
    compose_slots-Delegates owner serial (s ∷ slots) =
        Safe-then _ _ (compose_slot-Delegates owner serial s)
          λ c. Safe-then _ _ (compose_slots-Delegates owner serial slots) λ rest. Safe-ret _ tt

    identity_name-Delegates :
        (sess : Session) (key : Result Key)
        → Delegates env.has_documents sub Whatever (identity_name env sess key)
    unfolding identity_name
    identity_name-Delegates sess (err e) = Safe-ret _ tt
    identity_name-Delegates sess (ok key) = search handler_rules depth 16

    refreshed_name-Delegates :
        (r : Result Session) → Delegates env.has_documents sub Whatever (refreshed_name env r)
    unfolding refreshed_name
    refreshed_name-Delegates (err e) = Safe-ret _ tt
    refreshed_name-Delegates (ok s) = identity_name-Delegates s _

    viewer_name-Delegates :
        (sid : String) (sess : Session)
        → Delegates env.has_documents sub Whatever (viewer_name env sid sess)
    unfolding viewer_name
    viewer_name-Delegates sid sess =
        Safe-if env.has_auth_service (fresh_token env sid sess >>= refreshed_name env) (ret "")
          (λ k. Safe-bind _ _ (fresh_token-Safe env sub sid sess) λ r q. refreshed_name-Delegates r)
          (λ k. Safe-ret _ tt)

    name_slot-Delegates :
        (id name : String) (c : ComposedSlot)
        → Delegates env.has_documents sub Whatever (name_slot env obo id name c)
    unfolding name_slot
    name_slot-Delegates id name c =
        Safe-if (name == "") (ret c) _ (λ k. Safe-ret _ tt) (λ k. search handler_rules depth 16)

    capture-Delegates :
        (sid : String) (sess : Session) (id : String) (slots : List ComposedSlot)
        → Delegates env.has_documents sub Whatever (capture env obo sid sess id slots)
    unfolding capture
    capture-Delegates sid sess id [] = Safe-ret _ tt
    capture-Delegates sid sess id (c ∷ slots) =
        Safe-if (not c.you || not (c.slot.signer_name == "")) _ _
          (λ k. Safe-then _ _ (capture-Delegates sid sess id slots) λ rest. Safe-ret _ tt)
          (λ k. search (Safe-then, Safe-ret, viewer_name-Delegates, name_slot-Delegates) depth 16)

    filenames-Delegates :
        (docs : List DocRef) → Delegates env.has_documents sub Whatever (filenames env obo docs)
    unfolding filenames
    filenames-Delegates [] = Safe-ret _ tt
    filenames-Delegates (d ∷ docs) =
        Safe-then _ _ (search client_rules)
          λ meta. Safe-then _ _ (filenames-Delegates docs) λ rest. Safe-ret _ tt

  pub compose_detail-Delegates :
      (sub : String) (who : Acting) (sid id : String) (detail : Detail)
      → who.obo.sub ≡ sub
      → Delegates env.has_documents sub Whatever (compose_detail env who sid id detail)
  unfolding compose_detail
  compose_detail-Delegates sub who sid id detail h =
      Safe-then _ _ (compose_slots-Delegates sub who.obo h _ _ _) λ slots.
        Safe-then _ _ (capture-Delegates sub who.obo h sid who.session id slots) λ named.
          Safe-then _ _
            (Safe-if env.has_documents (filenames env who.obo detail.documents)
              (ret detail.documents) (λ k. filenames-Delegates sub who.obo h _)
              (λ k. Safe-ret _ tt))
            λ docs. Safe-ret _ tt

  pub get_envelope-Delegates :
      (req : Request) (sid : String) (sess : Session)
      → Delegates env.has_documents sess.subject Never (get_envelope env req sid sess)
  unfolding get_envelope
  get_envelope-Delegates req sid sess = search (handler_rules, compose_detail-Delegates) depth 16
