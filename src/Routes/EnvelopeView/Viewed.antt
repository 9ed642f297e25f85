-- ===== src/Routes/EnvelopeView/Viewed.antt =====
-- What `getEnvelope` answers, beside what the envelope service gave it.
use Prim.Native.String.{◌++◌}
use signbyte_bff.Base.{
  ℕ, String, Bool, true, false, ◌==◌, ◌≡◌, refl, Option, some, inl, inr, Bool-cases,
}
use signbyte_bff.Errors.{Result, ok, err, upstream}
use signbyte_bff.Session.{Session}
use signbyte_bff.Clients.Calls.{decoded, do_json, do_on_behalf, request_on_behalf}
use signbyte_bff.Clients.Envelope.{get, base}
use signbyte_bff.Clients.Types.{Detail}
use signbyte_bff.Clients.Zero.{zero_detail}
use signbyte_bff.Server.{Env, Request, OnBehalf, Call}
use signbyte_bff.Server.Monad.{Reply, json, Answer, detail_answer, ret, ◌>>=◌, sample, emit}
use signbyte_bff.Server.Safe.{Any as Whatever, Safe-then, Safe-bind, Safe-ret, Safe-reply}
use signbyte_bff.Routes.Relay.{unauthorized, relay_err, or_relay, or_reply, ready}
use signbyte_bff.Routes.Token.{on_behalf}
use signbyte_bff.Routes.Delegation.Base.{IfOk}
use signbyte_bff.Routes.Quiet.{fresh_token-Quiet}
use signbyte_bff.Routes.EnvelopeView.{get_envelope}
use signbyte_bff.Routes.EnvelopeView.Privacy.{Shows, ArePrivate, compose_detail-ArePrivate}

module _ {Db Key Any : Type 0} (env : Env Db Key Any) where
  -- The envelope service gave the envelope to this call, which is made for the user.
  abbrev pub IsGiven : String → String → Call → Detail → Type 0
  IsGiven sub id c detail =
      (i : ℕ) × (decoded "envelope" env.wire.detail zero_detail (env.serve i c) ≡ ok detail)
      × (c.sub ≡ sub)
      × (c.url ≡ base env ++ "/api/v1/envelopes/" ++ id)

  -- A view of an envelope shows what was given, as far as the call's user may see it.
  abbrev pub IsViewedAnswer : String → String → Answer → Type 0
  IsViewedAnswer sub id (detail_answer d) =
      (c : Call) × (detail : Detail) × IsGiven sub id c detail
      × ArePrivate env detail.envelope.owner sub (env.serial_from_token c.token) detail.slots
          d.slots
  IsViewedAnswer sub id a = Unit

  abbrev pub IsViewed : String → String → Option Reply → Type 0
  IsViewed sub id (some (json status a)) = IsViewedAnswer sub id a
  IsViewed sub id r = Unit

  -- What a user's call was given.
  abbrev Given : OnBehalf → String → Detail → Type 0
  Given obo id detail = (c : Call) × (c.token ≡ obo.token) × IsGiven obo.sub id c detail

  given :
      {Q : Detail → Type 0} (r : Result Detail)
      → ((detail : Detail) → r ≡ ok detail → Q detail)
      → IfOk Q r
  given (ok detail) h = h detail refl
  given (err e) h = tt

  get-Given :
      (R : Option Reply → Type 0) (obo : OnBehalf) (id : String)
      → Shows R (IfOk (Given obo id)) (get env obo id)
  unfolding get do_json do_on_behalf request_on_behalf decoded ◌>>=◌ sample emit ret
  get-Given R obo id = record {
    at = λ s p. elim (Bool-cases (obo.token == "")) [
      | inl k ↦ rw k (tt, tt)
      | inr k ↦ rw k (tt, given {Q = Given obo id} _ λ detail e. (_, refl, (s.step, e, refl, refl)))
    ];
  }

  module _ (sub id : String) where
    or_relay-Shows :
        {A : Type 0} {Q : A → Type 0} (r : Result A)
        → IfOk Q r
        → Shows (IsViewed sub id) Q (or_relay {Db = Db} r)
    unfolding or_relay relay_err
    or_relay-Shows (ok a) q = Safe-ret a q
    or_relay-Shows (err (upstream h)) q = Safe-reply _ tt
    or_relay-Shows (err _) q = Safe-reply _ tt

    ready-Shows :
        (code : String) (b : Bool) → Shows (IsViewed sub id) Whatever (ready {Db = Db} code b)
    unfolding ready
    ready-Shows code true = Safe-ret _ tt
    ready-Shows code false = Safe-reply _ tt

    or_reply-Shows :
        {A : Type 0} {Q : A → Type 0} (x : Result A)
        → IfOk Q x
        → Shows (IsViewed sub id) Q (or_reply {Db = Db} unauthorized x)
    unfolding or_reply
    or_reply-Shows (ok a) q = Safe-ret a q
    or_reply-Shows (err e) q = Safe-reply _ tt

    on_behalf-Shows :
        (sid : String) (sess : Session)
        → Shows (IsViewed sub id) (λ who. who.obo.sub ≡ sess.subject) (on_behalf env sid sess)
    unfolding on_behalf
    on_behalf-Shows sid sess =
        Safe-bind _ _ (fresh_token-Quiet env (IsViewed sub id) sid sess)
          λ r q. Safe-bind _ _ (or_reply-Shows r q) λ s same. Safe-ret _ same.0

  -- If the reply to a session is the view of an envelope, its slots are those that the envelope service gave
  -- to a call for the session's subject about that envelope, in their order. The owner sees the identity
  -- codes and the return addresses; the person whose identity is that of the call's token sees the return
  -- address of the own slot; otherwise both are empty.
  pub get_envelope-IsViewed :
      (req : Request) (sid : String) (sess : Session)
      → Shows (IsViewed sess.subject (req.param "id")) Whatever (get_envelope env req sid sess)
  unfolding get_envelope
  get_envelope-IsViewed req sid sess =
      let sub : String = sess.subject in
      let id : String = req.param "id" in
      Safe-then _ _ (ready-Shows sub id _ _) λ u.
        Safe-bind _ _ (on_behalf-Shows sub id sid sess) λ who h.
          Safe-bind _ _ (get-Given (IsViewed sub id) who.obo id) λ answer g.
            Safe-bind _ _ (or_relay-Shows sub id answer g) λ detail (c, token, given_so).
              Safe-bind _ _ (compose_detail-ArePrivate env (IsViewed sub id) who sid id detail)
                λ d p. Safe-reply _ (c, detail, rw (← h) given_so, rw (← h, token) p)
