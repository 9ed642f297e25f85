-- ===== src/Session/Redis/Laws.antt =====
-- The Redis store keeps the contract of `Store`, from what Redis documents of its commands.
use text.Mathlib.TextLemmas.{append_cancel_left}
use text.Mathlib.TextPositions.{slice-append_left}
use Prim.Native.String.{slice}
use signbyte_bff.Base.{
  ℕ, ◌+◌, ◌<◌, String, ◌≡◌, ◌≢◌, sym, ap, ◌∙◌, refl, arith, eq_iff, inl, inr, Option, none, some,
  Option-cases,
}
use signbyte_bff.Errors.{Result, ok, err, not_found}
use signbyte_bff.Session.{Flow, Session}
use signbyte_bff.Session.Interface.{Codec, IsRoundTrip, IsStore}
use signbyte_bff.Session.Redis.{
  Redis, flow_key, sess_key, decoded, set_encoded, put_flow, take_flow, put_session, get_session,
  delete_session, redis_store,
}

-- SET with an expiry, GET, GETDEL and DEL on string keys, with the server reachable throughout: a
-- value lives for its time to live and not longer, and a command touches no key but its own.
pub record IsRedis {R : Type 0} (client : Redis R) : Type 0 where
  pub get-set_live :
      (t u ttl : ℕ) (k b : String) (r q : R)
      → client.set t k b ttl r ≡ (ok tt, q)
      → u < t + ttl
      → client.get u k q ≡ ok (some b)
  pub get-set_expired :
      (t u ttl : ℕ) (k b : String) (r q : R)
      → client.set t k b ttl r ≡ (ok tt, q)
      → t + ttl < u
      → client.get u k q ≡ ok none
  pub get-set_ne :
      (t u ttl : ℕ) (k j b : String) (r : R)
      → k ≢ j
      → client.get u j (client.set t k b ttl r).1 ≡ client.get u j r
  pub get_del-get : (t : ℕ) (k : String) (r : R) → (client.get_del t k r).0 ≡ client.get t k r
  pub get-get_del :
      (t u : ℕ) (k b : String) (r q : R)
      → client.get_del t k r ≡ (ok (some b), q)
      → client.get u k q ≡ ok none
  pub get-get_del_ne :
      (t u : ℕ) (k j : String) (r : R)
      → k ≢ j
      → client.get u j (client.get_del t k r).1 ≡ client.get u j r
  pub get-del :
      (t u : ℕ) (k : String) (r q : R) → client.del t k r ≡ (ok tt, q) → client.get u k q ≡ ok none
  pub get-del_ne :
      (t u : ℕ) (k j : String) (r : R)
      → k ≢ j
      → client.get u j (client.del t k r).1 ≡ client.get u j r

flow_key-injective : (a b : String) → flow_key a ≡ flow_key b → a ≡ b
unfolding flow_key
flow_key-injective a b p = append_cancel_left "portal:flow:" a b p

sess_key-injective : (a b : String) → sess_key a ≡ sess_key b → a ≡ b
unfolding sess_key
sess_key-injective a b p = append_cancel_left "portal:sess:" a b p

prefixes_differ : ◌≢◌ {A = String} "portal:flow:" "portal:sess:"
prefixes_differ = ground (arith, eq_iff "portal:flow:" "portal:sess:")

-- The prefixes keep flows and sessions apart in the one key space.
pub flow_key-ne-sess_key : (a b : String) → flow_key a ≢ sess_key b
unfolding flow_key sess_key
flow_key-ne-sess_key a b p = prefixes_differ (
    sym (slice-append_left "portal:flow:" a)
    ∙ ap (λ x. slice x 0 12) p
    ∙ slice-append_left "portal:sess:" b)

module _ {R : Type 0} (client : Redis R) (laws : IsRedis client) {A : Type 0} (codec : Codec A)
    (trip : IsRoundTrip codec) where
  -- A value that was set encoded is what its key holds, decoded, while it lives.
  get-set_encoded :
      (t u ttl : ℕ) (k : String) (a : A) (r q : R)
      → set_encoded client t k (codec.encode a) ttl r ≡ (ok tt, q)
      → u < t + ttl
      → decoded codec (client.get u k q) ≡ ok a
  unfolding set_encoded decoded
  get-set_encoded t u ttl k a r q p lt = elim (Option-cases (codec.encode a)) [
    | inl e ↦ ground (arith, e)
    | inr (b, e) ↦ rw (laws.get-set_live t u ttl k b r q (ground (arith, e)) lt, trip a b e)
  ]

  get-set_encoded_expired :
      (t u ttl : ℕ) (k : String) (a : A) (r q : R)
      → set_encoded client t k (codec.encode a) ttl r ≡ (ok tt, q)
      → t + ttl < u
      → decoded codec (client.get u k q) ≡ err not_found
  unfolding set_encoded decoded
  get-set_encoded_expired t u ttl k a r q p lt = elim (Option-cases (codec.encode a)) [
    | inl e ↦ ground (arith, e)
    | inr (b, e) ↦ rw (laws.get-set_expired t u ttl k b r q (ground (arith, e)) lt)
  ]

  pub get-set_encoded_ne :
      (t u ttl : ℕ) (k j : String) (o : Option String) (r : R)
      → k ≢ j
      → client.get u j (set_encoded client t k o ttl r).1 ≡ client.get u j r
  unfolding set_encoded
  get-set_encoded_ne t u ttl k j none r ne = refl
  get-set_encoded_ne t u ttl k j (some b) r ne = laws.get-set_ne t u ttl k j b r ne

  decoded-ok :
      (x : Result (Option String)) (a : A)
      → decoded codec x ≡ ok a
      → (b : String) × (x ≡ ok (some b))
  unfolding decoded
  decoded-ok (ok none) a p = cc
  decoded-ok (ok (some b)) a p = (b, refl)
  decoded-ok (err e) a p = cc

  -- What GETDEL answers, decoded, is what GET does.
  taken :
      (t : ℕ) (k : String) (r : R)
      → decoded codec (client.get_del t k r).0 ≡ decoded codec (client.get t k r)
  taken t k r = ap (decoded codec) (laws.get_del-get t k r)

  -- A flow that was taken is no longer there.
  taken_once :
      (t u : ℕ) (k : String) (a : A) (r : R)
      → decoded codec (client.get_del t k r).0 ≡ ok a
      → decoded codec (client.get_del u k (client.get_del t k r).1).0 ≡ err not_found
  taken_once t u k a r p =
      let (b, e) = decoded-ok (client.get_del t k r).0 a p in
      taken u k (client.get_del t k r).1
      ∙ ap (decoded codec) (
          laws.get-get_del t u k b r (client.get_del t k r).1
            (λ i. (e i, (client.get_del t k r).1)))
      ∙ (unfold decoded in refl)

  pub taken_same :
      (t : ℕ) (k : String) (r q : R)
      → client.get t k q ≡ client.get t k r
      → decoded codec (client.get_del t k q).0 ≡ decoded codec (client.get_del t k r).0
  taken_same t k r q e = taken t k q ∙ ap (decoded codec) e ∙ sym (taken t k r)

module _ {R : Type 0} (client : Redis R) (laws : IsRedis client) (flow_codec : Codec Flow)
    (session_codec : Codec Session) (session_ttl flow_ttl : ℕ) (flow_trip : IsRoundTrip flow_codec)
    (session_trip : IsRoundTrip session_codec) where
  -- The store over Redis keeps the contract of `Store`, with the lifetimes it was built with, for a client
  -- whose commands do what Redis documents and codecs that read back what they wrote.
  pub redis_store-IsStore :
      IsStore
        (redis_store client flow_codec session_codec session_ttl flow_ttl)
        session_ttl
        flow_ttl
  unfolding put_session get_session delete_session put_flow take_flow
  redis_store-IsStore = record {
    get-put_live = λ t u k s d e p lt.
        get-set_encoded client laws session_codec session_trip t u session_ttl (sess_key k) s d e p
          lt;
    get-put_expired = λ t u k s d e p lt.
        get-set_encoded_expired client laws session_codec session_trip t u session_ttl (sess_key k)
          s d e p lt;
    get-put_ne = λ t u k j s d ne. ap (decoded session_codec) (
        get-set_encoded_ne client laws session_codec session_trip t u session_ttl (sess_key k)
          (sess_key j) _ d (λ e. ne (sess_key-injective k j e)));
    get-delete = λ t u k d e p. rw (laws.get-del t u (sess_key k) d e p) (unfold decoded in refl);
    get-delete_ne = λ t u k j d ne.
        ap (decoded session_codec)
          (laws.get-del_ne t u (sess_key k) (sess_key j) d (λ e. ne (sess_key-injective k j e)));
    take-put_live = λ t u k f d e p lt.
        taken client laws flow_codec flow_trip u (flow_key k) e
        ∙ (get-set_encoded client laws flow_codec flow_trip t u flow_ttl (flow_key k) f d e p lt);
    take-put_expired = λ t u k f d e p lt.
        taken client laws flow_codec flow_trip u (flow_key k) e
        ∙ (get-set_encoded_expired client laws flow_codec flow_trip t u flow_ttl (flow_key k) f d e
            p lt);
    take-take = λ t u k f d e p.
        ap (λ x. (take_flow client flow_codec session_codec session_ttl flow_ttl u k x).0)
          (sym (ap (λ x. x.1) p))
        ∙ taken_once client laws flow_codec flow_trip t u (flow_key k) f d (ap (λ x. x.0) p);
    take-take_ne = λ t u k j d ne.
        taken_same client laws flow_codec flow_trip u (flow_key j) d _ (
          laws.get-get_del_ne t u (flow_key k) (flow_key j) d (λ e. ne (flow_key-injective k j e)));
    take-put_ne = λ t u k j f d ne. taken_same client laws flow_codec flow_trip u (flow_key j) d _ (
        get-set_encoded_ne client laws flow_codec flow_trip t u flow_ttl (flow_key k) (flow_key j) _
          d (λ e. ne (flow_key-injective k j e)));
    get-put_flow = λ t u k j f d. ap (decoded session_codec) (
        get-set_encoded_ne client laws session_codec session_trip t u flow_ttl (flow_key k)
          (sess_key j) _ d (flow_key-ne-sess_key k j));
    get-take_flow = λ t u k j d.
        ap (decoded session_codec)
          (laws.get-get_del_ne t u (flow_key k) (sess_key j) d (flow_key-ne-sess_key k j));
    take-put_session = λ t u k j s d.
        taken_same client laws flow_codec flow_trip u (flow_key j) d _ (
          get-set_encoded_ne client laws session_codec session_trip t u session_ttl (sess_key k)
            (flow_key j) _ d (λ e. flow_key-ne-sess_key j k (sym e)));
    take-delete_session = λ t u k j d.
        taken_same client laws flow_codec flow_trip u (flow_key j) d _
          (laws.get-del_ne t u (sess_key k) (flow_key j) d (λ e. flow_key-ne-sess_key j k (sym e)));
  }
