-- ===== src/Session/Memory/Laws.antt =====
-- The in-process store keeps the contract of `Store`.
use signbyte_bff.Base.{
  ℕ, ◌+◌, String, ◌≡◌, ◌≢◌, refl, arith, eq_iff, eq_refl, inl, inr, some, Option-cases, ltb, Map,
  lookup, insert, remove, lookup-insert, lookup-remove, if◌then◌else◌,
}
use signbyte_bff.Errors.{ok, err, not_found}
use signbyte_bff.Session.{Flow, Session}
use signbyte_bff.Session.Interface.{Codec, IsRoundTrip, IsStore}
use signbyte_bff.Session.Memory.{
  Entry, MemoryStore, read, entry, put_flow, take_flow, put_session, get_session, delete_session,
  memory,
}

module _ {A : Type 0} (codec : Codec A) (trip : IsRoundTrip codec) where
  -- What was put under a key is read back from the map until it expires.
  read-insert :
      (a : A) (x u : ℕ) (k : String) (m : Map Entry) {e : Entry}
      → entry codec x a ≡ some e
      → read codec u (lookup k (insert k e m)) ≡ (if ltb x u then err not_found else ok a)
  unfolding read entry
  read-insert a x u k m {e} p = elim (Option-cases (codec.encode a)) [
    | inl q ↦ ground (arith, q)
    | inr (b, q) ↦ ground (arith, q, trip a b q, lookup-insert k k e m, eq_refl k)
  ]

  read-insert_ne :
      (u : ℕ) (k j : String) (m : Map Entry) (e : Entry)
      → k ≢ j
      → read codec u (lookup j (insert k e m)) ≡ read codec u (lookup j m)
  unfolding read
  read-insert_ne u k j m e ne = simp lookup-insert (ground (arith, eq_iff k j))

  read-remove :
      (u : ℕ) (k : String) (m : Map Entry) → read codec u (lookup k (remove k m)) ≡ err not_found
  unfolding read
  read-remove u k m = simp (lookup-remove, eq_refl)

  read-remove_ne :
      (u : ℕ) (k j : String) (m : Map Entry)
      → k ≢ j
      → read codec u (lookup j (remove k m)) ≡ read codec u (lookup j m)
  unfolding read
  read-remove_ne u k j m ne = simp lookup-remove (ground (arith, eq_iff k j))

module _ (flow_codec : Codec Flow) (session_codec : Codec Session) (session_ttl flow_ttl : ℕ)
    (flow_trip : IsRoundTrip flow_codec) (session_trip : IsRoundTrip session_codec) where
  get-put :
      (t u : ℕ) (k : String) (s : Session) (d e : MemoryStore)
      → put_session flow_codec session_codec session_ttl flow_ttl t k s d ≡ (ok tt, e)
      → get_session flow_codec session_codec session_ttl flow_ttl u k e
        ≡ (if ltb (t + session_ttl) u then err not_found else ok s)
  unfolding put_session get_session
  get-put t u k s d e p = elim (Option-cases (entry session_codec (t + session_ttl) s)) [
    | inl q ↦ ground (arith, q)
    | inr (x, q) ↦
        ground
          (arith, q, read-insert session_codec session_trip s (t + session_ttl) u k d.sessions q)
  ]

  take-put :
      (t u : ℕ) (k : String) (f : Flow) (d e : MemoryStore)
      → put_flow flow_codec session_codec session_ttl flow_ttl t k f d ≡ (ok tt, e)
      → (take_flow flow_codec session_codec session_ttl flow_ttl u k e).0
        ≡ (if ltb (t + flow_ttl) u then err not_found else ok f)
  unfolding put_flow take_flow
  take-put t u k f d e p = elim (Option-cases (entry flow_codec (t + flow_ttl) f)) [
    | inl q ↦ ground (arith, q)
    | inr (x, q) ↦
        ground (arith, q, read-insert flow_codec flow_trip f (t + flow_ttl) u k d.flows q)
  ]

  -- The in-process store keeps the contract of `Store`, with the lifetimes it was built with, for codecs
  -- that read back what they wrote.
  pub memory-IsStore :
      IsStore (memory flow_codec session_codec session_ttl flow_ttl) session_ttl flow_ttl
  unfolding put_session get_session delete_session put_flow take_flow
  memory-IsStore = record {
    get-put_live = λ t u k s d e p lt. ground (arith, get-put t u k s d e p);
    get-put_expired = λ t u k s d e p lt. ground (arith, get-put t u k s d e p);
    get-put_ne = λ t u k j s d ne. elim (Option-cases (entry session_codec (t + session_ttl) s)) [
      | inl q ↦ rw (q, put_session)
      | inr (x, q) ↦
          rw (q, put_session) (read-insert_ne session_codec session_trip u k j d.sessions x ne)
    ];
    get-delete =
        λ t u k d e p. ground (arith, read-remove session_codec session_trip u k d.sessions);
    get-delete_ne = λ t u k j d ne. read-remove_ne session_codec session_trip u k j d.sessions ne;
    take-put_live = λ t u k f d e p lt. ground (arith, take-put t u k f d e p);
    take-put_expired = λ t u k f d e p lt. ground (arith, take-put t u k f d e p);
    take-take = λ t u k f d e p. ground (arith, read-remove flow_codec flow_trip u k d.flows);
    take-take_ne = λ t u k j d ne. read-remove_ne flow_codec flow_trip u k j d.flows ne;
    take-put_ne = λ t u k j f d ne. elim (Option-cases (entry flow_codec (t + flow_ttl) f)) [
      | inl q ↦ rw (q, put_flow)
      | inr (x, q) ↦ rw (q, put_flow) (read-insert_ne flow_codec flow_trip u k j d.flows x ne)
    ];
    get-put_flow = λ t u k j f d. elim (Option-cases (entry flow_codec (t + flow_ttl) f)) [
      | inl q ↦ rw (q, put_flow)
      | inr (x, q) ↦ rw (q, put_flow)
    ];
    get-take_flow = λ t u k j d. refl;
    take-put_session = λ t u k j s d.
        elim (Option-cases (entry session_codec (t + session_ttl) s)) [
          | inl q ↦ rw (q, put_session)
          | inr (x, q) ↦ rw (q, put_session)
        ];
    take-delete_session = λ t u k j d. refl;
  }
