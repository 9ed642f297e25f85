-- ===== src/Routes/Verify/Inflight.antt =====
-- The gate under every interleaving of requests that begin and end.
use signbyte_bff.Base.{
  ℕ, suc, ◌-◌, ◌≤◌, String, ◌≡◌, ◌≢◌, refl, sym, ap, ◌∙◌, true, false, ◌==◌, ◌⊎◌, inl, inr, List,
  [], ◌∷◌, some, leb, In, lookup, insert, lookup-insert, lookup-remove, ℤ, arith, eq_iff,
  Bool-cases, if◌then◌else◌,
}
use mathlib.Core.Path.{subst}
use signbyte_bff.Routes.Verify.{
  InflightGate, at_least_one, new_inflight_gate, number, acquire, release,
}

-- The requests that run, by their address.
abbrev pub running_for : String → List String → ℕ
running_for j [] = 0
running_for j (k ∷ keys) = if k == j then suc (running_for j keys) else running_for j keys

-- One request of the address ends.
abbrev pub without : String → List String → List String
without k [] = []
without k (i ∷ keys) = if i == k then keys else i ∷ without k keys

-- A request begins if the gate lets it in, is turned away otherwise, or ends.
pub data Step : InflightGate × List String → InflightGate × List String → Type 0 where
  begins :
      (k : String) (g h : InflightGate) (keys : List String)
      → acquire k g ≡ (true, h)
      → Step (g, keys) (h, k ∷ keys)
  turned_away :
      (k : String) (g h : InflightGate) (keys : List String)
      → acquire k g ≡ (false, h)
      → Step (g, keys) (h, keys)
  ends :
      (k : String) (g : InflightGate) (keys : List String)
      → In k keys
      → Step (g, keys) (release k g, without k keys)

pub data Reach (max_per_key : ℤ) : InflightGate × List String → Type 0 where
  starts : Reach max_per_key (new_inflight_gate max_per_key, [])
  goes_on :
      {s t : InflightGate × List String} → Reach max_per_key s → Step s t → Reach max_per_key t

-- The gate has counted the running requests of each address, none exceeds the cap, and an address
-- without a running request has no entry.
pub record IsCounted (max_per_key : ℤ) (s : InflightGate × List String) : Type 0 where
  pub cap : s.0.max ≡ at_least_one max_per_key
  pub counted : (j : String) → number (lookup j s.0.per_ip) ≡ running_for j s.1
  pub capped : (j : String) → running_for j s.1 ≤ s.0.max
  pub in_flight : (j : String) → lookup j s.0.per_ip ≢ some 0

one_running : (k : String) (keys : List String) → In k keys → 1 ≤ running_for k keys
one_running k [] m = absurd m
one_running k (i ∷ keys) m = ground (arith, eq_iff i k, one_running k keys)

running_for-without :
    (j k : String) (keys : List String)
    → In k keys
    → running_for j (without k keys)
      ≡ (if k == j then running_for j keys - 1 else running_for j keys)
running_for-without j k [] m = absurd m
running_for-without j k (i ∷ keys) m =
    ground
      (arith, eq_iff i k, eq_iff i j, eq_iff k j, running_for-without j k keys, one_running k keys)

abbrev pub taken : String → InflightGate → InflightGate
taken k g = record g { per_ip = insert k (suc (number (lookup k g.per_ip))) g.per_ip }

pub acquire_cases :
    (k : String) (g : InflightGate)
    → ((acquire k g ≡ (false, g)) × (g.max ≤ number (lookup k g.per_ip)))
      ⊎ ((acquire k g ≡ (true, taken k g)) × (suc (number (lookup k g.per_ip)) ≤ g.max))
unfolding acquire
acquire_cases k g = elim (Bool-cases (leb g.max (number (lookup k g.per_ip)))) [
  | inl p ↦ inl (rw p refl, ground (arith, p))
  | inr p ↦ inr (rw p refl, ground (arith, p))
]

module _ (max_per_key : ℤ) (k : String) (g : InflightGate) (keys : List String)
    (h : IsCounted max_per_key (g, keys)) where
  taken-IsCounted :
      suc (number (lookup k g.per_ip)) ≤ g.max → IsCounted max_per_key (taken k g, k ∷ keys)
  unfolding number
  taken-IsCounted room = record {
    cap = h.cap;
    counted = λ j. ground (
      arith,
      lookup-insert k j (suc (number (lookup k g.per_ip))) g.per_ip,
      h.counted j,
      h.counted k,
      eq_iff k j,
    );
    capped = λ j. ground (arith, h.capped j, h.counted j, h.counted k, eq_iff k j);
    in_flight = λ j e. ground (
      arith,
      lookup-insert k j (suc (number (lookup k g.per_ip))) g.per_ip,
      h.in_flight j,
      eq_iff k j,
    );
  }

  release-IsCounted : In k keys → IsCounted max_per_key (release k g, without k keys)
  unfolding release
  release-IsCounted m = elim (Bool-cases (leb (number (lookup k g.per_ip)) 1)) [
    | inl p ↦ rw p (record {
      cap = h.cap;
      counted = λ j.
          unfold number in
          ground (
            arith,
            lookup-remove k j g.per_ip,
            running_for-without j k keys m,
            h.counted j,
            h.counted k,
            eq_iff k j,
            p,
          );
      capped = λ j. ground (arith, running_for-without j k keys m, h.capped j);
      in_flight = λ j e. ground (arith, lookup-remove k j g.per_ip, h.in_flight j);
    })
    | inr p ↦ rw p (record {
      cap = h.cap;
      counted = λ j.
          unfold number in
          ground (
            arith,
            lookup-insert k j (number (lookup k g.per_ip) - 1) g.per_ip,
            running_for-without j k keys m,
            h.counted j,
            h.counted k,
            eq_iff k j,
            p,
          );
      capped = λ j. ground (arith, running_for-without j k keys m, h.capped j);
      in_flight = λ j e.
          ground
            (arith, lookup-insert k j (number (lookup k g.per_ip) - 1) g.per_ip, h.in_flight j, p);
    })
  ]

new-IsCounted : (max_per_key : ℤ) → IsCounted max_per_key (new_inflight_gate max_per_key, [])
unfolding new_inflight_gate lookup number
new-IsCounted max_per_key = record {
  cap = refl;
  counted = λ j. refl;
  capped = λ j. omega arith;
  in_flight = λ j e. cc;
}

Step-IsCounted :
    (max_per_key : ℤ) (s t : InflightGate × List String)
    → IsCounted max_per_key s
    → Step s t
    → IsCounted max_per_key t
Step-IsCounted max_per_key _ _ h (begins k g g' keys e) = elim (acquire_cases k g) [
  | inl (p, full) ↦ absurd (cc)
  | inr (p, room) ↦
      subst (λ x. IsCounted max_per_key (x, k ∷ keys)) (ap (λ x. x.1) (sym p ∙ e))
        (taken-IsCounted max_per_key k g keys h room)
]
Step-IsCounted max_per_key _ _ h (turned_away k g g' keys e) = elim (acquire_cases k g) [
  | inl (p, full) ↦ subst (λ x. IsCounted max_per_key (x, keys)) (ap (λ x. x.1) (sym p ∙ e)) h
  | inr (p, room) ↦ absurd (cc)
]
Step-IsCounted max_per_key _ _ h (ends k g keys m) = release-IsCounted max_per_key k g keys h m

Reach-IsCounted :
    (max_per_key : ℤ) (s : InflightGate × List String)
    → Reach max_per_key s
    → IsCounted max_per_key s
Reach-IsCounted max_per_key _ starts = new-IsCounted max_per_key
Reach-IsCounted max_per_key _ (goes_on r st) =
    Step-IsCounted max_per_key _ _ (Reach-IsCounted max_per_key _ r) st

-- Under a cap of one, whatever requests began, were turned away and ended, in any order, the gate has
-- counted the running requests of each address, no address has two, and an address at rest has no entry.
pub Reach-IsCounted_one :
    (max_per_key : ℤ) (s : InflightGate × List String)
    → at_least_one max_per_key ≡ 1
    → Reach max_per_key s
    → IsCounted max_per_key s × ((j : String) → running_for j s.1 ≤ 1)
Reach-IsCounted_one max_per_key s one r =
    let h : IsCounted max_per_key s = Reach-IsCounted max_per_key s r in
    (h, λ j. omega (arith, one, h.cap, h.capped j))
