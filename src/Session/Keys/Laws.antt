-- ===== src/Session/Keys/Laws.antt =====
-- The key of a parked sign-in names one state and one browser.
use Prim.Native.String.{◌++◌, count}
use text.Mathlib.TextLemmas.{append_inj, length-append, append_cancel_left}
use signbyte_bff.Base.{ℕ, ◌+◌, String, ◌≡◌, ap, ◌∙◌, arith}
use signbyte_bff.Session.Keys.{flow_key}

-- Two sign-ins share a key only if they have the same state and the same browser's binding: for a digest
-- of fixed length under which the bindings do not collide.
pub flow_key-injective :
    (digest : String → String) (size : ℕ) (s t b c : String)
    → ((x : String) → count (digest x) ≡ size)
    → (digest b ≡ digest c → b ≡ c)
    → flow_key digest s b ≡ flow_key digest t c
    → (s ≡ t) × (b ≡ c)
unfolding flow_key
flow_key-injective digest size s t b c fixed apart e =
    let (p, q) = append_inj e (counts s t b c e) in
    (p, apart (append_cancel_left "." (digest b) (digest c) q))
  where
    tail : (x : String) → count ("." ++ digest x) ≡ count "." + size
    tail x = length-append "." (digest x) ∙ ap (λ n. count "." + n) (fixed x)

    counts :
        (s t b c : String) → s ++ ("." ++ digest b) ≡ t ++ ("." ++ digest c) → count s ≡ count t
    counts s t b c e = omega (
      arith,
      ap count e,
      length-append s ("." ++ digest b),
      length-append t ("." ++ digest c),
      tail b,
      tail c,
    )
