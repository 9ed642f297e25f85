-- ===== src/Routes/Verify/Evidence.antt =====
-- The evidence that an anonymous verification leaves.
use signbyte_bff.Base.{
  ℕ, zero, suc, ◌≤◌, String, Bool, true, false, not, ◌&&◌, ◌==◌, List, [], ◌∷◌, none, some, ltb,
  leb, length, ◌≡◌, refl, ap, arith,
}
use signbyte_bff.Server.{Effect, evidence_posted}
use signbyte_bff.Server.Monad.{St, ret, ◌>>=◌, emit, sample}
use signbyte_bff.Server.Public.{PublicRequest, PublicEnv}
use signbyte_bff.Server.Files.{Upload, FileHeader}
use signbyte_bff.Audit.{record_event}
use signbyte_bff.Routes.Verify.{InflightGate}
use signbyte_bff.Routes.Verify.Handler.{take, record_verify}

-- The evidence events of a trace.
abbrev pub evidence_count : List Effect → ℕ
evidence_count [] = 0
evidence_count (evidence_posted ev ∷ trace) = suc (evidence_count trace)
evidence_count (e ∷ trace) = evidence_count trace

-- The recorder has a client and an address.
abbrev pub records : PublicEnv → Bool
records env = env.has_doer && not (env.evidence_url == "")

-- The whole upload can be read and is within the limit.
abbrev pub fits : ℕ → Upload → Bool
fits max f =
    leb (length f.bytes) max
    && (elim f.fails_after [ none ↦ true | some position ↦ ltb max position ])

-- The form has one file, which states a size within the limit and can be opened and read within it.
abbrev pub is_sized : ℕ → List FileHeader → Bool
is_sized max [] = false
is_sized max (fh ∷ []) = leb fh.size max && (elim fh.opened [ none ↦ false | some f ↦ fits max f ])
is_sized max (fh ∷ other ∷ files) = false

pub length-take :
    (n : ℕ) (bytes : List ℕ) → leb (length (take (suc n) bytes)) n ≡ leb (length bytes) n
unfolding take
length-take n [] = refl
length-take zero (b ∷ []) = ground arith
length-take zero (b ∷ c ∷ bytes) = ground arith
length-take (suc n) (b ∷ bytes) = ground (arith, length-take n bytes)

pub take_all : (n : ℕ) (bytes : List ℕ) → length bytes ≤ n → take n bytes ≡ bytes
unfolding take
take_all n [] h = refl
take_all zero (b ∷ bytes) h = absurd (omega (arith, h))
take_all (suc n) (b ∷ bytes) h = ap (λ l. b ∷ l) (take_all n bytes (omega (arith, h)))

module _ (env : PublicEnv) (on : records env ≡ true) where
  record_verify-count :
      (req : PublicRequest) (ip : String) (size : ℕ) (sha verdict session_id : String)
      (s : St InflightGate)
      → evidence_count (record_verify env req ip size sha verdict session_id s).1.trace
        ≡ suc (evidence_count s.trace)
  unfolding record_verify record_event ◌>>=◌ sample emit ret
  record_verify-count req ip size sha verdict session_id s = ground (arith, on)
