-- ===== src/Routes/Verify/Forwarded.antt =====
-- What an anonymous verification sends to the signing service, and what it leaves of the gate.
use signbyte_bff.Base.{
  ℕ, suc, ◌≤◌, String, true, List, [], ◌∷◌, none, some, ltb, leb, length, ◌≡◌, refl, sym, ◌∙◌,
  arith, All, Option-cases, Bool-cases, inl, inr,
}
use signbyte_bff.Server.{Effect, called_as_service, ServiceCall}
use signbyte_bff.Server.Monad.{M}
use signbyte_bff.Server.Safe.{Safe, Responds, Any as Whatever}
use signbyte_bff.Server.Public.{PublicRequest, PublicEnv}
use signbyte_bff.Server.Files.{Upload, FileHeader}
use signbyte_bff.Clients.Verify.{validate_call, multipart_upload}
use signbyte_bff.Routes.Verify.{InflightGate}
use signbyte_bff.Routes.Verify.Handler.{only_one, take, read_limited}
use signbyte_bff.Routes.Verify.Evidence.{take_all, length-take}

-- The call carries the form's one file, whole, which is within the limit and passed the document gate.
pub record IsForwarded (env : PublicEnv) (req : PublicRequest) (c : ServiceCall) : Type 0 where
  pub fh : FileHeader
  pub f : Upload
  pub boundary : String
  pub only : req.files "file" ≡ fh ∷ []
  pub opened : fh.opened ≡ some f
  pub within : length f.bytes ≤ env.verify_max_bytes
  pub passes : env.document_gate fh.filename f.bytes env.verify_max_bytes ≡ none
  pub whole : c ≡ validate_call env (multipart_upload boundary "file" fh.filename f.bytes)

abbrev pub Forwards : PublicEnv → PublicRequest → Effect → Type 0
Forwards env req (called_as_service c r) = IsForwarded env req c
Forwards env req e = Unit

pub only_one-some :
    (files : List FileHeader) (fh : FileHeader) → only_one files ≡ some fh → files ≡ fh ∷ []
unfolding only_one
only_one-some [] fh h = cc
only_one-some (a ∷ []) fh h = cc
only_one-some (a ∷ b ∷ files) fh h = cc

length-take_over :
    (n : ℕ) (bytes : List ℕ) → leb (length (take (suc n) bytes)) n ≡ true → length bytes ≤ n
length-take_over n bytes h = ground (arith, h, length-take n bytes)

taken :
    (max : ℕ) (whole bytes : List ℕ)
    → some (take (suc max) whole) ≡ some bytes
    → leb (length bytes) max ≡ true
    → (bytes ≡ whole) × (length whole ≤ max)
taken max whole bytes h k =
    let e : take (suc max) whole ≡ bytes = unwrap h in
    let fits : length whole ≤ max = length-take_over max whole (rw e k) in
    (sym e ∙ take_all (suc max) whole (omega (arith, fits)), fits)
  where
    unwrap : some (take (suc max) whole) ≡ some bytes → take (suc max) whole ≡ bytes
    unwrap p = cc

pub read-within :
    (max : ℕ) (f : Upload) (bytes : List ℕ)
    → read_limited (suc max) f ≡ some bytes
    → leb (length bytes) max ≡ true
    → (bytes ≡ f.bytes) × (length f.bytes ≤ max)
unfolding read_limited
read-within max f bytes h k = elim (Option-cases f.fails_after) [
  | inl p ↦ taken max f.bytes bytes (rw (← h) (rw p refl)) k
  | inr (position, p) ↦ elim (Bool-cases (ltb position (suc max))) [
    | inl q ↦ absurd (refused (sym h ∙ (rw p (rw q refl))))
    | inr q ↦ taken max f.bytes bytes (rw (← h) (rw p (rw q refl))) k
  ]
]
  where
    refused : some bytes ≡ none → ⊥
    refused e = cc

module _ (env : PublicEnv) (req : PublicRequest) where
  abbrev Fwd : {A : Type 0} → (A → Type 0) → M InflightGate A → Type 0
  Fwd Q m = Safe (All (Forwards env req)) (Responds true) Q m
