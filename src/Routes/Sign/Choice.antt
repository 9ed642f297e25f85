-- ===== src/Routes/Sign/Choice.antt =====
-- As whom `signEnvelopeSlot` lets an e-seal sign.
use signbyte_bff.Base.{String, ◌≢◌, List, All}
use signbyte_bff.Session.{Seal}

-- No seal has the identifier.
abbrev pub IsUnknown : String → List Seal → Type 0
IsUnknown seal_id seals = All (λ s. s.id ≢ seal_id) seals
