-- ===== src/Server/Files.antt =====
-- The files of a multipart form, as the standard library hands them over.
use signbyte_bff.Base.{ℕ, String, List, Option}

-- An opened upload: reading fails when the read position passes `fails_after`.
pub record Upload : Type 0 where
  pub bytes : List ℕ
  pub fails_after : Option ℕ

-- multipart.FileHeader: the size that the form states, and what `Open` gives
pub record FileHeader : Type 0 where
  pub filename : String
  pub size : ℕ
  pub opened : Option Upload
