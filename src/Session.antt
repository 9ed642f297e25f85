-- ===== src/Session.antt =====
-- session/session.go: what the server keeps for a browser, and the store that keeps it.
pub mod Interface
pub mod Memory
pub mod Redis
pub mod Keys
use signbyte_bff.Base.{ℕ, String, Bool, List, Option}

pub record Flow : Type 0 where
  pub key : String
  pub verifier : String
  pub nonce : String
  pub acr_values : String
  pub started : ℕ

pub record Seal : Type 0 where
  pub id : String
  pub label : String
  pub certificate : String

pub record Capabilities : Type 0 where
  pub sign_identity_id : String
  pub signing_certificate : String
  pub auth_certificate : String
  pub seals : List Seal
  pub seals_known : Bool

-- `access_expiry` is in Unix seconds.
pub record Session : Type 0 where
  pub key : String
  pub access_token : String
  pub access_expiry : ℕ
  pub refresh_token : String
  pub subject : String
  pub csrf : String
  pub capabilities : Option Capabilities
