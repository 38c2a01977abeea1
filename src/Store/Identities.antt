-- ===== src/Store/Identities.antt =====
-- `ServiceIdentity` of internal/platform/store/service_identities.go.
use aeon_backend.Base.{ℕ, String, List, Option}

pub record ServiceIdentity : Type 0 where
  pub service_id : String
  pub name : String
  pub kind : String
  pub subject_id : String
  pub public_key : String
  pub capabilities : List String
  pub status : String
  pub created_by : String
  pub created_at : ℕ
  pub disabled_by : String
  pub disabled_at : Option ℕ
  pub disable_reason : String
