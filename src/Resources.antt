-- ===== src/Resources.antt =====
-- src/resources.rs: the snapshot of the game's resources. Times are natural numbers.
pub mod Selection
pub mod Greatest
mod Tests
use sirius_api_proxy.Base.{ℕ, String, Option}
use sirius_api_proxy.Region.{Region}

pub record ResourceSnapshot : Type 0 where
  pub schema_version : ℕ
  pub region : Region
  pub environment : String
  pub platform : String
  pub client_version : String
  pub protocol_version : String
  pub master_version : Option String
  pub resource_version : String
  pub platform_hash : String
  pub effective_cdn_root : String
  pub credential_ref : String
  pub observed_at : ℕ
  pub source : String
  pub catalog_layout : Option String
  pub catalog_url : Option String
  pub bundle_base_url : Option String
  pub cdn_authorization : Option String
