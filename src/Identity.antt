-- ===== src/Identity.antt =====
-- identity/identity.go: who may act, in which tenant, and how they proved it. The store of
-- identity/memory/memory.go is modelled by the children.
pub mod Store
pub mod Tenants
pub mod Accounts
pub mod Members
pub mod Sessions
pub mod Bootstrap
pub mod Cases
pub mod Owned
pub mod Invariant
pub mod History
pub mod Revocation
pub mod Lookups
pub mod Ownership
pub mod Digests
use k8s_lab.Common.{String, Bool, List, ℕ, ◌||◌, ◌==◌, string_eq}
use k8s_lab.Common.Clock.{Time}

pub data Error : Type 0 where
  not_found duplicate invalid : Error

-- `Role` is a string type: a value outside the three can be written down.
abbrev pub Role : Type 0
Role = String

abbrev pub role_owner : Role
role_owner = "owner"

abbrev pub role_member : Role
role_member = "member"

abbrev pub role_viewer : Role
role_viewer = "viewer"

abbrev pub is_valid_role : Role → Bool
is_valid_role r = r == role_owner || (r == role_member || r == role_viewer)

pub record Tenant : Type 0 where
  pub id : String
  pub slug : String
  pub display_name : String
  pub suspended : Bool
  pub created_at : Time

pub record Account : Type 0 where
  pub id : String
  pub kind : String
  pub email : String
  pub audit_email : String
  pub display_name : String
  pub disabled : Bool
  pub created_at : Time

pub record Credential : Type 0 where
  pub account_id : String
  pub hash : String
  pub updated_at : Time

pub record Membership : Type 0 where
  pub account_id : String
  pub tenant_id : String
  pub role : Role
  pub created_at : Time

pub record Session : Type 0 where
  pub digest : List ℕ
  pub account_id : String
  pub issued_for : String
  pub created_at : Time
  pub expires_at : Time
