-- ===== src/Placement.antt =====
-- placement/placement.go: where one environment of one app lives in git, and what may not share
-- a place.
pub mod Store
pub mod Claims
pub mod Keeps
pub mod History
pub mod Isolation
pub mod Writes
pub mod Conflicts
use Prim.Native.String.{◌++◌}
use k8s_lab.Common.{String, Bool, ◌||◌, ◌&&◌, ◌==◌, string_eq}
use k8s_lab.Common.Map.{is_some}
use k8s_lab.Common.Clock.{Time}
use k8s_lab.Common.Text.{Unicode, to_lower, trim_space, trim_suffix}
use text.Mathlib.Text.{starts_with, find?}

pub data Error : Type 0 where
  not_found conflict invalid : Error

pub record Placement : Type 0 where
  pub tenant_id : String
  pub app : String
  pub env : String
  pub repo_url : String
  pub branch : String
  pub path : String
  pub namespace : String
  pub created_at : Time
  pub updated_at : Time

pub record Trigger : Type 0 where
  pub tenant_id : String
  pub app : String
  pub env : String
  pub provider : String
  pub repo_url : String
  pub secret : String

unfoldable pub canonical_repo : Unicode → String → String
canonical_repo u url = to_lower u (trim_suffix ".git" (trim_suffix "/" (trim_space u url)))

-- Placement.Validate: whether it returns an error. Every one is `ErrInvalid`.
unfoldable pub is_invalid : Placement → Bool
is_invalid p =
    (p.tenant_id == "" || (p.app == "" || p.env == ""))
    || (p.repo_url == ""
        || (p.namespace == ""
            || (p.branch == ""
                || (starts_with p.path "/"
                    || (p.path == "" || (p.path == "." || is_some (find? p.path "..")))))))

-- Trigger.Validate
unfoldable pub is_invalid_trigger : Trigger → Bool
is_invalid_trigger t =
    (t.tenant_id == "" || (t.app == "" || t.env == ""))
    || (t.provider == "" || (t.repo_url == "" || t.secret == ""))

-- Collision: whether it returns an error. Both are `ErrConflict`.
unfoldable pub collides : Placement → Placement → Bool
collides want have =
    (have.repo_url == want.repo_url && (have.branch == want.branch && have.path == want.path))
    || (have.namespace == want.namespace && have.app == want.app)
