-- ===== src/Authz.antt =====
-- authz/authz.go and authz/rbac/rbac.go: the one place where a permission is decided.
pub mod Permissions
use k8s_lab.Common.{
  String, Bool, true, false, List, [], ◌∷◌, ◌||◌, ◌&&◌, not, ◌==◌, string_eq, if◌then◌else◌,
}
use Prim.Native.String.{◌++◌}

-- `Action` is a string type with a closed set of constants; `unlisted` is any other string.
pub data Action : Type 0 where
  app_view app_deploy app_rollback app_restart app_scale app_settings : Action
  app_delete app_connect app_exec database_create database_delete : Action
  env_create evidence_view evidence_export member_invite tenant_admin : Action
  unlisted : String → Action

pub record Subject : Type 0 where
  pub id : String
  pub tenant : String
  pub email : String
  pub groups : List String

pub record Target : Type 0 where
  pub tenant : String
  pub app : String
  pub env : String

pub record Decision : Type 0 where
  pub allow : Bool
  pub reason : String

abbrev pub role_owner : String
role_owner = "owner"

abbrev pub role_member : String
role_member = "member"

abbrev pub role_viewer : String
role_viewer = "viewer"

-- One round of the loop over the groups.
unfoldable pub take_group : String → String → String
take_group role g =
    if g == role_owner
    then role_owner
    else if g == role_member
    then (if not (role == role_owner) then role_member else role)
    else role

unfoldable pub strongest : String → List String → String
strongest role [] = role
strongest role (g ∷ gs) = strongest (take_group role g) gs

-- The `switch` on the action.
unfoldable pub decide_action : String → Action → Decision
decide_action role app_view = record { allow = true; reason = role ++ " may read" }
decide_action role evidence_view = record { allow = true; reason = role ++ " may read" }
decide_action role app_deploy = record {
  allow = not (role == role_viewer);
  reason = role ++ " deploy right";
}
decide_action role app_rollback = record {
  allow = not (role == role_viewer);
  reason = role ++ " deploy right";
}
decide_action role env_create = record {
  allow = not (role == role_viewer);
  reason = role ++ " deploy right";
}
decide_action role evidence_export = record {
  allow = not (role == role_viewer);
  reason = role ++ " deploy right";
}
decide_action role app_restart = record {
  allow = not (role == role_viewer);
  reason = role ++ " may change how an app runs";
}
decide_action role app_scale = record {
  allow = not (role == role_viewer);
  reason = role ++ " may change how an app runs";
}
decide_action role app_settings = record {
  allow = not (role == role_viewer);
  reason = role ++ " may configure an app";
}
decide_action role app_delete = record {
  allow = not (role == role_viewer);
  reason = role ++ " may unregister an app";
}
decide_action role database_create = record {
  allow = not (role == role_viewer);
  reason = role ++ " may create a database";
}
decide_action role database_delete = record {
  allow = role == role_owner;
  reason = role ++ " may remove a database";
}
decide_action role app_exec = record {
  allow = role == role_owner;
  reason = role ++ " may run a command in a container";
}
decide_action role app_connect = record {
  allow = role == role_owner;
  reason = role ++ " may choose the signer";
}
decide_action role other = record {
  allow = role == role_owner;
  reason = role ++ " administrative right";
}

unfoldable pub authorize : Subject → Action → Target → Decision
authorize s act t =
    if s.tenant == "" || not (s.tenant == t.tenant)
    then record { allow = false; reason = "subject belongs to a different tenant" }
    else decide_action (strongest role_viewer s.groups) act

-- CanDeploy
unfoldable pub can_deploy : Subject → Target → Decision
can_deploy s t = authorize s app_deploy t
