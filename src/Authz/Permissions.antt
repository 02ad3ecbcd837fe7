-- ===== src/Authz/Permissions.antt =====
-- Who may do what, as a table of ranks beside `Authorize` (authz/rbac/rbac.go).
use k8s_lab.Common.{
  String, Bool, true, false, List, [], ◌∷◌, ◌≡◌, refl, ◌&&◌, not, ◌==◌, string_eq, eq_iff, arith,
  if◌then◌else◌, contains,
}
use k8s_lab.Authz.{
  Action, app_view, app_deploy, app_rollback, app_restart, app_scale, app_settings, app_delete,
  database_create, env_create, evidence_view, evidence_export, Subject, Target, role_owner,
  role_member, role_viewer, take_group, strongest, decide_action, authorize,
}

pub data Rank : Type 0 where
  viewer member owner : Rank

-- The rank of somebody with these groups.
abbrev pub rank_of : List String → Rank
rank_of groups =
    if contains groups role_owner
    then Rank.owner
    else if contains groups role_member
    then Rank.member
    else Rank.viewer

-- The least rank that an action takes.
abbrev pub required : Action → Rank
required app_view = viewer
required evidence_view = viewer
required app_deploy = member
required app_rollback = member
required env_create = member
required evidence_export = member
required app_restart = member
required app_scale = member
required app_settings = member
required app_delete = member
required database_create = member
required _ = owner

abbrev pub is_enough : Rank → Rank → Bool
is_enough r viewer = true
is_enough viewer member = false
is_enough r member = true
is_enough owner owner = true
is_enough r owner = false

abbrev pub role_named : Rank → String
role_named viewer = role_viewer
role_named member = role_member
role_named owner = role_owner

-- The loop's role is one of the three, so it stands for a rank.
strongest_owner : (gs : List String) → strongest role_owner gs ≡ role_owner
unfolding strongest take_group
strongest_owner [] = refl
strongest_owner (g ∷ gs) = ground (arith, strongest_owner gs)

strongest_member :
    (gs : List String)
    → strongest role_member gs ≡ (if contains gs role_owner then role_owner else role_member)
unfolding strongest take_group contains
strongest_member [] = refl
strongest_member (g ∷ gs) = ground (arith, strongest_owner gs, strongest_member gs)

strongest_viewer : (gs : List String) → strongest role_viewer gs ≡ role_named (rank_of gs)
unfolding strongest take_group contains
strongest_viewer [] = refl
strongest_viewer (g ∷ gs) = ground (
  arith,
  strongest_owner gs,
  strongest_member gs,
  strongest_viewer gs,
  eq_iff g role_owner,
  eq_iff g role_member,
)

allow-decide_action :
    (r : Rank) (a : Action) → (decide_action (role_named r) a).allow ≡ is_enough r (required a)
unfolding decide_action
allow-decide_action viewer app_view = refl
allow-decide_action viewer _ = refl
allow-decide_action member app_view = refl
allow-decide_action member _ = refl
allow-decide_action owner app_view = refl
allow-decide_action owner _ = refl

-- The permission table: an action is allowed if and only if the subject has a tenant, it is the
-- target's, and the rank of the subject's groups reaches what the action takes. The order of the
-- groups, their number, and groups the platform has never heard of do not matter.
pub authorize_exact :
    (s : Subject) (a : Action) (t : Target)
    → (authorize s a t).allow
      ≡ (not (s.tenant == "") && s.tenant == t.tenant) && is_enough (rank_of s.groups) (required a)
unfolding authorize
authorize_exact s a t =
    ground (arith, strongest_viewer s.groups, allow-decide_action (rank_of s.groups) a)
