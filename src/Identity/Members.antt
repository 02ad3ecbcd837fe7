-- ===== src/Identity/Members.antt =====
-- The membership methods of identity/memory/memory.go.
use k8s_lab.Common.{String, List, none, some, not, ◌==◌, string_eq, if◌then◌else◌, keep}
use k8s_lab.Common.Map.{get, put, delete, has, values}
use k8s_lab.Common.Result.{Result, ok, err}
use k8s_lab.Common.Clock.{Time}
use k8s_lab.Identity.{Error, not_found, duplicate, invalid, Membership, is_valid_role}
use k8s_lab.Identity.Store.{Store, Handler, member_key}
use k8s_lab.Identity.Tenants.{stamp}

unfoldable pub add_member : Time → Membership → Handler (Unit {0})
add_member now m s =
    if not (is_valid_role m.role)
    then (err invalid, s)
    else if not (has m.account_id s.accounts)
    then (err not_found, s)
    else if not (has m.tenant_id s.tenants)
    then (err not_found, s)
    else if has (member_key m.account_id m.tenant_id) s.members
    then (err duplicate, s)
    else (
      ok tt,
      record s {
        members =
            put (member_key m.account_id m.tenant_id)
              (record m { created_at = stamp now m.created_at }) s.members;
      },
    )

unfoldable pub membership : String → String → Store → Result Error Membership
membership account_id tenant_id s = elim (get (member_key account_id tenant_id) s.members) [
  | none ↦ err not_found
  | some m ↦ ok m
]

-- In the order in which `range` visits the map, which Go leaves open.
unfoldable pub memberships : String → Store → List Membership
memberships account_id s = keep (λ m. m.account_id == account_id) (values s.members)

unfoldable pub remove_member : String → String → Handler (Unit {0})
remove_member account_id tenant_id s =
    if not (has (member_key account_id tenant_id) s.members)
    then (err not_found, s)
    else (ok tt, record s { members = delete (member_key account_id tenant_id) s.members })
