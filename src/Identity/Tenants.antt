-- ===== src/Identity/Tenants.antt =====
-- The tenant methods of identity/memory/memory.go.

use k8s_lab.Common.{
  Bool, false, String, Option, none, some, ◌||◌, not, ◌==◌, string_eq, if◌then◌else◌,
}
use k8s_lab.Common.Map.{get, put, delete, has}
use k8s_lab.Common.Result.{Result, ok, err}
use k8s_lab.Common.Clock.{Time, or_now, truncate_us}
use k8s_lab.Identity.{Error, not_found, duplicate, invalid, Tenant}
use k8s_lab.Identity.Store.{Store, Handler}

-- A time that the store persists: `now` for the zero value, at the precision of a column.
abbrev pub stamp : Time → Time → Time
stamp now t = truncate_us (or_now t now)

unfoldable pub create_tenant : Time → Tenant → Handler Tenant
create_tenant now t s =
    let t' = record t { created_at = stamp now t.created_at } in
    if t.id == "" || t.slug == ""
    then (err invalid, s)
    else if has t.slug s.slugs
    then (err duplicate, s)
    else if has t.id s.tenants
    then (err duplicate, s)
    else (ok t', record s { tenants = put t.id t' s.tenants; slugs = put t.slug t.id s.slugs })

-- `taken && holder != t.ID`
unfoldable pub held_by_another : Option String → String → Bool
held_by_another none id = false
held_by_another (some holder) id = not (holder == id)

unfoldable pub update_tenant : Tenant → Handler Tenant
unfolding held_by_another
update_tenant t s =
    if t.id == "" || t.slug == "" then (err invalid, s) else elim (get t.id s.tenants) [
      | none ↦ (err not_found, s)
      | some old ↦
          let t' = record t { created_at = old.created_at } in
          if held_by_another (get t.slug s.slugs) t.id then (err duplicate, s) else (
            ok t',
            record s {
              slugs = put t.slug t.id (delete old.slug s.slugs);
              tenants = put t.id t' s.tenants;
            },
          )
    ]

-- A read leaves the store as it is, so it returns the result alone.
unfoldable pub tenant : String → Store → Result Error Tenant
tenant id s = elim (get id s.tenants) [ none ↦ err not_found | some t ↦ ok t ]

unfoldable pub tenant_by_slug : String → Store → Result Error Tenant
unfolding tenant
tenant_by_slug slug s = elim (get slug s.slugs) [ none ↦ err not_found | some id ↦ tenant id s ]
