-- ===== src/Placement/Store.antt =====
-- placement/memory/memory.go: the store, and its methods under the mutex.
use k8s_lab.Common.{
  String, Bool, true, false, List, [], Option, none, some, ◌&&◌, not, ◌==◌, string_eq,
  if◌then◌else◌, keep, any,
}
use k8s_lab.Common.Map.{Map, get, put, delete, delete_where, has, entries, values}
use k8s_lab.Common.Sort.{sort_by}
use k8s_lab.Common.Clock.{Time, truncate_us}
use k8s_lab.Common.Text.{Unicode, join}
use k8s_lab.Common.Result.{Result, ok, err}
use k8s_lab.Placement.{
  Error, not_found, conflict, invalid, Placement, Trigger, is_invalid, is_invalid_trigger, collides,
  canonical_repo,
}
use Prim.Native.String.{compare}
use Prim.Native.Nat.{Ordering}

pub record Store : Type 0 where
  pub by_key : Map String Placement
  pub owners : Map String String
  pub ns_owners : Map String String
  pub triggers : Map String Trigger

unfoldable pub new : Store
new = record { by_key = []; owners = []; ns_owners = []; triggers = [] }

abbrev pub Handler : Type 0 → Type 0
Handler A = Store → Result Error A × Store

unfoldable pub key : String → String → String → String
unfolding join
key tenant_id app env = join tenant_id (join app env)

abbrev pub key_of : Placement → String
key_of p = key p.tenant_id p.app p.env

-- `owner, claimed := owners[name]; claimed && owner != tenantID`
unfoldable pub is_taken : String → String → Map String String → Bool
is_taken tenant_id name owners = elim (get name owners) [
  | none ↦ false
  | some owner ↦ not (owner == tenant_id)
]

-- The loop over the other placements.
unfoldable pub collides_with_other : Placement → Map String Placement → Bool
collides_with_other p by_key = any (λ x. not (x.0 == key_of p) && collides p x.1) (entries by_key)

abbrev pub is_repo_used : Map String Placement → String → Bool
is_repo_used by_key repo = any (λ p. p.repo_url == repo) (values by_key)

abbrev pub is_namespace_used : Map String Placement → String → Bool
is_namespace_used by_key ns = any (λ p. p.namespace == ns) (values by_key)

unfoldable pub release_unused : Store → Store
release_unused s = record s {
  owners = delete_where (λ repo t. not (is_repo_used s.by_key repo)) s.owners;
  ns_owners = delete_where (λ ns t. not (is_namespace_used s.by_key ns)) s.ns_owners;
}

-- The time that `Put` keeps of a placement that it replaces.
unfoldable pub created_before : Option Placement → Time → Time
created_before none now = now
created_before (some old) now = old.created_at

abbrev pub stamped : Time → Placement → Store → Placement
stamped now p s = record p {
  created_at = created_before (get (key_of p) s.by_key) (truncate_us now);
  updated_at = truncate_us now;
}

unfoldable pub put_placement : Time → Placement → Handler Placement
unfolding created_before
put_placement now p s =
    if is_invalid p
    then (err invalid, s)
    else if is_taken p.tenant_id p.repo_url s.owners
    then (err conflict, s)
    else if is_taken p.tenant_id p.namespace s.ns_owners
    then (err conflict, s)
    else if collides_with_other p s.by_key
    then (err conflict, s)
    else (
      ok (stamped now p s),
      release_unused (record s {
        owners = put p.repo_url p.tenant_id s.owners;
        ns_owners = put p.namespace p.tenant_id s.ns_owners;
        by_key = put (key_of p) (stamped now p s) s.by_key;
      }),
    )

unfoldable pub get_placement : String → String → String → Store → Result Error Placement
get_placement tenant_id app env s = elim (get (key tenant_id app env) s.by_key) [
  | none ↦ err not_found
  | some p ↦ ok p
]

abbrev pub not_after : String → String → Bool
not_after a b = elim (compare a b) [ Ordering.gt ↦ false | _ ↦ true ]

-- `strings.Compare` on the app, then on the env.
abbrev pub by_app_and_env : Placement → Placement → Bool
by_app_and_env a b = if a.app == b.app then not_after a.env b.env else not_after a.app b.app

unfoldable pub list : String → Store → Result Error (List Placement)
list tenant_id s =
    if tenant_id == ""
    then err invalid
    else ok (sort_by by_app_and_env (keep (λ p. p.tenant_id == tenant_id) (values s.by_key)))

unfoldable pub delete_placement : String → String → String → Store → Store
delete_placement tenant_id app env s = release_unused (record s {
  by_key = delete (key tenant_id app env) s.by_key;
  triggers = delete (key tenant_id app env) s.triggers;
})

unfoldable pub set_trigger : Unicode → Trigger → Handler (Unit {0})
set_trigger u t s =
    if is_invalid_trigger t
    then (err invalid, s)
    else if not (has (key t.tenant_id t.app t.env) s.by_key)
    then (err not_found, s)
    else (
      ok tt,
      record s {
        triggers =
            put (key t.tenant_id t.app t.env) (record t { repo_url = canonical_repo u t.repo_url })
              s.triggers;
      },
    )

abbrev by_tenant_app_and_env : Trigger → Trigger → Bool
by_tenant_app_and_env a b =
    if a.tenant_id == b.tenant_id
    then (if a.app == b.app then not_after a.env b.env else not_after a.app b.app)
    else not_after a.tenant_id b.tenant_id

abbrev pub is_match : String → String → Trigger → Bool
is_match provider want t = t.provider == provider && (t.repo_url == want && not (t.secret == ""))

unfoldable pub triggers_for : Unicode → String → String → Store → List Trigger
triggers_for u provider repo_url s =
    sort_by by_tenant_app_and_env
      (keep (is_match provider (canonical_repo u repo_url)) (values s.triggers))

-- The empty string where nobody holds the repository: a map answers a missing key with it.
unfoldable pub repo_owner : String → Store → String
repo_owner repo_url s = elim (get repo_url s.owners) [ none ↦ "" | some t ↦ t ]
