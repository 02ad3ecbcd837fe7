-- ===== src/Examples/Places.antt =====
-- placement/memory/memory.go with two tenants that place apps.
use k8s_lab.Common.{
  String, true, false, List, [], ◌∷◌, ◌≡◌, ◌↔◌, inl, refl, arith, eq_iff, ◌==◌, string_eq, keep,
  any,
}
use k8s_lab.Common.Text.{caseless, to_lower, trim_space, trim_suffix, join}
use k8s_lab.Common.Clock.{Time, truncate_us}
use k8s_lab.Common.Result.{is_err}
use k8s_lab.Common.Map.{get, put, delete, delete_where, entries, values}
use k8s_lab.Placement.{Placement, Trigger, is_invalid, is_invalid_trigger, collides, canonical_repo}
use k8s_lab.Placement.Store.{
  Store, new, key, is_taken, collides_with_other, release_unused, created_before, put_placement,
  get_placement, set_trigger, list, triggers_for, repo_owner,
}
use k8s_lab.Placement.Claims.{IsClaimed, new-IsClaimed}
use k8s_lab.Placement.History.{Call, puts, step, run, run-IsClaimed}
use k8s_lab.Placement.Isolation.{reachable_isolated, reachable_apart, repo_owner_exact, IsPlaced}
use k8s_lab.Placement.Conflicts.{IsBlocked, put_placement_refuses_exactly}

abbrev placement : String → String → String → Placement
placement tenant_id env path = record {
  tenant_id = tenant_id;
  app = "api";
  env = env;
  repo_url = "https://git.test/acme/apps";
  branch = "main";
  path = path;
  namespace = env;
  created_at = 0;
  updated_at = 0;
}

abbrev prod : Placement
prod = placement "t1" "prod" "apps/prod"

abbrev dev : Placement
dev = placement "t1" "dev" "apps/dev"

abbrev calls : List (Time × Call)
calls = (1000, puts prod) ∷ (2000, puts dev) ∷ []

abbrev places : Store
places = run caseless calls new

claimed : IsClaimed places
claimed = run-IsClaimed caseless calls new new-IsClaimed

abbrev at_time : Time → Placement → Placement
at_time t p = record p { created_at = t; updated_at = t }

prod-IsPlaced : IsPlaced places (key "t1" "api" "prod") (at_time 1000 prod)
unfolding run step new put_placement get_placement is_invalid is_taken collides_with_other collides
    release_unused created_before set_trigger is_invalid_trigger list triggers_for canonical_repo
    trim_space trim_suffix to_lower key join get put delete delete_where keep entries values any
    truncate_us
prod-IsPlaced = refl

dev-IsPlaced : IsPlaced places (key "t1" "api" "dev") (at_time 2000 dev)
unfolding run step new put_placement get_placement is_invalid is_taken collides_with_other collides
    release_unused created_before set_trigger is_invalid_trigger list triggers_for canonical_repo
    trim_space trim_suffix to_lower key join get put delete delete_where keep entries values any
    truncate_us
dev-IsPlaced = refl

keys_differ : (key "t1" "api" "prod" == key "t1" "api" "dev") ≡ false
unfolding run step new put_placement get_placement is_invalid is_taken collides_with_other collides
    release_unused created_before set_trigger is_invalid_trigger list triggers_for canonical_repo
    trim_space trim_suffix to_lower key join get put delete delete_where keep entries values any
    truncate_us
keys_differ = refl

reachable_isolated_example : prod.tenant_id ≡ dev.tenant_id
reachable_isolated_example =
    reachable_isolated caseless calls (key "t1" "api" "prod") (key "t1" "api" "dev")
      (at_time 1000 prod) (at_time 2000 dev) prod-IsPlaced dev-IsPlaced (inl refl)

reachable_apart_example :
    (¬ ((prod.repo_url ≡ dev.repo_url) × (prod.branch ≡ dev.branch) × (prod.path ≡ dev.path)))
    × (¬ ((prod.namespace ≡ dev.namespace) × (prod.app ≡ dev.app)))
reachable_apart_example =
    reachable_apart caseless calls (key "t1" "api" "prod") (key "t1" "api" "dev")
      (at_time 1000 prod) (at_time 2000 dev) prod-IsPlaced dev-IsPlaced
      (λ e. ground (arith, keys_differ, eq_iff (key "t1" "api" "prod") (key "t1" "api" "dev")))

repo_owner_exact_example : (repo_owner "https://git.test/acme/apps" places ≡ "t1") ↔ (
    (k : String) × (p : Placement) × IsPlaced places k p
    × (p.repo_url ≡ "https://git.test/acme/apps")
    × (p.tenant_id ≡ "t1"))
repo_owner_exact_example =
    repo_owner_exact places "https://git.test/acme/apps" "t1" claimed
      (λ e. ground (arith, eq_iff "t1" ""))

replace_done : is_err (put_placement 3000 dev places).0 ≡ false
unfolding run step new put_placement get_placement is_invalid is_taken collides_with_other collides
    release_unused created_before set_trigger is_invalid_trigger list triggers_for canonical_repo
    trim_space trim_suffix to_lower key join get put delete delete_where keep entries values any
    truncate_us
replace_done = refl

abbrev hook : Trigger
hook = record {
  tenant_id = "t1";
  app = "api";
  env = "dev";
  provider = "github";
  repo_url = "https://git.test/acme/apps.git";
  secret = "s3cret";
}

hook_set : is_err (set_trigger caseless hook places).0 ≡ false
unfolding run step new put_placement get_placement is_invalid is_taken collides_with_other collides
    release_unused created_before set_trigger is_invalid_trigger list triggers_for canonical_repo
    trim_space trim_suffix to_lower key join get put delete delete_where keep entries values any
    truncate_us
hook_set = refl

same_repo :
    canonical_repo caseless "https://git.test/acme/apps/" ≡ canonical_repo caseless hook.repo_url
unfolding run step new put_placement get_placement is_invalid is_taken collides_with_other collides
    release_unused created_before set_trigger is_invalid_trigger list triggers_for canonical_repo
    trim_space trim_suffix to_lower key join get put delete delete_where keep entries values any
    truncate_us
same_repo = refl

abbrev intruder : Placement
intruder = placement "t2" "test" "apps/test"

intruder_valid : is_invalid intruder ≡ false
unfolding run step new put_placement get_placement is_invalid is_taken collides_with_other collides
    release_unused created_before set_trigger is_invalid_trigger list triggers_for canonical_repo
    trim_space trim_suffix to_lower key join get put delete delete_where keep entries values any
    truncate_us
intruder_valid = refl

put_placement_refuses_exactly_example :
    (is_err (put_placement 4000 intruder places).0 ≡ true) ↔ IsBlocked intruder places
put_placement_refuses_exactly_example =
    put_placement_refuses_exactly intruder places claimed 4000 intruder_valid
