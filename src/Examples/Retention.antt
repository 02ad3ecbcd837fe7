-- ===== src/Examples/Retention.antt =====
-- `Prune` of evidence/memory/memory.go with one deploy older than the window and one within it.
use k8s_lab.Common.{String, List, [], ◌∷◌, ◌-◌, ◌≡◌, ◌||◌, not, string_eq, if◌then◌else◌, nat_eqb}
use k8s_lab.Common.Clock.{before}
use k8s_lab.Common.Result.{ok, err}
use k8s_lab.Evidence.{Ref, Record, not_found}
use k8s_lab.Evidence.Ids.{pos}
use k8s_lab.Evidence.Store.{Store, new, get_record}
use k8s_lab.Evidence.Reads.{current, is_current, prune}
use k8s_lab.Evidence.Races.{appends}
use k8s_lab.Evidence.Retained.{Write, calls, prunes, written, prune_exact}
use k8s_lab.Examples.Deploys.{hasher, deploy}

abbrev writes : List Write
writes =
    calls (appends (pos 1000) 1000 (deploy "k1"))
    ∷ calls (appends (pos 9000) 9000 (deploy "k2"))
    ∷ prunes 9500
    ∷ []

abbrev archive : Store
archive = written hasher writes (new 5000)

prune_exact_example :
    ((id : String) (r : Record)
      → get_record id archive ≡ ok r
      → get_record id (prune 10000 archive).1 ≡ (
          if nat_eqb archive.window 0
            || (not (before r.created_at (10000 - archive.window)) || is_current archive r)
          then ok r
          else err not_found))
    × ((ref : Ref) (r : Record)
        → current ref archive ≡ ok r
        → get_record r.id (prune 10000 archive).1 ≡ ok r)
prune_exact_example = prune_exact hasher writes 5000 10000
