-- ===== src/Compose/Workloads/HealthPorts.antt =====
-- The port of a workload that asWorkload of compose/convert.go takes from a health check.
use k8s_lab.Common.{true, false, none, some, ◌&&◌, ◌==◌, nat_eq, list_eq, ◌≡◌, refl, ap, ◌∙◌}
use k8s_lab.Common.Bytes.{Bytes, all, atoi}
use k8s_lab.Common.Int.{ℤ, to_int32}
use k8s_lab.Compose.{Runtime, Template, Service, Options}
use k8s_lab.Compose.Ports.{is_host_char, container_port, health_port}
use k8s_lab.Compose.Ports.Range.{url_with, health_port-url_with}
use k8s_lab.Compose.Workloads.{positive, port_choice, as_workload, workload_from}

-- A port that a workload takes from the URL of a health check is not checked: for a service with no
-- published port that can be read, to which the template's own port does not apply, and with the
-- health check `http://localhost:PORT/`, where PORT is a numeral of characters of a host, the
-- workload's port is the number of that numeral, whatever it is, converted to an int32.
pub health_port_unchecked :
    (go : Runtime) (t : Template) (name : Bytes) (svc : Service) (o : Options)
    (primary port : Bytes) (n : ℤ)
    → (name == primary && positive t.port) ≡ false
    → container_port svc.ports ≡ none
    → svc.health_check ≡ some (url_with port)
    → all is_host_char port ≡ true
    → atoi port ≡ some n
    → (as_workload go t name svc o primary).0.port ≡ to_int32 n
unfolding as_workload workload_from port_choice
health_port_unchecked go t name svc o primary port n other unpublished checked chars numeral =
    let e : health_port svc.health_check ≡ some (to_int32 n) =
      ap health_port checked ∙ health_port-url_with port n chars numeral in
    rw (other, unpublished) (rw e refl)
