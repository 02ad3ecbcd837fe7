-- ===== src/Catalog/Plan/Listening.antt =====
-- resolvePorts of catalog/plan.go.
use k8s_lab.Common.{
  Bool, false, List, [], ◌∷◌, ◌++◌, none, some, ◌==◌, nat_eq, list_eq, if◌then◌else◌, map,
}
use k8s_lab.Common.Bytes.{Bytes, text, join}
use k8s_lab.Common.Int.{ℤ, pos, negsuc}
use k8s_lab.Common.Result.{Result, ok, err}
use k8s_lab.Evidence.Ids.{show}
use k8s_lab.Compose.{Workload}
use k8s_lab.Catalog.Plan.{Blocker, Ports}

port_blocker : Bytes → Bytes → Blocker
unfolding text
port_blocker object detail = record { object = object; field = text "port"; detail = detail }

declared_nowhere : Bytes → Bytes
unfolding text
declared_nowhere rest = text "no port is declared anywhere in the template and " ++ rest

-- %v of a slice
shown_ports : List ℤ → Bytes
unfolding text join show
shown_ports found = b'[' ∷ (join (32 ∷ []) (map (λ n. text (show n)) found) ++ text "]")

-- The switch on what the registry answers: the port, and a blocker.
unfoldable pub port_answer : Bytes → Bytes → Result Bytes (List ℤ) → ℤ × List Blocker
unfolding text port_blocker declared_nowhere shown_ports
port_answer object image (err e) = (
  pos 0,
  port_blocker object (declared_nowhere (image ++ (text " could not be asked: " ++ e))) ∷ [],
)
port_answer object image (ok []) = (
  pos 0,
  port_blocker object
        (declared_nowhere (image ++ text " exposes none, so nothing says what it listens on"))
      ∷ [],
)
port_answer object image (ok (n ∷ [])) = (n, [])
port_answer object image (ok (n ∷ m ∷ rest)) = (
  pos 0,
  port_blocker object (
        declared_nowhere (
          image
          ++ (text " exposes "
              ++ (shown_ports (n ∷ m ∷ rest)
                  ++ text ", so which one serves this application is a guess"))))
      ∷ [],
)

unfoldable pub asked_ports : Ports → Bytes → Bytes → ℤ × List Blocker
unfolding port_answer port_blocker declared_nowhere text
asked_ports none object image = (
  pos 0,
  port_blocker object (
        declared_nowhere (
          text "this installation cannot ask the registry, so the port it listens on is not known"))
      ∷ [],
)
asked_ports (some ports) object image = port_answer object image (ports image)

abbrev pub is_unset : ℤ → Bool
is_unset (pos n) = n == 0
is_unset (negsuc n) = false

unfoldable pub resolve_port : Ports → Workload → ℤ × List Blocker
unfolding asked_ports
resolve_port ports w =
    if is_unset w.port then asked_ports ports w.meta.name w.image else (w.port, [])

-- resolvePorts
unfoldable pub resolve_ports : Ports → List Workload → List Workload × List Blocker
unfolding resolve_port
resolve_ports ports [] = ([], [])
resolve_ports ports (w ∷ ws) =
    let here = resolve_port ports w in
    let rest = resolve_ports ports ws in (record w { port = here.0 } ∷ rest.0, here.1 ++ rest.1)
