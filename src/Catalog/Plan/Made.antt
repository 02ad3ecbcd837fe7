-- ===== src/Catalog/Plan/Made.antt =====
-- `Plan` of catalog/plan.go.
use k8s_lab.Common.{[], ◌++◌, Option, none, some, ◌==◌, nat_eq, list_eq, if◌then◌else◌}
use k8s_lab.Common.Bytes.{Bytes}
use k8s_lab.Common.Result.{Result, ok, err}
use k8s_lab.Compose.{Source, Generated, Note, Workload, Database, Conversion, Runtime, Quantity}
use k8s_lab.Compose
use k8s_lab.Compose.Convert
use k8s_lab.Catalog.{Entry, Catalog, get_entry}
use k8s_lab.Catalog.Plan.{Options, Plan}
use k8s_lab.Catalog.Plan.Secrets.{attach_secrets, nothing_attached, sorted_sources}
use k8s_lab.Catalog.Plan.Images.{pin_workloads, pin_databases}
use k8s_lab.Catalog.Plan.Listening.{resolve_ports}

pub data Error : Type 0 where
  no_entry no_namespace : Error
  not_converted : Convert.Error → Error

-- The end of `Plan`, behind the conversion.
unfoldable pub plan_of : Entry → Options → Conversion → Plan
unfolding attach_secrets sorted_sources pin_workloads pin_databases resolve_ports
plan_of entry o res =
    let attached = attach_secrets res nothing_attached res.workloads in
    let pinned = pin_workloads o.pin attached.workloads in
    let databases = pin_databases o.pin res.databases in
    let ported = resolve_ports o.ports pinned.0 in
    record {
      entry = entry;
      namespace = o.namespace;
      workloads = ported.0;
      databases = databases.0;
      primary = res.primary;
      secrets = attached.secrets;
      mint = sorted_sources attached.mint;
      notes = res.notes;
      blockers = attached.blockers ++ ((pinned.1 ++ databases.1) ++ ported.1);
    }

unfoldable pub planned : Entry → Options → Result Convert.Error Conversion → Result Error Plan
unfolding plan_of
planned entry o (err e) = err (not_converted e)
planned entry o (ok res) = ok (plan_of entry o res)

abbrev pub convert_options : Options → Compose.Options
convert_options o = record {
  namespace = o.namespace;
  volume_size = o.volume_size;
  domain = o.domain;
}

-- What `Plan` does with what `Get` answers.
unfoldable pub planned_entry : Runtime → Options → Option Entry → Result Error Plan
unfolding planned
planned_entry go o none = err no_entry
planned_entry go o (some entry) =
    if o.namespace == []
    then err no_namespace
    else planned entry o (Convert.convert go entry.template (convert_options o))

-- Catalog.Plan
unfoldable pub plan : Runtime → Catalog → Bytes → Options → Result Error Plan
unfolding get_entry planned_entry
plan go c name o = planned_entry go o (get_entry name c)
