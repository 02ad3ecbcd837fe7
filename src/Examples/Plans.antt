-- ===== src/Examples/Plans.antt =====
-- `Plan` of catalog/plan.go on an entry whose image has the tag latest and which declares no port.
use k8s_lab.Common.{
  true, false, [], ◌∷◌, ◌≡◌, refl, some, none, arith, ◌↔◌, Memᴰ, List, zero, suc, nat_eq, map,
  list_eq,
}
use k8s_lab.Common.Bytes.{Bytes, text}
use k8s_lab.Common.Int.{ℤ, pos, negsuc, to_int32}
use k8s_lab.Common.Result.{Result, ok, err}
use k8s_lab.Compose.{Service, Template, Source, Conversion, Workload, Generated}
use k8s_lab.Compose.Convert
use k8s_lab.Compose.Convert.{zero_service, convert}
use k8s_lab.Catalog.{Entry, Catalog}
use k8s_lab.Catalog.Plan.{Plan, Options, is_installable}
use k8s_lab.Catalog.Plan.Listening.{is_unset}
use k8s_lab.Catalog.Plan.Made.{Error, plan, plan_of, convert_options}
use k8s_lab.Catalog.Plan.Accepted.{IsSettled, installable_accepted}
use k8s_lab.Catalog.Plan.Minted.{is_owned, IsUsed, secrets_minted}
use k8s_lab.Catalog.Plan.Met.{IsIn, key_of, requests_met}
use k8s_lab.Compose.Workloads.{as_workload}
use k8s_lab.Catalog.Plan.Pinned.{pin_not_needed}
use k8s_lab.Examples.Templates.{plain_runtime}

abbrev web : Service
web = record zero_service {
  image = text "ghcr.io/x/web:latest";
  environment = (text "PASSWORD", text "${SERVICE_PASSWORD_WEB}") ∷ [];
}

abbrev db : Service
db = record zero_service { image = text "postgres:16" }

abbrev wiki : Template
wiki = record {
  name = text "wiki";
  slogan = [];
  documentation = [];
  category = [];
  tags = [];
  logo = [];
  ignore = false;
  port = pos 0;
  services = (text "web", web) ∷ (text "db", db) ∷ [];
}

abbrev entry : Entry
entry = record {
  name = text "wiki";
  slogan = [];
  documentation = [];
  category = [];
  tags = [];
  logo = [];
  services = 2;
  template = wiki;
}

abbrev shelf : Catalog
shelf = record { entries = entry ∷ []; by_name = (text "wiki", 0) ∷ []; skipped = [] }

abbrev offline : Options
offline = record {
  namespace = text "prod";
  domain = [];
  volume_size = text "1Gi";
  pin = none;
  ports = none;
}

-- A registry that knows the digest of every image and the one port that it exposes.
abbrev registry : Bytes → Result Bytes (List ℤ)
registry image = ok (pos 8080 ∷ [])

answers_ports : (image : Bytes) (n : ℤ) → registry image ≡ ok (n ∷ []) → is_unset n ≡ false
answers_ports image (pos zero) e = absurd (ground arith)
answers_ports image (pos (suc n)) e = ground arith
answers_ports image (negsuc n) e = ground arith

abbrev options : Options
options = record offline {
  pin = some (λ image. ok (text "ghcr.io/x/web@sha256:ab"));
  ports = some registry;
}

abbrev plan_in : Result Error Plan → Plan
plan_in (ok p) = p
plan_in (err e) = record {
  entry = entry;
  namespace = [];
  workloads = [];
  databases = [];
  primary = 0;
  secrets = [];
  mint = [];
  notes = [];
  blockers = [];
}

abbrev installed : Plan
installed = plan_in (plan plain_runtime shelf (text "wiki") options)

plans : plan plain_runtime shelf (text "wiki") options ≡ ok installed
unfolding plan convert text
plans = refl

installs : is_installable installed ≡ true
unfolding is_installable plan convert text
installs = refl

minted : map (λ (s : Source). s.name) installed.mint ≡ text "SERVICE_PASSWORD_WEB" ∷ []
unfolding plan convert text
minted = refl

without_registry : is_installable (plan_in (plan plain_runtime shelf (text "wiki") offline)) ≡ false
unfolding is_installable plan convert text
without_registry = refl

installable_accepted_example : IsSettled installed
installable_accepted_example =
    installable_accepted plain_runtime shelf (text "wiki") options installed plans installs
      answers_ports

abbrev conversion_in : Result Convert.Error Conversion → Conversion
conversion_in (ok r) = r
conversion_in (err e) = record {
  workloads = [];
  databases = [];
  primary = 0;
  generated = [];
  database_sources = [];
  notes = [];
}

abbrev converted : Conversion
converted = conversion_in (convert plain_runtime wiki (convert_options options))

abbrev password : Source
password = record { name = text "SERVICE_PASSWORD_WEB"; kind = text "password" }

secrets_minted_example :
    ((n : Bytes)
      → Memᴰ n (map (λ (s : Source). s.name) (plan_of entry options converted).mint)
        ↔ IsUsed (plan_of entry options converted).secrets n)
    × ((s : Source)
        → Memᴰ s (plan_of entry options converted).mint
        → is_owned converted.database_sources s ≡ false)
secrets_minted_example = secrets_minted entry options converted

abbrev first_of : {A : Type 0} → A → List A → A
first_of a [] = a
first_of a (x ∷ xs) = x

abbrev made : Workload
made =
    first_of
      (as_workload plain_runtime wiki (text "web") web (convert_options options) (text "web")).0
      converted.workloads

abbrev request : Generated
request = record {
  service = text "web";
  key = text "PASSWORD";
  sources = password ∷ [];
  value = text "${SERVICE_PASSWORD_WEB}";
}

converted_installs : is_installable (plan_of entry options converted) ≡ true
unfolding is_installable plan_of convert text
converted_installs = refl

made_there : Memᴰ made converted.workloads
unfolding convert text
made_there = Memᴰ.head refl

request_there : Memᴰ request converted.generated
unfolding convert text
request_there = Memᴰ.head refl

request_of_made : request.service ≡ made.meta.compose_service
unfolding convert text
request_of_made = refl

requests_met_example : IsIn (plan_of entry options converted).secrets made (key_of request)
requests_met_example =
    requests_met entry options converted made request converted_installs made_there request_there
      request_of_made

-- The entry with a tag and a port, and a registry that is down.
abbrev tagged : Template
tagged = record wiki {
  services =
      (text "web", record web { image = text "ghcr.io/x/web:1.2"; ports = text "80:8080" ∷ [] })
      ∷ (text "db", db)
      ∷ [];
}

abbrev tagged_conversion : Conversion
tagged_conversion = conversion_in (convert plain_runtime tagged (convert_options offline))

tagged_installs : is_installable (plan_of entry offline tagged_conversion) ≡ true
unfolding is_installable plan_of convert text to_int32
tagged_installs = refl

pin_not_needed_example :
    plan_of entry (record offline { pin = some (λ image. err (text "down")) }) tagged_conversion
    ≡ plan_of entry offline tagged_conversion
pin_not_needed_example =
    pin_not_needed entry offline tagged_conversion (some (λ image. err (text "down")))
      tagged_installs

-- The header's port, where no service mentions it: the database is taken for the front, and the
-- port is lost.
abbrev headed : Template
headed = record tagged {
  port = pos 8080;
  services = (text "web", record web { image = text "ghcr.io/x/web:1.2" }) ∷ (text "db", db) ∷ [];
}

port_lost :
    map
      (λ (w : Workload). w.port)
      (conversion_in (convert plain_runtime headed (convert_options offline))).workloads
    ≡ pos 0 ∷ []
unfolding convert text
port_lost = refl
