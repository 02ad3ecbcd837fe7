-- ===== src/Catalog.antt =====
-- catalog/catalog.go: the entries of a loaded catalogue.
pub mod Plan
use k8s_lab.Common.{ℕ, List, [], ◌∷◌, Option, none, some, list_eq, nat_eq, get_elem?}
use k8s_lab.Common.Bytes.{Bytes}
use k8s_lab.Common.Map.{Map, get}
use k8s_lab.Compose.{Template}

pub record Entry : Type 0 where
  pub name : Bytes
  pub slogan : Bytes
  pub documentation : Bytes
  pub category : Bytes
  pub tags : List Bytes
  pub logo : Bytes
  pub services : ℕ
  pub template : Template

pub record Skip : Type 0 where
  pub name : Bytes
  pub reason : Bytes

pub record Catalog : Type 0 where
  pub entries : List Entry
  pub by_name : Map Bytes ℕ
  pub skipped : List Skip

-- An index past the end is a panic in the source; `Load` files none.
unfoldable pub get_entry : Bytes → Catalog → Option Entry
unfolding get
get_entry name c = elim (get name c.by_name) [ none ↦ none | some i ↦ get_elem? c.entries i ]
