-- ===== src/Common/Index.antt =====
-- A map of items by id beside an index of it by a second unique name: what a store keeps so that
-- an item is found by either.
use k8s_lab.Common.Tests.{Bool-cases, ◌==◌, string_eq, eq_refl}
use k8s_lab.Common.Map.{Map, get, put, delete, get-put, get-delete, get-nil}
use Prim.Native.String.{String}
use mathlib.Core.Path.{◌≡◌}
use mathlib.Core.Logic.{inl, inr}
use mathlib.Core.Option.{none, some}
use mathlib.Core.List.{[]}
use native.Mathlib.Omega.{arith}
use text.Mathlib.TextEquality.{eq_iff}

module _ {V : Type 0} (id_of name_of : V → String) where
  -- The index holds a name exactly when an item has it, and leads to that item.
  pub record IsIndexed (items : Map String V) (names : Map String String) : Type 0 where
    pub of_item :
        (id : String) (t : V)
        → get id items ≡ some t
        → ((id_of t) ≡ id) × (get (name_of t) names ≡ some id)
    pub of_name :
        (name id : String)
        → get name names ≡ some id
        → (t : V) × (get id items ≡ some t) × ((name_of t) ≡ name)

  pub IsIndexed-nil : IsIndexed [] []
  IsIndexed-nil = record {
    of_item = λ id t h. absurd (ground (arith, get-nil {V = V} id));
    of_name = λ name id h. absurd (ground (arith, get-nil {V = String} name));
  }

  module _ (items : Map String V) (names : Map String String) (k : IsIndexed items names) where
    -- A new item under a new name keeps the index exact.
    pub IsIndexed-create :
        (t : V)
        → get (id_of t) items ≡ none
        → get (name_of t) names ≡ none
        → IsIndexed (put (id_of t) t items) (put (name_of t) (id_of t) names)
    IsIndexed-create t fresh free = record {
      of_item = λ id x h. ground (
        arith,
        get-put (id_of t) id t items,
        get-put (name_of t) (name_of x) (id_of t) names,
        eq_iff (id_of t) id,
        eq_iff (name_of t) (name_of x),
        eq_refl (name_of t),
        k.of_item id x,
      );
      of_name = λ name id h. elim (Bool-cases ((name_of t) == name)) [
        | inl here ↦ (
          t,
          ground (
            arith,
            get-put (name_of t) name (id_of t) names,
            get-put (id_of t) id t items,
            eq_refl id,
          ),
          (eq_iff (name_of t) name).0 here,
        )
        | inr there ↦
            let (x, at, named) =
              k.of_name name id (ground (arith, get-put (name_of t) name (id_of t) names)) in
            (x, ground (arith, get-put (id_of t) id t items, eq_iff (id_of t) id), named)
      ];
    }

    -- Replacing an item moves its name, and no other name.
    pub IsIndexed-update :
        (old t : V)
        → get (id_of t) items ≡ some old
        → ((holder : String) → get (name_of t) names ≡ some holder → holder ≡ id_of t)
        → IsIndexed (put (id_of t) t items) (put (name_of t) (id_of t) (delete (name_of old) names))
    IsIndexed-update old t found free = record {
      of_item = λ id x h. ground (
        arith,
        get-put (id_of t) id t items,
        get-put (name_of t) (name_of x) (id_of t) (delete (name_of old) names),
        get-delete (name_of old) (name_of x) names,
        eq_iff (id_of t) id,
        eq_iff (name_of t) (name_of x),
        eq_iff (name_of old) (name_of x),
        eq_refl (name_of t),
        eq_iff id (id_of t),
        k.of_item id x,
        k.of_item (id_of t) old found,
        free id,
      );
      of_name = λ name id h. elim (Bool-cases ((name_of t) == name)) [
        | inl here ↦ (
          t,
          ground (
            arith,
            get-put (name_of t) name (id_of t) (delete (name_of old) names),
            get-put (id_of t) id t items,
            eq_refl id,
          ),
          (eq_iff (name_of t) name).0 here,
        )
        | inr there ↦
            let (x, at, named) = k.of_name name id (
              ground (
                arith,
                get-put (name_of t) name (id_of t) (delete (name_of old) names),
                get-delete (name_of old) name names,
              )) in
            (
              x,
              ground (
                arith,
                get-put (id_of t) id t items,
                eq_iff (id_of t) id,
                get-put (name_of t) name (id_of t) (delete (name_of old) names),
                get-delete (name_of old) name names,
                eq_iff (name_of old) name,
              ),
              named,
            )
      ];
    }
