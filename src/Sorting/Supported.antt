-- ===== src/Sorting/Supported.antt =====
-- src/dao/scalarquerybuilder.cpp: which sort orders are bound.
use qtcontacts_tracker.Base.{
  Bool, true, false, not, ◌&&◌, if◌then◌else◌, Text, List, [], ◌∷◌, ◌++◌, Option, none, some,
  is_empty, ◌≡◌, refl, arith, ap, sym, ◌∙◌, Bool-cases, Option-cases, inl, inr,
}
use mathlib.Core.List.{append_assoc, append-nil}
use qtcontacts_tracker.Request.{no_error, not_supported_error}
use qtcontacts_tracker.Sorting.{
  SortOrder, Field, Detail, Schema, OrderComparator, find_field, select_field, select_order,
  bind_sort_orders,
}

-- Whether the database can sort by a field: it is in the schema, stored, and no subtype.
abbrev pub can_sort_field : Option Field → Bool
can_sort_field none = false
can_sort_field (some field) = not field.is_synthesized && not field.has_sub_types

abbrev pub can_sort_detail : Option Detail → Text → Bool
can_sort_detail none name = true
can_sort_detail (some d) name = not (is_empty name) && can_sort_field (d.field name)

abbrev pub can_sort : Schema → SortOrder → Bool
can_sort schema o =
    (o.blanks_first && o.case_insensitive)
    && (not (schema.is_synthetic_detail o.definition_name)
        && can_sort_detail (schema.detail o.definition_name) o.field_name)

abbrev is_some : {A : Type 0} → Option A → Bool
is_some none = false
is_some (some a) = true

select_field-is_some :
    (schema : Schema) (d : Detail) (o : SortOrder)
    → is_some (select_field schema d o) ≡ can_sort_detail (some d) o.field_name
unfolding select_field find_field
select_field-is_some schema d o = elim (Bool-cases (is_empty o.field_name)) [
  | inl e ↦ ground (arith, e)
  | inr e ↦ elim (Option-cases (d.field o.field_name)) [
    | inl n ↦ ground (arith, e, n)
    | inr (field, n) ↦ ground (arith, e, n)
  ]
]

select_order-is_some :
    (schema : Schema) (o : SortOrder) → is_some (select_order schema o) ≡ can_sort schema o
unfolding select_order
select_order-is_some schema o = elim (Option-cases (schema.detail o.definition_name)) [
  | inl n ↦ ground (arith, n)
  | inr (d, n) ↦ ground (arith, n, select_field-is_some schema d o)
]

abbrev pub can_sort_all : Schema → List SortOrder → Bool
can_sort_all schema [] = true
can_sort_all schema (o ∷ orders) = can_sort schema o && can_sort_all schema orders

abbrev pub directions : List OrderComparator → List Bool
directions [] = []
directions (c ∷ cs) = c.is_ascending ∷ directions cs

abbrev pub leading : Schema → List SortOrder → List Bool
leading schema [] = []
leading schema (o ∷ orders) =
    let rest = leading schema orders in if can_sort schema o then o.is_ascending ∷ rest else []

directions-append :
    (cs : List OrderComparator) (c : OrderComparator)
    → directions (cs ++ (c ∷ [])) ≡ directions cs ++ (c.is_ascending ∷ [])
directions-append [] c = refl
directions-append (d ∷ cs) c = ap (◌∷◌ d.is_ascending) (directions-append cs c)

bind_sort_orders_from :
    (schema : Schema) (orders : List SortOrder) (result : List OrderComparator)
    → let (e, r) = bind_sort_orders schema orders result in
      (e ≡ (if can_sort_all schema orders then no_error else not_supported_error))
      × (directions r ≡ directions result ++ leading schema orders)
unfolding bind_sort_orders
bind_sort_orders_from schema [] result = (refl, sym (append-nil (directions result)))
bind_sort_orders_from schema (o ∷ orders) result = elim (Option-cases (select_order schema o)) [
  | inl n ↦
      let no : can_sort schema o ≡ false = sym (select_order-is_some schema o) ∙ ap is_some n in
      rw (bind_sort_orders, n, no) (refl, sym (append-nil (directions result)))
  | inr (selected, n) ↦
      let can : can_sort schema o ≡ true = sym (select_order-is_some schema o) ∙ ap is_some n in
      let c : OrderComparator = record { selected = selected; is_ascending = o.is_ascending } in
      let (e, d) = bind_sort_orders_from schema orders (result ++ (c ∷ [])) in
      rw (bind_sort_orders, n, can)
        (
          e,
          d
              ∙ ap (λ l. l ++ leading schema orders) (directions-append result c)
              ∙ append_assoc (directions result) (o.is_ascending ∷ []) (leading schema orders),
        )
]

-- Sort orders are bound without an error exactly if the database can sort by each of them: blanks
-- come first, the case does not matter, the detail is not a synthetic one, and the field of a known
-- detail is in the schema, stored, and no subtype; otherwise `NotSupportedError` is returned. The
-- comparators have the directions of the orders in front of the first one that fails, in order.
pub bind_sort_orders_lem :
    (schema : Schema) (orders : List SortOrder)
    → let (e, r) = bind_sort_orders schema orders [] in
      (e ≡ (if can_sort_all schema orders then no_error else not_supported_error))
      × (directions r ≡ leading schema orders)
bind_sort_orders_lem schema orders = bind_sort_orders_from schema orders []
