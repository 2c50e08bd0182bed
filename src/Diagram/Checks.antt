-- ===== src/Diagram/Checks.antt =====
-- The checks of scripts/diagrams/validate.mjs on the references between elements: (a), (b) and (c).
--
-- The validator reads any document; here the elements are the kit's, whose arrows have two bindings.
use mathlib.Core.List.{flat_map}
use foundry_capital_markets.Prelude.{
  Bool, true, false, none, some, List, [], ◌∷◌, ◌++◌, leb, length, any,
}
use foundry_capital_markets.Diagram.Scene.{
  ElementId, same_id, BoundElement, bound_text, bound_arrow, target, Kind, rectangle, text_element,
  arrow_element, Element, by_id,
}

-- The errors, in the validator's words.
pub data Error : Type 0 where
  container_missing : (text container : ElementId) → Error
  binding_missing : (arrow end : ElementId) → Error
  too_few_points : (arrow : ElementId) → Error
  text_not_listed : (container text : ElementId) → Error
  arrow_not_listed : (end arrow : ElementId) → Error
  bound_element_missing : (element bound : ElementId) → Error

-- `byId.has`.
unfoldable pub has : List Element → ElementId → Bool
unfolding by_id
has els i = elim (by_id els i) [ some e ↦ true | none ↦ false ]

abbrev pub unless : {A : Type 0} → Bool → A → List A
unless true e = []
unless false e = e ∷ []

unfoldable pub container_errors : List Element → ElementId → Kind → List Error
unfolding has
container_errors els i rectangle = []
container_errors els i (arrow_element a) = []
container_errors els i (text_element t) = elim t.container_id [
  | none ↦ []
  | some c ↦ unless (has els c) (container_missing i c)
]

unfoldable pub check_container : List Element → Element → List Error
check_container els e = container_errors els e.id e.kind

unfoldable pub binding_errors : List Element → ElementId → Kind → List Error
unfolding has
binding_errors els i rectangle = []
binding_errors els i (text_element t) = []
binding_errors els i (arrow_element a) =
    unless (has els a.start_binding) (binding_missing i a.start_binding)
    ++ (unless (has els a.end_binding) (binding_missing i a.end_binding)
        ++ unless (leb 2 (length a.points)) (too_few_points i))

unfoldable pub check_bindings : List Element → Element → List Error
check_bindings els e = binding_errors els e.id e.kind

-- An entry of the same type and id.
unfoldable pub is_entry : BoundElement → BoundElement → Bool
unfolding same_id
is_entry (bound_text i) (bound_text j) = same_id i j
is_entry (bound_arrow i) (bound_arrow j) = same_id i j
is_entry _ _ = false

unfoldable pub listed : List Element → ElementId → BoundElement → Bool
unfolding by_id any is_entry
listed els container b = elim (by_id els container) [
  | none ↦ false
  | some c ↦ any (λ x. is_entry x b) c.bound_elements
]

unfoldable pub listing_errors : List Element → ElementId → Kind → List Error
unfolding listed
listing_errors els i rectangle = []
listing_errors els i (text_element t) = elim t.container_id [
  | none ↦ []
  | some c ↦ unless (listed els c (bound_text i)) (text_not_listed c i)
]
listing_errors els i (arrow_element a) =
    unless (listed els a.start_binding (bound_arrow i)) (arrow_not_listed a.start_binding i)
    ++ unless (listed els a.end_binding (bound_arrow i)) (arrow_not_listed a.end_binding i)

unfoldable pub check_listed : List Element → Element → List Error
check_listed els e = listing_errors els e.id e.kind

-- What an element lists exists.
unfoldable pub check_bound : List Element → Element → List Error
unfolding has flat_map
check_bound els e =
    flat_map (λ b. unless (has els (target b)) (bound_element_missing e.id (target b)))
      e.bound_elements

-- The loops over the elements, in their order.
unfoldable pub reference_errors : List Element → List Error
unfolding flat_map check_container check_bindings check_listed check_bound
reference_errors els =
    flat_map (check_container els) els
    ++ (flat_map (check_bindings els) els
        ++ (flat_map (check_listed els) els ++ flat_map (check_bound els) els))
