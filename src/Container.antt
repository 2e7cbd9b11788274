-- ===== src/Container.antt =====
-- include/utils/container.h: `StaticMap` and `StaticSet`, maps and sets kept as sorted arrays.
-- The standard algorithms are taken by their contracts: `std::ranges::sort` gives the
-- entries in the order of their keys (entries with one key make the constructor throw, so their order
-- is left aside), `lower_bound` the first element that is not less than the key. The `std::logic_error` of a
-- constructor is `none`.
pub mod Order
pub mod Lookup
use b2_lang.Prelude.{Bool, true, false, ◌||◌, Option, none, some, List, [], ◌∷◌, if◌then◌else◌, map}
use b2_lang.Container.Order.{KeyOrder}

pub record Entry {ℓ κ} (K : Type ℓ) (V : Type κ) : Type (ℓ ⊔ κ) where
  pub key : K
  pub value : V

module _ {ℓ κ} {K : Type ℓ} {V : Type κ} ⦃o : KeyOrder K⦄ where
  insert_sorted : Entry K V → List (Entry K V) → List (Entry K V)
  insert_sorted e [] = e ∷ []
  insert_sorted e (x ∷ xs) = if o.lt x.key e.key then x ∷ insert_sorted e xs else e ∷ x ∷ xs

  pub sort : List (Entry K V) → List (Entry K V)
  unfolding insert_sorted
  sort [] = []
  sort (e ∷ es) = insert_sorted e (sort es)

  -- `std::ranges::adjacent_find` found something.
  pub has_adjacent : List (Entry K V) → Bool
  has_adjacent [] = false
  has_adjacent (x ∷ []) = false
  has_adjacent (x ∷ y ∷ es) = o.eq x.key y.key || has_adjacent (y ∷ es)

  -- The constructor of `StaticMap`.
  unfoldable pub to_static_map : List (Entry K V) → Option (List (Entry K V))
  unfolding sort has_adjacent
  to_static_map items = if has_adjacent (sort items) then none else some (sort items)

  pub lower_bound : K → List (Entry K V) → List (Entry K V)
  lower_bound k [] = []
  lower_bound k (x ∷ xs) = if o.lt x.key k then lower_bound k xs else x ∷ xs

  pub found_at : K → List (Entry K V) → Option V
  found_at k [] = none
  found_at k (x ∷ xs) = if o.eq x.key k then some x.value else none

  unfoldable pub find : List (Entry K V) → K → Option V
  unfolding lower_bound found_at
  find items k = found_at k (lower_bound k items)

  unfoldable pub contains : List (Entry K V) → K → Bool
  unfolding find
  contains items k = elim (find items k) [ none ↦ false | some v ↦ true ]

-- `StaticSet`: the same array, whose elements are their own keys.
module _ {ℓ} {K : Type ℓ} ⦃o : KeyOrder K⦄ where
  abbrev set_entry : K → Entry K K
  set_entry v = record { key = v; value = v }

  unfoldable pub to_static_set : List K → Option (List (Entry K K))
  unfolding to_static_map
  to_static_set items = to_static_map (map set_entry items)
