-- ===== src/Container/Lookup.antt =====
-- The sorted array of a `StaticMap` (include/utils/container.h) and its initializer.
use b2_lang.Prelude.{
  ◌↔◌, ◌≡◌, refl, Bool, true, false, ◌||◌, Option, none, some, List, [], ◌∷◌, arith, if◌then◌else◌,
  Bool-cases, inl, inr, sym, ◌∙◌,
}
use b2_lang.Container.Order.{KeyOrder}
use b2_lang.Container.{
  Entry, insert_sorted, sort, has_adjacent, to_static_map, lower_bound, found_at, find,
}

module _ {ℓ} {K : Type ℓ} ⦃o : KeyOrder K⦄ where
  lt→eq : (a b : K) → o.lt a b ≡ true → o.eq a b ≡ false
  lt→eq a b h = elim (Bool-cases (o.eq a b)) [
    | inl e ↦ cc (rw (o.eq→path a b e) at h, o.lt_irrefl b)
    | inr n ↦ n
  ]

  eq_symm : (a b : K) → o.eq a b ≡ o.eq b a
  eq_symm a b = elim (Bool-cases (o.eq a b)) [
    | inl e ↦ rw (o.eq→path a b e)
    | inr n ↦ elim (Bool-cases (o.eq b a)) [ inl e ↦ rw (o.eq→path b a e) | inr m ↦ cc ]
  ]

  lt_asymm : (a b : K) → o.lt a b ≡ true → o.lt b a ≡ false
  lt_asymm a b h = elim (Bool-cases (o.lt b a)) [
    | inl k ↦ cc (o.lt_trans a b a h k, o.lt_irrefl a)
    | inr n ↦ n
  ]

  ge_trans : (a b c : K) → o.lt b a ≡ false → o.lt c b ≡ false → o.lt c a ≡ false
  ge_trans a b c h k = elim (Bool-cases (o.lt c a)) [
    | inr n ↦ n
    | inl l ↦ elim (Bool-cases (o.lt a b)) [
      | inl m ↦ cc (o.lt_trans c a b l m)
      | inr n ↦ cc (o.lt_total a b n h)
    ]
  ]

module _ {ℓ κ} {K : Type ℓ} {V : Type κ} ⦃o : KeyOrder K⦄ where
  -- The first entry for the key, in the order of the list.
  unfoldable pub lookup : List (Entry K V) → K → Option V
  lookup [] k = none
  lookup (x ∷ xs) k = if o.eq x.key k then some x.value else lookup xs k

  pub has_key : List (Entry K V) → K → Bool
  has_key [] k = false
  has_key (x ∷ xs) k = o.eq x.key k || has_key xs k

  pub has_duplicate : List (Entry K V) → Bool
  unfolding has_key
  has_duplicate [] = false
  has_duplicate (x ∷ xs) = has_key xs x.key || has_duplicate xs

  lookup-insert_sorted :
      (e : Entry K V) (xs : List (Entry K V)) (k : K)
      → lookup (insert_sorted e xs) k ≡ lookup (e ∷ xs) k
  unfolding lookup insert_sorted
  lookup-insert_sorted e [] k = refl
  lookup-insert_sorted e (x ∷ xs) k = elim (Bool-cases (o.lt x.key e.key)) [
    | inr n ↦ rw n
    | inl l ↦
        rw (l, lookup-insert_sorted e xs k)
          (elim (Bool-cases (o.eq e.key k)) [
            | inr n ↦ rw n
            | inl q ↦ rw (q, rw (o.eq→path e.key k q) at (lt→eq x.key e.key l))
          ])
  ]

  lookup-sort : (items : List (Entry K V)) (k : K) → lookup (sort items) k ≡ lookup items k
  unfolding lookup sort
  lookup-sort [] k = refl
  lookup-sort (e ∷ es) k = lookup-insert_sorted e (sort es) k ∙ rw (lookup-sort es k)

  -- No key of the list is below `a`.
  abbrev IsBound : K → List (Entry K V) → Type 0
  IsBound a [] = Unit
  IsBound a (x ∷ xs) = (o.lt x.key a ≡ false) × IsBound a xs

  abbrev IsSorted : List (Entry K V) → Type 0
  IsSorted [] = Unit
  IsSorted (x ∷ xs) = IsBound x.key xs × IsSorted xs

  IsBound-le : (a b : K) (xs : List (Entry K V)) → o.lt b a ≡ false → IsBound b xs → IsBound a xs
  IsBound-le a b [] h s = tt
  IsBound-le a b (x ∷ xs) h s = (ge_trans a b x.key h s.0, IsBound-le a b xs h s.1)

  IsBound-insert :
      (a : K) (e : Entry K V) (xs : List (Entry K V))
      → o.lt e.key a ≡ false
      → IsBound a xs
      → IsBound a (insert_sorted e xs)
  unfolding insert_sorted
  IsBound-insert a e [] h s = (h, tt)
  IsBound-insert a e (x ∷ xs) h s = elim (Bool-cases (o.lt x.key e.key)) [
    | inl l ↦ rw l (s.0, IsBound-insert a e xs h s.1)
    | inr n ↦ rw n (h, s)
  ]

  IsSorted-insert :
      (e : Entry K V) (xs : List (Entry K V)) → IsSorted xs → IsSorted (insert_sorted e xs)
  unfolding insert_sorted
  IsSorted-insert e [] s = (tt, tt)
  IsSorted-insert e (x ∷ xs) s = elim (Bool-cases (o.lt x.key e.key)) [
    | inl l ↦
        rw l (IsBound-insert x.key e xs (lt_asymm x.key e.key l) s.0, IsSorted-insert e xs s.1)
    | inr n ↦ rw n ((n, IsBound-le e.key x.key xs n s.0), s)
  ]

  sort-IsSorted : (items : List (Entry K V)) → IsSorted (sort items)
  unfolding sort
  sort-IsSorted [] = tt
  sort-IsSorted (e ∷ es) = IsSorted-insert e (sort es) (sort-IsSorted es)

  -- Above a key that is not below `k` there is no entry for a smaller `k`.
  lookup_above :
      (a k : K) (xs : List (Entry K V)) → IsBound a xs → o.lt k a ≡ true → lookup xs k ≡ none
  unfolding lookup
  lookup_above a k [] s l = refl
  lookup_above a k (x ∷ xs) s l = elim (Bool-cases (o.eq x.key k)) [
    | inr n ↦ rw n (lookup_above a k xs s.1 l)
    | inl q ↦ cc (l, rw (o.eq→path x.key k q) at s.0)
  ]

  lookup_sorted :
      (xs : List (Entry K V)) (k : K) → IsSorted xs → found_at k (lower_bound k xs) ≡ lookup xs k
  unfolding lookup found_at lower_bound
  lookup_sorted [] k s = refl
  lookup_sorted (x ∷ xs) k s = elim (Bool-cases (o.lt x.key k)) [
    | inl l ↦ rw (l, lt→eq x.key k l) (lookup_sorted xs k s.1)
    | inr n ↦ rw n (elim (Bool-cases (o.eq x.key k)) [
      | inl q ↦ rw q
      | inr m ↦ rw m (sym (lookup_above x.key k xs s.0 (above x.key k n m)))
    ])
  ]
    where
      above : (a k : K) → o.lt a k ≡ false → o.eq a k ≡ false → o.lt k a ≡ true
      above a k n m = elim (Bool-cases (o.lt k a)) [
        | inl l ↦ l
        | inr r ↦ cc (rw (o.lt_total a k n r) at m, o.eq_refl k)
      ]

  has_key-insert_sorted :
      (e : Entry K V) (xs : List (Entry K V)) (k : K)
      → has_key (insert_sorted e xs) k ≡ has_key (e ∷ xs) k
  unfolding has_key insert_sorted
  has_key-insert_sorted e [] k = refl
  has_key-insert_sorted e (x ∷ xs) k = ground (arith, has_key-insert_sorted e xs k)

  has_key-sort : (items : List (Entry K V)) (k : K) → has_key (sort items) k ≡ has_key items k
  unfolding has_key sort
  has_key-sort [] k = refl
  has_key-sort (e ∷ es) k = has_key-insert_sorted e (sort es) k ∙ rw (has_key-sort es k)

  has_duplicate-insert_sorted :
      (e : Entry K V) (xs : List (Entry K V))
      → has_duplicate (insert_sorted e xs) ≡ has_duplicate (e ∷ xs)
  unfolding has_duplicate has_key insert_sorted
  has_duplicate-insert_sorted e [] = refl
  has_duplicate-insert_sorted e (x ∷ xs) = ground (
    arith,
    has_duplicate-insert_sorted e xs,
    has_key-insert_sorted e xs x.key,
    eq_symm x.key e.key,
  )

  has_duplicate-sort : (items : List (Entry K V)) → has_duplicate (sort items) ≡ has_duplicate items
  unfolding has_duplicate sort
  has_duplicate-sort [] = refl
  has_duplicate-sort (e ∷ es) =
      has_duplicate-insert_sorted e (sort es) ∙ rw (has_duplicate-sort es, has_key-sort es e.key)

  has_key_above :
      (a k : K) (xs : List (Entry K V)) → IsBound a xs → o.lt k a ≡ true → has_key xs k ≡ false
  unfolding has_key
  has_key_above a k [] s l = refl
  has_key_above a k (x ∷ xs) s l = elim (Bool-cases (o.eq x.key k)) [
    | inr n ↦ rw n (has_key_above a k xs s.1 l)
    | inl q ↦ cc (l, rw (o.eq→path x.key k q) at s.0)
  ]

  has_adjacent-sorted : (xs : List (Entry K V)) → IsSorted xs → has_adjacent xs ≡ has_duplicate xs
  unfolding has_adjacent has_duplicate has_key
  has_adjacent-sorted [] s = refl
  has_adjacent-sorted (x ∷ []) s = refl
  has_adjacent-sorted (x ∷ y ∷ es) s = elim (Bool-cases (o.eq x.key y.key)) [
    | inl q ↦ ground (arith, eq_symm x.key y.key)
    | inr n ↦ elim (Bool-cases (o.lt x.key y.key)) [
      | inl l ↦ ground (
        arith,
        eq_symm x.key y.key,
        has_key_above y.key x.key es s.1.0 l,
        has_adjacent-sorted (y ∷ es) s.1,
      )
      | inr m ↦ cc (rw (o.lt_total x.key y.key m s.0.0) at n, o.eq_refl y.key)
    ]
  ]

  -- If the constructor of a `StaticMap` returns, then a search of the map gives, for every key, the
  -- value of the first entry of the initializer that has the key, and nothing when no entry has it.
  pub find-to_static_map :
      (items : List (Entry K V)) (m : List (Entry K V)) (k : K)
      → to_static_map items ≡ some m
      → find m k ≡ lookup items k
  unfolding to_static_map find
  find-to_static_map items m k h =
      rw (← sorted) (lookup_sorted (sort items) k (sort-IsSorted items) ∙ lookup-sort items k)
    where
      sorted : sort items ≡ m
      sorted = ground arith

  -- The constructor of a `StaticMap` throws exactly when two entries of the initializer have one
  -- key.
  pub to_static_map-eq-none_iff :
      (items : List (Entry K V)) → (to_static_map items ≡ none) ↔ (has_duplicate items ≡ true)
  unfolding to_static_map
  to_static_map-eq-none_iff items =
      ground
        (arith, has_adjacent-sorted (sort items) (sort-IsSorted items), has_duplicate-sort items)
