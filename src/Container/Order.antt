-- ===== src/Container/Order.antt =====
-- The order on keys that `StaticMap` and `StaticSet` search by: `operator<` and `operator==`.
use b2_lang.Prelude.{
  ℕ, ◌≡◌, refl, Bool, true, false, Option, some, [], ◌∷◌, arith, ltb, ◌==◌, ◌||◌, ◌&&◌, Bytes,
  bytes_eq, bytes_eq→eq, bytes_eq_refl, ==_iff,
}

pub record KeyOrder {ℓ} (K : Type ℓ) : Type ℓ where
  pub lt : K → K → Bool
  pub eq : K → K → Bool
  pub eq→path : (a b : K) → eq a b ≡ true → a ≡ b
  pub eq_refl : (a : K) → eq a a ≡ true
  pub lt_irrefl : (a : K) → lt a a ≡ false
  pub lt_trans : (a b c : K) → lt a b ≡ true → lt b c ≡ true → lt a c ≡ true
  pub lt_total : (a b : K) → lt a b ≡ false → lt b a ≡ false → a ≡ b

-- The comparison of `std::string_view`: byte by byte, a prefix first.
unfoldable pub bytes_lt : Bytes → Bytes → Bool
bytes_lt [] [] = false
bytes_lt [] (b ∷ t) = true
bytes_lt (a ∷ s) [] = false
bytes_lt (a ∷ s) (b ∷ t) = ltb a b || (a == b && bytes_lt s t)

pub bytes_lt_irrefl : (s : Bytes) → bytes_lt s s ≡ false
unfolding bytes_lt
bytes_lt_irrefl [] = refl
bytes_lt_irrefl (a ∷ s) = ground (arith, bytes_lt_irrefl s)

pub bytes_lt_trans :
    (s t u : Bytes) → bytes_lt s t ≡ true → bytes_lt t u ≡ true → bytes_lt s u ≡ true
unfolding bytes_lt
bytes_lt_trans [] (b ∷ t) (c ∷ u) h k = refl
bytes_lt_trans (a ∷ s) (b ∷ t) (c ∷ u) h k = ground (arith, bytes_lt_trans s t u)
bytes_lt_trans s t u h k = ground arith

pub bytes_lt_total : (s t : Bytes) → bytes_lt s t ≡ false → bytes_lt t s ≡ false → s ≡ t
unfolding bytes_lt
bytes_lt_total [] [] h k = refl
bytes_lt_total (a ∷ s) (b ∷ t) h k = ground (arith, bytes_lt_total s t)
bytes_lt_total s t h k = ground arith

instance abbrev pub bytes_order : KeyOrder Bytes
bytes_order = record {
  lt = bytes_lt;
  eq = bytes_eq;
  eq→path = bytes_eq→eq;
  eq_refl = bytes_eq_refl;
  lt_irrefl = bytes_lt_irrefl;
  lt_trans = bytes_lt_trans;
  lt_total = bytes_lt_total;
}

-- The order of an enumeration is that of its underlying values, which `decode` reads back.
module _ {K : Type 0} (ordinal : K → ℕ) (decode : ℕ → Option K) where
  abbrev pub IsDecoded : Type 0
  IsDecoded = (a : K) → decode (ordinal a) ≡ some a

  pub ordinal-injective : IsDecoded → (a b : K) → ordinal a ≡ ordinal b → a ≡ b
  ordinal-injective d a b h = cc (d a, d b)

module _ {K : Type 0} (ordinal : K → ℕ) (inj : (a b : K) → ordinal a ≡ ordinal b → a ≡ b) where
  pub eq-ordinal : (a b : K) → (ordinal a == ordinal b) ≡ true → a ≡ b
  eq-ordinal a b h = inj a b ((==_iff (ordinal a) (ordinal b)).0 h)

  pub lt_total-ordinal :
      (a b : K) → ltb (ordinal a) (ordinal b) ≡ false → ltb (ordinal b) (ordinal a) ≡ false → a ≡ b
  lt_total-ordinal a b h k = inj a b (ground arith)

  pub lt_trans-ordinal :
      (a b c : K)
      → ltb (ordinal a) (ordinal b) ≡ true
      → ltb (ordinal b) (ordinal c) ≡ true
      → ltb (ordinal a) (ordinal c) ≡ true
  lt_trans-ordinal a b c h k = ground arith

  pub lt_irrefl-ordinal : (a : K) → ltb (ordinal a) (ordinal a) ≡ false
  lt_irrefl-ordinal a = ground arith

  pub eq_refl-ordinal : (a : K) → (ordinal a == ordinal a) ≡ true
  eq_refl-ordinal a = ground arith

  abbrev pub enum_order : KeyOrder K
  enum_order = record {
    lt = λ a b. ltb (ordinal a) (ordinal b);
    eq = λ a b. ordinal a == ordinal b;
    eq→path = eq-ordinal;
    eq_refl = eq_refl-ordinal;
    lt_irrefl = lt_irrefl-ordinal;
    lt_trans = lt_trans-ordinal;
    lt_total = lt_total-ordinal;
  }
