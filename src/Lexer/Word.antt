-- ===== src/Lexer/Word.antt =====
-- What the loops of src/lexer.cxx read: the longest prefix that passes the loop's test.
use b2_lang.Prelude.{
  ℕ, ◌+◌, ◌-◌, ◌≡◌, refl, ap, ◌∙◌, inl, inr, Bool, [], ◌∷◌, if◌then◌else◌, arith, Bytes, Bool-cases,
  length, take,
}
use b2_lang.Lexer.{Lexer, tail_of, advance, run_while, advance_while, slice}

unfoldable pub take_while : (ℕ → Bool) → Bytes → Bytes
take_while test [] = []
take_while test (c ∷ cs) = if test c then c ∷ take_while test cs else []

unfoldable pub drop_while : (ℕ → Bool) → Bytes → Bytes
drop_while test [] = []
drop_while test (c ∷ cs) = if test c then drop_while test cs else c ∷ cs

unread-advance : (s : Lexer) → (advance s).unread ≡ tail_of s.unread
unfolding advance
unread-advance s = refl

unread-run_while :
    (test : ℕ → Bool) (xs : Bytes) (s : Lexer)
    → s.unread ≡ xs
    → (run_while test xs s).unread ≡ drop_while test xs
unfolding run_while drop_while
unread-run_while test [] s h = h
unread-run_while test (c ∷ cs) s h = elim (Bool-cases (test c)) [
  | inl e ↦ rw e (unread-run_while test cs (advance s) (unread-advance s ∙ ap tail_of h))
  | inr e ↦ rw e h
]

pub unread-advance_while :
    (test : ℕ → Bool) (s : Lexer) → (advance_while test s).unread ≡ drop_while test s.unread
unfolding advance_while
unread-advance_while test s = unread-run_while test s.unread s refl

pub length-drop_while :
    (test : ℕ → Bool) (xs : Bytes)
    → length (take_while test xs) + length (drop_while test xs) ≡ length xs
unfolding take_while drop_while
length-drop_while test [] = refl
length-drop_while test (c ∷ cs) = elim (Bool-cases (test c)) [
  | inl e ↦ rw e (omega (arith, length-drop_while test cs))
  | inr e ↦ rw e (omega arith)
]

take-take_while :
    (test : ℕ → Bool) (xs : Bytes) → take (length (take_while test xs)) xs ≡ take_while test xs
unfolding take_while
take-take_while test [] = refl
take-take_while test (c ∷ cs) = elim (Bool-cases (test c)) [
  | inl e ↦ rw e (ap (◌∷◌ c) (take-take_while test cs))
  | inr e ↦ rw e
]

-- The text between a state and the end of a loop from it.
pub slice-advance_while :
    (test : ℕ → Bool) (s : Lexer) → slice s (advance_while test s) ≡ take_while test s.unread
unfolding slice
slice-advance_while test s = ap (λ (n : ℕ). take n s.unread) count ∙ take-take_while test s.unread
  where
    count :
        length s.unread - length (advance_while test s).unread ≡ length (take_while test s.unread)
    count = rw (unread-advance_while test s) (omega (arith, length-drop_while test s.unread))
