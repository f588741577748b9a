-- ===== src/TimingWheel/Members.antt =====
-- code/TimingWheel.cpp: what insertion and removal do to a bucket, and one visit to the wheel.
use ecron.Prelude.{
  Bool-cases, List, [], ap, arith, false, inl, inr, not, refl, true, ℕ, ℕ_discrete, ◌&&◌, ◌==◌,
  ◌||◌, ◌∷◌, ◌≡◌,
}
use ecron.TimingWheel.{contains, erase, insert}

already :
    (xs : List ℕ) (a b : ℕ) → contains xs a ≡ true → contains xs b ≡ ((a == b) || contains xs b)
already xs a b h = elim (ℕ_discrete a b) [
  | yes e ↦ ground (arith, ap (contains xs) e)
  | no ne ↦ ground arith
]

pub contains-insert :
    (xs : List ℕ) (a b : ℕ) → contains (insert xs a) b ≡ ((a == b) || contains xs b)
unfolding insert
contains-insert xs a b = elim (Bool-cases (contains xs a)) [
  | inl h ↦ rw h (already xs a b h)
  | inr h ↦ rw h refl
]

pub contains-erase :
    (xs : List ℕ) (a b : ℕ) → contains (erase xs a) b ≡ (not (a == b) && contains xs b)
unfolding erase
contains-erase [] a b = ground arith
contains-erase (x ∷ xs) a b = ground (arith, contains-erase xs a b)

-- No address stands twice in the bucket.
abbrev pub Distinct : List ℕ → Type 0
Distinct [] = Unit {0}
Distinct (x ∷ xs) = (contains xs x ≡ false) × Distinct xs

pub insert-Distinct : (xs : List ℕ) (a : ℕ) → Distinct xs → Distinct (insert xs a)
unfolding insert
insert-Distinct xs a d = ground arith

pub erase-Distinct : (xs : List ℕ) (a : ℕ) → Distinct xs → Distinct (erase xs a)
unfolding erase
erase-Distinct [] a d = ground arith
erase-Distinct (x ∷ xs) a d = ground (arith, erase-Distinct xs a d.1, contains-erase xs a x)
