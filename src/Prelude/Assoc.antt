-- ===== src/Prelude/Assoc.antt =====
-- Association lists, for the maps of the program, over a test of keys; and texts.
use Prim.Native.Nat.{ℕ}
use Prim.Native.Char.{code}
use Prim.Native.String.{String}
use text.Mathlib.Text.{◌==◌}
use text.Mathlib.TextEquality.{eq_iff}
use mathlib.Core.Path.{◌≡◌, refl}
use mathlib.Core.Bool.{Bool, true, false, ◌&&◌}
use mathlib.Core.Option.{Option, none, some}
use mathlib.Core.List.{List, [], ◌∷◌}
use native.Mathlib.Omega.{arith}
use ecron.Prelude.Tests
use ecron.Prelude.Tests.{if◌then◌else◌}

abbrev pub str_eq : String → String → Bool
str_eq s t = s == t

pub str_eq_refl : (s : String) → str_eq s s ≡ true
str_eq_refl s = (eq_iff s s).1 refl

-- The bytes of a text.
abbrev pub codes : String → List ℕ
codes String.[] = []
codes (String.◌∷◌ c s) = code c ∷ codes s

-- `memcmp(…) == 0` on runs of the same length, and `==` on byte strings.
abbrev pub same_bytes : List ℕ → List ℕ → Bool
same_bytes [] [] = true
same_bytes [] (y ∷ ys) = false
same_bytes (x ∷ xs) [] = false
same_bytes (x ∷ xs) (y ∷ ys) = Tests.◌==◌ x y && same_bytes xs ys

module _ {ℓ κ} {K : Type ℓ} {V : Type κ} (beq : K → K → Bool) where
  unfoldable pub lookup : K → List (K × V) → Option V
  lookup k [] = none
  lookup k ((j, v) ∷ m) = if beq j k then some v else lookup k m

  -- `m[k] = v`
  unfoldable pub assign : K → V → List (K × V) → List (K × V)
  assign k v [] = (k, v) ∷ []
  assign k v ((j, w) ∷ m) = if beq j k then (j, v) ∷ m else (j, w) ∷ assign k v m

  unfoldable pub erase_key : K → List (K × V) → List (K × V)
  erase_key k [] = []
  erase_key k ((j, w) ∷ m) = let rest = erase_key k m in if beq j k then rest else (j, w) ∷ rest

pub lookup-assign {κ} :
    {V : Type κ} (k j : ℕ) (v : V) (m : List (ℕ × V))
    → lookup Tests.◌==◌ j (assign Tests.◌==◌ k v m)
      ≡ (if Tests.◌==◌ k j then some v else lookup Tests.◌==◌ j m)
unfolding lookup assign
lookup-assign k j v [] = refl
lookup-assign k j v ((i, w) ∷ m) = ground (arith, lookup-assign k j v m)

pub lookup-erase_key {κ} :
    {V : Type κ} (k j : ℕ) (m : List (ℕ × V))
    → lookup Tests.◌==◌ j (erase_key Tests.◌==◌ k m)
      ≡ (if Tests.◌==◌ k j then none else lookup Tests.◌==◌ j m)
unfolding lookup erase_key
lookup-erase_key k j [] = ground arith
lookup-erase_key k j ((i, w) ∷ m) = ground (arith, lookup-erase_key k j m)
