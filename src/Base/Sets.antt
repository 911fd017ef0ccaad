-- ===== src/Base/Sets.antt =====
-- Lists of texts read as sets, and windows of a list.
use Prim.Native.Nat.{ℕ, zero, suc, ◌+◌, ◌-◌, ◌≤◌, ◌<◌}
use Prim.Native.String.{String}
use mathlib.Core.Path.{◌≡◌, refl, ap, sym}
use mathlib.Core.Bool.{Bool, true, false, ◌||◌}
use mathlib.Core.List.{List, [], ◌∷◌, ◌++◌}
use native.Mathlib.Omega.{arith}
use text.Mathlib.Text.{◌==◌ as str_eq}
use text.Mathlib.TextEquality.{eq_iff}
use mathlib.Core.Logic.{inl, inr}
use nitroso_tin.Base.Tests.{Bool-cases}
use nitroso_tin.Base.Lists.{length}

abbrev pub member : String → List String → Bool
member x [] = false
member x (y ∷ ys) = str_eq x y || member x ys

-- No text stands twice in the list.
abbrev pub Distinct : List String → Type 0
Distinct [] = Unit
Distinct (x ∷ xs) = (member x xs ≡ false) × Distinct xs

module _ {ℓ} {A : Type ℓ} where
  abbrev pub count_if : (A → Bool) → List A → ℕ
  count_if p [] = 0
  count_if p (x ∷ xs) = elim (p x) [ true ↦ suc (count_if p xs) | false ↦ count_if p xs ]

  abbrev pub take : ℕ → List A → List A
  take zero xs = []
  take (suc n) [] = []
  take (suc n) (x ∷ xs) = x ∷ take n xs

  abbrev pub drop : ℕ → List A → List A
  drop zero xs = xs
  drop (suc n) [] = []
  drop (suc n) (x ∷ xs) = drop n xs

  take-nil : (n : ℕ) → ◌≡◌ {A = List A} (take n []) []
  take-nil zero = refl
  take-nil (suc n) = refl

  drop-nil : (n : ℕ) → ◌≡◌ {A = List A} (drop n []) []
  drop-nil zero = refl
  drop-nil (suc n) = refl

  pub length-take-le : (n : ℕ) (xs : List A) → length (take n xs) ≤ n
  length-take-le zero xs = omega arith
  length-take-le (suc n) [] = omega arith
  length-take-le (suc n) (x ∷ xs) = omega (arith, length-take-le n xs)

  -- A window that is not full shows all that is left.
  pub take_short : (n m : ℕ) (xs : List A) → length (take n xs) < n → take (n + m) xs ≡ take n xs
  take_short zero m xs h = absurd (omega arith)
  take_short (suc n) m [] h = take-nil (suc n + m)
  take_short (suc n) m (x ∷ xs) h =
      let step : suc n + m ≡ suc (n + m) = omega arith in
      ground (arith, ap (λ k. take k (x ∷ xs)) step, take_short n m xs (omega arith))

  pub take-add : (n m : ℕ) (xs : List A) → take (n + m) xs ≡ take n xs ++ take m (drop n xs)
  take-add zero m xs = ground arith
  take-add (suc n) zero [] = ground arith
  take-add (suc n) (suc m) [] = take-nil (suc n + suc m)
  take-add (suc n) m (x ∷ xs) =
      let step : suc n + m ≡ suc (n + m) = omega arith in
      ground (arith, ap (λ k. take k (x ∷ xs)) step, take-add n m xs)

  pub drop-add : (n m : ℕ) (xs : List A) → drop (n + m) xs ≡ drop m (drop n xs)
  drop-add zero m xs = ground arith
  drop-add (suc n) zero [] = ground arith
  drop-add (suc n) (suc m) [] = drop-nil (suc n + suc m)
  drop-add (suc n) m (x ∷ xs) =
      let step : suc n + m ≡ suc (n + m) = omega arith in
      ground (arith, ap (λ k. drop k (x ∷ xs)) step, drop-add n m xs)

  pub take_append_drop : (n : ℕ) (xs : List A) → take n xs ++ drop n xs ≡ xs
  take_append_drop zero xs = refl
  take_append_drop (suc n) [] = refl
  take_append_drop (suc n) (x ∷ xs) = ap (λ ys. x ∷ ys) (take_append_drop n xs)

  pub length-drop : (n : ℕ) (xs : List A) → length (drop n xs) ≡ length xs - n
  length-drop zero xs = omega arith
  length-drop (suc n) [] = omega arith
  length-drop (suc n) (x ∷ xs) = omega (arith, length-drop n xs)

  pub length-take : (n : ℕ) (xs : List A) → n ≤ length xs → length (take n xs) ≡ n
  length-take zero xs h = refl
  length-take (suc n) [] h = absurd (omega arith)
  length-take (suc n) (x ∷ xs) h = omega (arith, length-take n xs (omega arith))

  pub drop_all : (n : ℕ) (xs : List A) → length xs ≤ n → drop n xs ≡ []
  drop_all zero [] h = refl
  drop_all zero (x ∷ xs) h = absurd (omega arith)
  drop_all (suc n) [] h = refl
  drop_all (suc n) (x ∷ xs) h = drop_all n xs (omega arith)

pub member-append :
    (x : String) (xs ys : List String) → member x (xs ++ ys) ≡ member x xs || member x ys
member-append x [] ys = refl
member-append x (y ∷ xs) ys = ground (arith, member-append x xs ys)

str_eq_comm : (x y : String) → str_eq x y ≡ false → str_eq y x ≡ false
str_eq_comm x y h = elim (Bool-cases (str_eq y x)) [
  | inr other ↦ other
  | inl same ↦ absurd (ground (arith, h, (eq_iff x y).1 (sym ((eq_iff y x).0 same))))
]

-- A new member at the end.
pub append-Distinct :
    (xs : List String) (x : String) → Distinct xs → member x xs ≡ false → Distinct (xs ++ (x ∷ []))
append-Distinct [] x d new = (refl, tt)
append-Distinct (y ∷ xs) x d new =
    let apart = str_eq_comm x y (ground arith) in
    (
      ground (arith, member-append y xs (x ∷ []), d.0, apart),
      append-Distinct xs x d.1 (ground arith),
    )
