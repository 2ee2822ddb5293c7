-- ===== src/Prelude/Lists.antt =====
-- List operations over the native numbers, under the library's names.
use Prim.Native.Nat.{ℕ, zero, suc, ◌+◌, ◌≤◌}
use mathlib.Core.Path.{◌≡◌, refl, sym, ap, subst}
use mathlib.Core.Logic.{◌⊎◌, inl, inr}
use mathlib.Core.Bool.{Bool, true, false, ◌||◌}
use mathlib.Core.Option.{Option, none, some, some-injective}
use mathlib.Core.List.{List, [], ◌∷◌, ◌++◌, Memᴰ}
use native.Mathlib.Omega.{arith}

pub Option-cases {ℓ} : {A : Type ℓ} (o : Option A) → (o ≡ none) ⊎ ((a : A) × (o ≡ some a))
Option-cases none = inl refl
Option-cases (some a) = inr (a, refl)

module _ {ℓ} {A : Type ℓ} where
  abbrev pub length : List A → ℕ
  length [] = 0
  length (x ∷ xs) = suc (length xs)

  abbrev pub take : ℕ → List A → List A
  take zero xs = []
  take (suc n) [] = []
  take (suc n) (x ∷ xs) = x ∷ take n xs

  abbrev pub drop : ℕ → List A → List A
  drop zero xs = xs
  drop (suc n) [] = []
  drop (suc n) (x ∷ xs) = drop n xs

  pub length-append : (xs ys : List A) → length (xs ++ ys) ≡ length xs + length ys
  length-append [] ys = omega arith
  length-append (x ∷ xs) ys = omega (arith, length-append xs ys)

  pub take-append : (xs ys : List A) → take (length xs) (xs ++ ys) ≡ xs
  take-append [] ys = refl
  take-append (x ∷ xs) ys = ap (λ zs. x ∷ zs) (take-append xs ys)

  pub drop-append : (xs ys : List A) → drop (length xs) (xs ++ ys) ≡ ys
  drop-append [] ys = refl
  drop-append (x ∷ xs) ys = drop-append xs ys

  pub length-take : (n : ℕ) (xs : List A) → n ≤ length xs → length (take n xs) ≡ n
  length-take zero xs h = refl
  length-take (suc n) [] h = absurd (omega arith)
  length-take (suc n) (x ∷ xs) h = omega (arith, length-take n xs (omega arith))

  pub length-drop : (n : ℕ) (xs : List A) → n ≤ length xs → length (drop n xs) + n ≡ length xs
  length-drop zero xs h = omega arith
  length-drop (suc n) [] h = absurd (omega arith)
  length-drop (suc n) (x ∷ xs) h = omega (arith, length-drop n xs (omega arith))

  abbrev pub any : (A → Bool) → List A → Bool
  any p [] = false
  any p (x ∷ xs) = p x || any p xs

  abbrev pub count_if : (A → Bool) → List A → ℕ
  count_if p [] = 0
  count_if p (x ∷ xs) = (elim (p x) [ true ↦ 1 | false ↦ 0 ]) + count_if p xs

  -- The element at an index, with the list that is left when it is taken out.
  unfoldable pub take_at : ℕ → List A → Option (A × List A)
  take_at i [] = none
  take_at zero (x ∷ xs) = some (x, xs)
  take_at (suc i) (x ∷ xs) = elim (take_at i xs) [ none ↦ none | some (y, ys) ↦ some (y, x ∷ ys) ]

module _ {ℓ κ} {A : Type ℓ} (P : A → Type κ) where
  abbrev pub All : List A → Type κ
  All [] = Unit
  All (x ∷ xs) = P x × All xs

  pub All-append : (xs ys : List A) → All xs → All ys → All (xs ++ ys)
  All-append [] ys h k = k
  All-append (x ∷ xs) ys (p, h) k = (p, All-append xs ys h k)

  pub All-mem : (xs : List A) {x : A} → All xs → Memᴰ x xs → P x
  All-mem [] h m = elim m [ ]
  All-mem (y ∷ xs) (p, h) (Memᴰ.head e) = subst P (sym e) p
  All-mem (y ∷ xs) (p, h) (Memᴰ.tail m) = All-mem xs h m

  -- What holds of every element holds of the one taken out and of those left.
  pub All-take_at :
      (i : ℕ) (xs : List A) {x : A} {rest : List A}
      → take_at i xs ≡ some (x, rest)
      → All xs
      → P x × All rest
  unfolding take_at
  All-take_at i [] e h = cc
  All-take_at zero (x ∷ xs) e h = subst (λ q. P q.0 × All q.1) (some-injective _ _ e) h
  All-take_at (suc i) (x ∷ xs) e (p, h) = elim (Option-cases (take_at i xs)) [
    | inl gone ↦ ground arith
    | inr ((y, ys), found) ↦
        let (q, k) = All-take_at i xs found h in
        let same = some-injective (y, x ∷ ys) _ (rw (found, take_at) at e) in
        subst (λ q. P q.0 × All q.1) same (q, (p, k))
  ]

-- Taking an element out lowers the count by that element.
pub count_if-take_at {ℓ} :
    {A : Type ℓ} (p : A → Bool) (i : ℕ) (xs : List A) {x : A} {rest : List A}
    → take_at i xs ≡ some (x, rest)
    → count_if p xs ≡ count_if p (x ∷ []) + count_if p rest
unfolding take_at
count_if-take_at p i [] e = cc
count_if-take_at p zero (x ∷ xs) e =
    subst (λ q. count_if p (x ∷ xs) ≡ count_if p (q.0 ∷ []) + count_if p q.1) (some-injective _ _ e)
      (omega arith)
count_if-take_at p (suc i) (x ∷ xs) e = elim (Option-cases (take_at i xs)) [
  | inl gone ↦ ground arith
  | inr ((y, ys), found) ↦
      let same = some-injective (y, x ∷ ys) _ (rw (found, take_at) at e) in
      subst (λ q. count_if p (x ∷ xs) ≡ count_if p (q.0 ∷ []) + count_if p q.1) same
        (omega (arith, count_if-take_at p i xs found))
]

pub count_if-append {ℓ} :
    {A : Type ℓ} (p : A → Bool) (xs ys : List A)
    → count_if p (xs ++ ys) ≡ count_if p xs + count_if p ys
count_if-append p [] ys = omega arith
count_if-append p (x ∷ xs) ys = omega (arith, count_if-append p xs ys)
