-- ===== src/Prelude/Lists.antt =====
-- Lists measured by native numbers, and predicates on them.
use Prim.Native.Nat.{ℕ, zero, suc, ◌+◌}
use mathlib.Core.Path.{◌≡◌}
use mathlib.Core.Option.{Option, none, some}
use mathlib.Core.List.{List, [], ◌∷◌, ◌++◌, map}
use native.Mathlib.Omega.{arith}

module _ {ℓ} {A : Type ℓ} where
  abbrev pub length : List A → ℕ
  length [] = 0
  length (x ∷ xs) = suc (length xs)

  abbrev pub replicate : ℕ → A → List A
  replicate zero a = []
  replicate (suc n) a = a ∷ replicate n a

  -- The element at the head, where a vector is long enough.
  abbrev pub head? : List A → Option A
  head? [] = none
  head? (x ∷ xs) = some x

  abbrev pub tail : List A → List A
  tail [] = []
  tail (x ∷ xs) = xs

  -- The inverse of `head?` and `tail`.
  abbrev pub cons? : Option A → List A → List A
  cons? none xs = xs
  cons? (some x) xs = x ∷ xs

  abbrev pub All {κ} : (A → Type κ) → List A → Type κ
  All P [] = Unit
  All P (x ∷ xs) = P x × All P xs

  pub All-append {κ} : (P : A → Type κ) (xs ys : List A) → All P xs → All P ys → All P (xs ++ ys)
  All-append P [] ys hx hy = hy
  All-append P (x ∷ xs) ys (h, hs) hy = (h, All-append P xs ys hs hy)

  pub length-append : (xs ys : List A) → length (xs ++ ys) ≡ length xs + length ys
  length-append [] ys = omega arith
  length-append (x ∷ xs) ys = omega (arith, length-append xs ys)

-- The elements of two lists correspond, in order.
abbrev pub Each {ℓ κ} : {A : Type ℓ} {B : Type κ} → (A → B → Type 0) → List A → List B → Type 0
Each R [] [] = Unit
Each R (x ∷ xs) (y ∷ ys) = R x y × Each R xs ys
Each R _ _ = ⊥

-- A list with what a function makes of it, of a list that corresponds to it, and the other way.
pub Each-map {ℓ κ} :
    {A : Type ℓ} {B : Type κ} (R : A → B → Type 0) (f : A → B) (xs : List A)
    → ((a : A) → R a (f a))
    → Each R xs (map f xs)
Each-map R f [] h = tt
Each-map R f (x ∷ xs) h = (h x, Each-map R f xs h)

pub Each-then {ℓ κ} :
    {A : Type ℓ} {B : Type κ} (Q : A → B → Type 0) (R : A → B → Type 0) (f : B → B) (xs : List A)
    (ys : List B)
    → ((a : A) (b : B) → Q a b → R a (f b))
    → Each Q xs ys
    → Each R xs (map f ys)
Each-then Q R f [] [] h e = tt
Each-then Q R f [] (y ∷ ys) h e = absurd e
Each-then Q R f (x ∷ xs) [] h e = absurd e
Each-then Q R f (x ∷ xs) (y ∷ ys) h e = (h x y e.0, Each-then Q R f xs ys h e.1)

pub Each-before {ℓ κ} :
    {A : Type ℓ} {B : Type κ} (R : A → B → Type 0) (f : A → A) (xs : List A) (ys : List B)
    → Each R (map f xs) ys
    → Each (λ a b. R (f a) b) xs ys
Each-before R f [] [] e = tt
Each-before R f [] (y ∷ ys) e = absurd e
Each-before R f (x ∷ xs) [] e = absurd e
Each-before R f (x ∷ xs) (y ∷ ys) e = (e.0, Each-before R f xs ys e.1)
