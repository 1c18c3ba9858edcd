-- ===== src/Interface/Modes/Named.antt =====
-- A change of every joint by its name, for the proofs on `prepare_command_mode_switch`.
use odrive_ros2_control.Prelude.{
  false, ◌≡◌, refl, sym, ap, inl, inr, String, List, [], ◌∷◌, All, Bool-cases, if◌then◌else◌,
}
use mathlib.Core.Path.{subst}
use text.Mathlib.Text.{◌==◌}
use text.Mathlib.TextEquality.{eq_iff}
use odrive_ros2_control.Interface.Modes.{update_named}

-- No two names are the same.
abbrev pub Distinct : List String → Type 0
Distinct [] = Unit
Distinct (n ∷ names) = All (λ m. (m == n) ≡ false) names × Distinct names

-- A change of each element by its name.
module _ {ℓ} {A : Type ℓ} where
  abbrev pub each_named : (String → A → A) → List String → List A → List A
  each_named f (n ∷ names) (x ∷ xs) = f n x ∷ each_named f names xs
  each_named f _ xs = xs

  update_absent :
      (key : String) (f : A → A) (names : List String) (xs : List A)
      → All (λ m. (m == key) ≡ false) names
      → each_named (λ n x. if n == key then f x else x) names xs ≡ xs
  update_absent key f [] xs h = refl
  update_absent key f (n ∷ names) [] h = refl
  update_absent key f (n ∷ names) (x ∷ xs) h =
      rw h.0 (ap (λ ys. x ∷ ys) (update_absent key f names xs h.1))

  pub update_named-each_named :
      (key : String) (f : A → A) (names : List String) (xs : List A)
      → Distinct names
      → update_named key f names xs ≡ each_named (λ n x. if n == key then f x else x) names xs
  update_named-each_named key f [] xs h = refl
  update_named-each_named key f (n ∷ names) [] h = refl
  update_named-each_named key f (n ∷ names) (x ∷ xs) h = elim (Bool-cases (n == key)) [
    | inl e ↦
        let absent = subst (λ m. All (λ o. (o == m) ≡ false) names) ((eq_iff n key).0 e) h.0 in
        rw e (ap (λ ys. f x ∷ ys) (sym (update_absent key f names xs absent)))
    | inr e ↦ rw e (ap (λ ys. x ∷ ys) (update_named-each_named key f names xs h.1))
  ]

  pub each_id : (names : List String) (xs : List A) → each_named (λ n x. x) names xs ≡ xs
  each_id [] xs = refl
  each_id (n ∷ names) [] = refl
  each_id (n ∷ names) (x ∷ xs) = ap (λ ys. x ∷ ys) (each_id names xs)

  pub each_twice :
      (f g : String → A → A) (names : List String) (xs : List A)
      → each_named g names (each_named f names xs) ≡ each_named (λ n x. g n (f n x)) names xs
  each_twice f g [] xs = refl
  each_twice f g (n ∷ names) [] = refl
  each_twice f g (n ∷ names) (x ∷ xs) = ap (λ ys. g n (f n x) ∷ ys) (each_twice f g names xs)

  pub each_same :
      (f g : String → A → A) (names : List String) (xs : List A)
      → ((n : String) (x : A) → f n x ≡ g n x)
      → each_named f names xs ≡ each_named g names xs
  each_same f g [] xs h = refl
  each_same f g (n ∷ names) [] h = refl
  each_same f g (n ∷ names) (x ∷ xs) h =
      rw (h n x) (ap (λ ys. g n x ∷ ys) (each_same f g names xs h))
