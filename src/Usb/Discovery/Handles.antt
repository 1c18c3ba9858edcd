-- ===== src/Usb/Discovery/Handles.antt =====
-- The handles of the map, which matching keeps.
use odrive_ros2_control.Prelude.{
  ℕ, false, ◌≡◌, refl, sym, ap, ◌∙◌, ◌⊎◌, inl, inr, Bool-cases, Option-cases, none, some, List, [],
  ◌∷◌, All, arith,
}
use mathlib.Core.Path.{subst}
use odrive_ros2_control.Prelude.Int.{ℤ, neg, eq_ℤ, eq_ℤ_iff, ltb_ℤ}
use odrive_ros2_control.Usb.Operation.{find}
use odrive_ros2_control.Usb.Discovery.{insert, erase, match_serials}
use odrive_ros2_control.Usb.Discovery.Matching.{IsPositive, eq_ℤ-refl, neg_differs, find-erase}

-- A handle is in the map.
abbrev pub HasHandle : ℕ → List (ℤ × ℕ) → Type 0
HasHandle h [] = ⊥
HasHandle h ((k, g) ∷ entries) = (g ≡ h) ⊎ HasHandle h entries

insert-HasHandle :
    (key : ℤ) (g h : ℕ) (entries : List (ℤ × ℕ))
    → HasHandle h entries
    → HasHandle h (insert key g entries)
insert-HasHandle key g h [] m = absurd m
insert-HasHandle key g h ((k, i) ∷ entries) m = elim (Bool-cases (eq_ℤ k key)) [
  | inl e ↦ rw e m
  | inr e ↦ elim (Bool-cases (ltb_ℤ key k)) [
    | inl f ↦ rw (e, f) (inr m)
    | inr f ↦
        rw (e, f) (elim m [ inl s ↦ inl s | inr r ↦ inr (insert-HasHandle key g h entries r) ])
  ]
]

pub some_injective : (a b : ℕ) → some a ≡ some b → a ≡ b
some_injective a b e = cc

erase-HasHandle :
    (key : ℤ) (h : ℕ) (entries : List (ℤ × ℕ))
    → HasHandle h entries
    → (find key entries ≡ some h) ⊎ HasHandle h (erase key entries)
erase-HasHandle key h [] m = absurd m
erase-HasHandle key h ((k, i) ∷ entries) (inl same) = elim (Bool-cases (eq_ℤ k key)) [
  | inl e ↦ rw e (inl (ap some same))
  | inr e ↦ rw e (inr (inl same))
]
erase-HasHandle key h ((k, i) ∷ entries) (inr m) = elim (Bool-cases (eq_ℤ k key)) [
  | inl e ↦ rw e (inr m)
  | inr e ↦ rw e (elim (erase-HasHandle key h entries m) [ inl f ↦ inl f | inr r ↦ inr (inr r) ])
]

find-insert :
    (key q : ℤ) (g : ℕ) (entries : List (ℤ × ℕ))
    → eq_ℤ key q ≡ false
    → find q (insert key g entries) ≡ find q entries
find-insert key q g [] d = rw d refl
find-insert key q g ((k, i) ∷ entries) d = elim (Bool-cases (eq_ℤ k key)) [
  | inl e ↦ rw e refl
  | inr e ↦ elim (Bool-cases (ltb_ℤ key k)) [
    | inl f ↦ rw (e, f, d) refl
    | inr f ↦ elim (Bool-cases (eq_ℤ k q)) [
      | inl i ↦ rw (e, f, i) refl
      | inr i ↦ rw (e, f, i) (find-insert key q g entries d)
    ]
  ]
]

find-insert_new :
    (key : ℤ) (g : ℕ) (entries : List (ℤ × ℕ))
    → find key entries ≡ none
    → find key (insert key g entries) ≡ some g
find-insert_new key g [] = λ h. rw (eq_ℤ-refl key) refl
find-insert_new key g ((k, i) ∷ entries) = elim (Bool-cases (eq_ℤ k key)) [
  | inl e ↦ rw e (λ h. absurd (ground (arith, h)))
  | inr e ↦ elim (Bool-cases (ltb_ℤ key k)) [
    | inl f ↦ rw (e, f, eq_ℤ-refl key) (λ h. refl)
    | inr f ↦ rw (e, f, e) (find-insert_new key g entries)
  ]
]

find-HasHandle :
    (key : ℤ) (g : ℕ) (entries : List (ℤ × ℕ)) → find key entries ≡ some g → HasHandle g entries
find-HasHandle key g [] = λ h. absurd (ground (arith, h))
find-HasHandle key g ((k, i) ∷ entries) = elim (Bool-cases (eq_ℤ k key)) [
  | inl e ↦ rw e (λ h. inl (some_injective i g h))
  | inr e ↦ rw e (λ h. inr (find-HasHandle key g entries h))
]

eq_ℤ-sym : (a b : ℤ) → eq_ℤ a b ≡ false → eq_ℤ b a ≡ false
eq_ℤ-sym a b d = elim (Bool-cases (eq_ℤ b a)) [
  | inr e ↦ e
  | inl e ↦ e ∙ sym ((eq_ℤ_iff a b).1 (sym ((eq_ℤ_iff b a).0 e))) ∙ d
]

-- One serial number matched: the handles stay.
matched-HasHandle :
    (serial : ℤ) (g h : ℕ) (entries : List (ℤ × ℕ))
    → IsPositive serial
    → find serial entries ≡ none
    → find (neg serial) entries ≡ some g
    → HasHandle h entries
    → HasHandle h (erase (neg serial) (insert serial g entries))
matched-HasHandle serial g h entries p absent there m =
    let differs = neg_differs serial serial p p in
    elim (erase-HasHandle (neg serial) h (insert serial g entries)
      (insert-HasHandle serial g h entries m)) [
        | inr kept ↦ kept
        | inl gone ↦
            let same : g ≡ h = some_injective g h (
              sym there
              ∙ sym
                  (find-insert serial (neg serial) g entries (eq_ℤ-sym (neg serial) serial differs))
              ∙ gone) in
            subst (λ i. HasHandle i (erase (neg serial) (insert serial g entries))) same
              (find-HasHandle serial g _ (
                find-erase (neg serial) serial (insert serial g entries) differs
                ∙ find-insert_new serial g entries absent))
      ]

pub match_serials-HasHandle :
    (serials : List ℤ) (entries : List (ℤ × ℕ)) (h : ℕ)
    → All IsPositive serials
    → HasHandle h entries
    → HasHandle h (match_serials serials entries).1
unfolding match_serials
match_serials-HasHandle [] entries h ps m = m
match_serials-HasHandle (serial ∷ serials) entries h ps m =
    elim (Option-cases (find serial entries)) [
      | inr (g, e) ↦ rw (match_serials, e) (match_serials-HasHandle serials entries h ps.1 m)
      | inl e ↦ elim (Option-cases (find (neg serial) entries)) [
        | inl f ↦ rw (match_serials, e, f) m
        | inr (g, f) ↦
            rw (match_serials, e, f)
              (match_serials-HasHandle serials _ h ps.1
                (matched-HasHandle serial g h entries ps.0 e f m))
      ]
    ]
