-- ===== src/Usb/Discovery/Matching.antt =====
-- The requested serial numbers and the map.
use odrive_ros2_control.Prelude.{
  ℕ, Bool, true, false, ◌≡◌, refl, sym, ap, ◌∙◌, inl, inr, Bool-cases, Option-cases, some,
  has_value, List, [], ◌∷◌, All, arith, if◌then◌else◌,
}
use mathlib.Core.Path.{subst}
use odrive_ros2_control.Prelude.Int.{ℤ, pos, negsuc, neg, eq_ℤ, eq_ℤ_iff, ltb_ℤ}
use odrive_ros2_control.Usb.Operation.{find}
use odrive_ros2_control.Usb.Discovery.{insert, erase, match_serials}

-- A serial number that is greater than 0.
abbrev pub IsPositive : ℤ → Type 0
IsPositive serial = ltb_ℤ (pos 0) serial ≡ true

-- The map has an entry for the serial number.
abbrev pub IsFound : List (ℤ × ℕ) → ℤ → Type 0
IsFound entries serial = has_value (find serial entries) ≡ true

pub eq_ℤ-refl : (n : ℤ) → eq_ℤ n n ≡ true
eq_ℤ-refl n = (eq_ℤ_iff n n).1 refl

pub neg_differs : (s q : ℤ) → IsPositive s → IsPositive q → eq_ℤ (neg s) q ≡ false
neg_differs (pos s) (pos q) hs hq = ground (arith, hs, hq)
neg_differs (negsuc s) (pos q) hs hq = absurd (ground (arith, hs))
neg_differs (pos s) (negsuc q) hs hq = absurd (ground (arith, hq))
neg_differs (negsuc s) (negsuc q) hs hq = absurd (ground (arith, hs))

pub negative_differs : (k q : ℤ) → ltb_ℤ k (pos 0) ≡ true → IsPositive q → eq_ℤ k q ≡ false
negative_differs (pos k) (pos q) hk hq = absurd (ground (arith, hk))
negative_differs (negsuc k) (pos q) hk hq = refl
negative_differs (pos k) (negsuc q) hk hq = absurd (ground (arith, hq))
negative_differs (negsuc k) (negsuc q) hk hq = absurd (ground (arith, hq))

pub find-erase :
    (key q : ℤ) (entries : List (ℤ × ℕ))
    → eq_ℤ key q ≡ false
    → find q (erase key entries) ≡ find q entries
find-erase key q [] h = refl
find-erase key q ((k, handle) ∷ entries) h = elim (Bool-cases (eq_ℤ k key)) [
  | inl e ↦
      let same : eq_ℤ k q ≡ false = subst (λ n. eq_ℤ n q ≡ false) (sym ((eq_ℤ_iff k key).0 e)) h in
      rw (e, same) refl
  | inr e ↦ elim (Bool-cases (eq_ℤ k q)) [
    | inl f ↦ rw (e, f) refl
    | inr f ↦ rw (e, f) (find-erase key q entries h)
  ]
]

pub insert-IsFound : (key : ℤ) (h : ℕ) (entries : List (ℤ × ℕ)) → IsFound (insert key h entries) key
insert-IsFound key h [] = rw (eq_ℤ-refl key) refl
insert-IsFound key h ((k, handle) ∷ entries) = elim (Bool-cases (eq_ℤ k key)) [
  | inl e ↦ rw (e, e) refl
  | inr e ↦ elim (Bool-cases (ltb_ℤ key k)) [
    | inl f ↦ rw (e, f, eq_ℤ-refl key) refl
    | inr f ↦ rw (e, f, e) (insert-IsFound key h entries)
  ]
]

insert_keeps :
    (key q : ℤ) (h : ℕ) (entries : List (ℤ × ℕ))
    → IsFound entries q
    → IsFound (insert key h entries) q
insert_keeps key q h [] f = absurd (ground (arith, f))
insert_keeps key q h ((k, handle) ∷ entries) f = elim (Bool-cases (eq_ℤ k key)) [
  | inl e ↦ rw e f
  | inr e ↦ elim (Bool-cases (ltb_ℤ key k)) [
    | inl g ↦ elim (Bool-cases (eq_ℤ key q)) [ inl i ↦ rw (e, g, i) refl | inr i ↦ rw (e, g, i) f ]
    | inr g ↦ elim (Bool-cases (eq_ℤ k q)) [
      | inl i ↦ rw (e, g, i) refl
      | inr i ↦
          rw (e, g, i)
            (insert_keeps key q h entries
              (subst (λ b. has_value (if b then some handle else find q entries) ≡ true) i f))
    ]
  ]
]

-- What is found stays found while the requested serial numbers are matched.
match_serials-keeps :
    (serials : List ℤ) (entries : List (ℤ × ℕ)) (q : ℤ)
    → All IsPositive serials
    → IsPositive q
    → IsFound entries q
    → IsFound (match_serials serials entries).1 q
unfolding match_serials
match_serials-keeps [] entries q hs hq f = f
match_serials-keeps (serial ∷ serials) entries q hs hq f =
    elim (Option-cases (find serial entries)) [
      | inr (handle, e) ↦ rw (match_serials, e) (match_serials-keeps serials entries q hs.1 hq f)
      | inl e ↦ elim (Option-cases (find (neg serial) entries)) [
        | inl g ↦ rw (match_serials, e, g) f
        | inr (handle, g) ↦
            rw (match_serials, e, g)
              (match_serials-keeps serials _ q hs.1 hq (
                ap has_value (
                  find-erase (neg serial) q (insert serial handle entries)
                    (neg_differs serial q hs.0 hq))
                ∙ insert_keeps serial q handle entries f))
      ]
    ]

-- The result of matching has all of these, if it is a success.
unfoldable pub Matches : List ℤ → Bool × List (ℤ × ℕ) → Type 0
Matches serials r = r.0 ≡ true → All (IsFound r.1) serials

match_serials-step :
    (serial : ℤ) (serials : List ℤ) (entries next : List (ℤ × ℕ))
    → All IsPositive (serial ∷ serials)
    → match_serials (serial ∷ serials) entries ≡ match_serials serials next
    → IsFound next serial
    → Matches serials (match_serials serials next)
    → Matches (serial ∷ serials) (match_serials (serial ∷ serials) entries)
unfolding Matches
match_serials-step serial serials entries next hs e f rest =
    subst (Matches (serial ∷ serials)) (sym e)
      (λ h. (match_serials-keeps serials next serial hs.1 hs.0 f, rest h))

pub match_serials-Matches :
    (serials : List ℤ) (entries : List (ℤ × ℕ))
    → All IsPositive serials
    → Matches serials (match_serials serials entries)
unfolding Matches match_serials
match_serials-Matches [] entries hs = λ h. tt
match_serials-Matches (serial ∷ serials) entries hs = elim (Option-cases (find serial entries)) [
  | inr (handle, e) ↦
      match_serials-step serial serials entries entries hs (rw (match_serials, e) refl)
        (ap has_value e) (match_serials-Matches serials entries hs.1)
  | inl e ↦ elim (Option-cases (find (neg serial) entries)) [
    | inl g ↦ rw (match_serials, e, g) (λ h. absurd (ground (arith, h)))
    | inr (handle, g) ↦
        let next = erase (neg serial) (insert serial handle entries) in
        match_serials-step serial serials entries next hs (rw (match_serials, e, g) refl)
          (ap has_value (
              find-erase (neg serial) serial (insert serial handle entries)
                (neg_differs serial serial hs.0 hs.0))
            ∙ insert-IsFound serial handle entries)
          (match_serials-Matches serials next hs.1)
  ]
]
