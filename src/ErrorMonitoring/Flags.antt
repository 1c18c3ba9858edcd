-- ===== src/ErrorMonitoring/Flags.antt =====
-- When a description of error bits is empty.
use Prim.Native.Nat.{bit_and}
use odrive_ros2_control.Prelude.{
  ℕ, ◌≡◌, ◌≢◌, ◌↔◌, refl, List, [], ◌∷◌, ◌++◌, arith, ◌==◌, if◌then◌else◌, ap, Bool-cases, inl, inr,
}
use odrive_ros2_control.ErrorMonitoring.{
  ErrorTable, Flag, named, unknown_bits, clear_bits, decode, describe_error_bits,
}

-- The names of the table's bits that are set in the value, in the order of the table.
abbrev pub names_set : ℕ → ErrorTable → List Flag
names_set value [] = []
names_set value ((bits, name) ∷ table) =
    let rest = names_set value table in if bit_and value bits == 0 then rest else named name ∷ rest

-- The value without the bits that the table names and the value has.
abbrev pub without_named : ℕ → ErrorTable → ℕ → ℕ
without_named value [] remaining = remaining
without_named value ((bits, name) ∷ table) remaining =
    without_named value table
      (if bit_and value bits == 0 then remaining else clear_bits remaining bits)

decode-eq :
    (value : ℕ) (table : ErrorTable) (remaining : ℕ)
    → decode value table remaining ≡ (names_set value table, without_named value table remaining)
unfolding decode
decode-eq value [] remaining = refl
decode-eq value ((bits, name) ∷ table) remaining = elim (Bool-cases (bit_and value bits == 0)) [
  | inl e ↦ rw e (decode-eq value table remaining)
  | inr e ↦ rw e (
      ap (λ (p : List Flag × ℕ). (named name ∷ p.0, p.1))
        (decode-eq value table (clear_bits remaining bits)))
]

no_names :
    (value : ℕ) (table : ErrorTable) (remaining : ℕ)
    → names_set value table ≡ []
    → without_named value table remaining ≡ remaining
no_names value [] remaining h = refl
no_names value ((bits, name) ∷ table) remaining h = ground (arith, no_names value table remaining)

snoc-ne-nil : (l : List Flag) (f : Flag) → l ++ (f ∷ []) ≢ []
snoc-ne-nil [] f = cc
snoc-ne-nil (x ∷ l) f = cc

-- A description is empty exactly when no error bit is set.
pub describe_error_bits_nil :
    (value : ℕ) (table : ErrorTable) → (describe_error_bits value table ≡ []) ↔ (value ≡ 0)
unfolding describe_error_bits
describe_error_bits_nil value table = ground (
  arith,
  decode-eq value table value,
  no_names value table value,
  snoc-ne-nil (names_set value table) (unknown_bits (without_named value table value)),
)
