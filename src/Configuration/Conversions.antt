-- ===== src/Configuration/Conversions.antt =====
-- `parse_hex_serial`, `parse_bool`, `parse_int` and `parse_double` of
-- odrive_hardware_interface/src/odrive_configuration.cpp. A character of a `String` is a byte.
use odrive_ros2_control.Prelude.{
  ℕ, suc, Bool, true, false, not, ◌||◌, String, Option, none, some, if◌then◌else◌, ◌==◌ as ◌=ℕ◌,
}
use odrive_ros2_control.Prelude.Int.{to_int64, ℤ, pos, eq_ℤ}
use Prim.Native.Char.{Char}
use text.Mathlib.Text.{◌==◌}

-- The standard library's conversions: `none` is an exception, and the number beside a value is how
-- many characters were processed.
pub record Conversions (W : Type 0) : Type 0 where
  -- in base 16
  pub stoull : String → Option (ℕ × ℕ)
  -- in base 10
  pub stoi : String → Option (ℤ × ℕ)
  pub stod : String → Option (W × ℕ)
  pub to_lower : Char → Char

abbrev pub size : String → ℕ
size String.[] = 0
size (String.◌∷◌ c s) = suc (size s)

abbrev pub transform : (Char → Char) → String → String
transform f String.[] = String.[]
transform f (String.◌∷◌ c s) = String.◌∷◌ (f c) (transform f s)

-- A conversion that must process all of the string.
abbrev pub whole {ℓ} : {A : Type ℓ} → String → Option (A × ℕ) → Option A
whole value none = none
whole value (some (parsed, processed)) = if processed =ℕ size value then some parsed else none

module _ {W : Type 0} (lib : Conversions W) where
  open lib use {stoull, stoi, stod, to_lower}

  unfoldable pub parse_hex_serial : String → Option ℤ
  parse_hex_serial value = elim (whole value (stoull value)) [
    | none ↦ none
    | some parsed ↦ some (to_int64 parsed)
  ]

  unfoldable pub parse_bool : String → Option Bool
  parse_bool value =
      let lowered = transform to_lower value in
      if lowered == "true" || lowered == "yes" || lowered == "on"
      then some true
      else if lowered == "false" || lowered == "no" || lowered == "off"
      then some false
      else elim (stoi value) [ none ↦ none | some pair ↦ some (not (eq_ℤ pair.0 (pos 0))) ]

  unfoldable pub parse_int : String → Option ℤ
  parse_int value = whole value (stoi value)

  unfoldable pub parse_double : String → Option W
  parse_double value = whole value (stod value)
