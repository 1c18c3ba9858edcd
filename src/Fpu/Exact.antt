-- ===== src/Fpu/Exact.antt =====
-- A floating-point unit that meets the laws, for the examples: integers with NaN.
use odrive_ros2_control.Prelude.{
  ℕ, ◌≡◌, refl, ◌/◌, Bool, true, false, not, Option, none, some, arith, if◌then◌else◌,
}
use odrive_ros2_control.Prelude.Int.{
  ℤ, pos, negsuc, pos_part, neg_part, neg, ltb_ℤ, eq_ℤ, ◌+ℤ◌, ◌-ℤ◌, ◌*ℤ◌,
}
use odrive_ros2_control.Fpu.{Fpu}
use odrive_ros2_control.Fpu.Laws.{IsIeee}

-- `none` is NaN.
abbrev pub Exact : Type 0
Exact = Option ℤ

abbrev is_some : Exact → Bool
is_some none = false
is_some (some a) = true

abbrev on_pairs : (ℤ → ℤ → ℤ) → Exact → Exact → Exact
on_pairs f (some a) (some b) = some (f a b)
on_pairs f _ _ = none

abbrev on_tests : (ℤ → ℤ → Bool) → Exact → Exact → Bool
on_tests f (some a) (some b) = f a b
on_tests f _ _ = false

abbrev magnitude : ℤ → ℕ
magnitude (pos n) = n
magnitude (negsuc n) = neg_part (negsuc n)

abbrev with_sign : ℤ → ℤ → ℤ
with_sign a b = if ltb_ℤ b (pos 0) then neg (pos (magnitude a)) else pos (magnitude a)

abbrev abs_exact : Exact → Exact
abs_exact none = none
abs_exact (some a) = some (pos (magnitude a))

abbrev to_u64_exact : Exact → ℕ
to_u64_exact none = 0
to_u64_exact (some a) = pos_part a

abbrev pub exact : Fpu Exact Exact
exact = record {
  of_int = λ n. some n;
  of_uint = λ n. some (pos n);
  to_u64 = to_u64_exact;
  to_float = λ x. x;
  to_double = λ x. x;
  quiet_nan = none;
  thousandths = λ n. some (pos (n / 1000));
  float_max = some (pos 1000000000);
  float_lowest = some (negsuc 999999999);
  radians_to_turns = some (pos 1);
  turns_to_radians = some (pos 1);
  is_finite = is_some;
  lt = on_tests ltb_ℤ;
  le = on_tests λ a b. not (ltb_ℤ b a);
  eq = on_tests eq_ℤ;
  add = on_pairs ◌+ℤ◌;
  sub = on_pairs ◌-ℤ◌;
  mul = on_pairs ◌*ℤ◌;
  abs = abs_exact;
  copysign = on_pairs with_sign;
  mul_float = on_pairs ◌*ℤ◌;
  seconds = λ n. some (pos (n / 1000000000));
}

finite_times :
    (x : Exact) (n : ℤ) → exact.is_finite x ≡ true → exact.is_finite (exact.mul x (some n)) ≡ true
finite_times none n h = h
finite_times (some a) n h = refl

ordered :
    (x y : Exact) → is_some x ≡ true → is_some y ≡ true → exact.lt x y ≡ false → exact.le y x ≡ true
ordered none y hx hy h = ground arith
ordered (some a) none hx hy h = ground arith
ordered (some a) (some b) hx hy h = ground arith

consistent : (x y : Exact) → exact.le y x ≡ true → exact.lt x y ≡ false
consistent none y h = refl
consistent (some a) none h = refl
consistent (some a) (some b) h = ground arith

equal_self : (x : Exact) → is_some x ≡ true → exact.eq x x ≡ true
equal_self none h = h
equal_self (some (pos n)) h = ground arith
equal_self (some (negsuc n)) h = ground arith

pub exact-IsIeee : IsIeee exact
exact-IsIeee = record {
  of_int_finite = λ n. refl;
  nan_not_finite = refl;
  mul_one_finite = λ x h. finite_times x (pos 1) h;
  mul_minus_one_finite = λ x h. finite_times x (negsuc 0) h;
  le_of_not_lt = ordered;
  not_lt_of_le = consistent;
  eq_refl = equal_self;
  to_u64-of_int = λ n h. refl;
  lt_zero-of_int = λ n h. ground arith;
  lt_zero-of_negative = λ n h. ground arith;
}
