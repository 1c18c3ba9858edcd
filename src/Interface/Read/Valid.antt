-- ===== src/Interface/Read/Valid.antt =====
-- Where a joint's last valid position comes from in a cycle, for `read` and for the worker.
use odrive_ros2_control.Prelude.{
  Bool, true, false, ◌≡◌, refl, sym, ap, ◌∙◌, ◌⊎◌, inl, inr, Bool-cases, if◌then◌else◌,
}
use mathlib.Core.Path.{subst}
use odrive_ros2_control.Prelude.Int.{ℤ, pos}
use odrive_ros2_control.Fpu.{Fpu, zero_of, one_of, minus_one_of}
use odrive_ros2_control.Fpu.Laws.{IsIeee}
use odrive_ros2_control.Transport.{Log, Transport}
use odrive_ros2_control.Configuration.{FeedbackLimits}
use odrive_ros2_control.AxisTelemetry.{empty_sample, read_axis_telemetry}
use odrive_ros2_control.Interface.Reset.{finite_or_zero}
use odrive_ros2_control.Interface.Feedback.{feedback_valid, errors_clear}

module _ {W F : Type 0} (u : Fpu W F) where
  -- A position that is kept from before: the old one, or 0 if that is not finite.
  abbrev pub IsKept : W → W → Type 0
  IsKept old new =
      ((u.is_finite old ≡ true) × (new ≡ old)) ⊎ ((u.is_finite old ≡ false) × (new ≡ zero_of u))

  pub finite_or_zero-IsKept : (x : W) → IsKept x (finite_or_zero u x)
  finite_or_zero-IsKept x = elim (Bool-cases (u.is_finite x)) [
    | inl e ↦ inl (e, rw e refl)
    | inr e ↦ inr (e, rw e refl)
  ]

  finite_or_zero-finite : (x : W) → u.is_finite x ≡ true → finite_or_zero u x ≡ x
  finite_or_zero-finite x e = rw e refl

  finite_or_zero-same : (x y : W) → x ≡ y → u.is_finite y ≡ true → finite_or_zero u x ≡ y
  finite_or_zero-same x y e h = ap (finite_or_zero u) e ∙ finite_or_zero-finite y h

  -- Of an axis: its numbers, torque constant, direction and limits, and the last valid position from
  -- before.
  module _ (t : Transport F) (serial axis : ℤ) (k : F) (invert : Bool) (limits : FeedbackLimits W)
      (old : W) where
    -- A finite position that the axis gave in telemetry that succeeded and passed the checks, without
    -- an error, with the sign of the axis.
    abbrev pub Sampled : W → Type 0
    Sampled p =
        (log : Log F) × ((read_axis_telemetry u t serial axis k (empty_sample u) log).0.status
          ≡ pos 0)
        × (feedback_valid u limits old
              (read_axis_telemetry u t serial axis k (empty_sample u) log).1
            ≡ true)
        × (errors_clear u (read_axis_telemetry u t serial axis k (empty_sample u) log).1 ≡ true)
        × (p
            ≡ u.mul (read_axis_telemetry u t serial axis k (empty_sample u) log).1.position
                (if invert then minus_one_of u else one_of u))
        × (u.is_finite p ≡ true)

    -- The position after a cycle: a new one, or the one from before.
    abbrev pub Next : W → Type 0
    Next p = Sampled p ⊎ IsKept old p

    -- The same in the course of a cycle, where it may not be finite yet.
    abbrev pub Passed : W → Type 0
    Passed p = Next p ⊎ (p ≡ old)

    pub Passed-hold : IsIeee u → (p : W) → Passed p → Next (finite_or_zero u p)
    Passed-hold laws p (inr same) =
        inr (subst (λ x. IsKept old (finite_or_zero u x)) (sym same) (finite_or_zero-IsKept old))
    Passed-hold laws p (inl (inl (log, a, b, c, d, finite))) =
        let e = finite_or_zero-finite p finite in
        inl (log, a, b, c, e ∙ d, ap u.is_finite e ∙ finite)
    Passed-hold laws p (inl (inr (inl (finite, same)))) =
        inr (inl (finite, finite_or_zero-same p old same finite))
    Passed-hold laws p (inl (inr (inr (bad, zero)))) =
        inr (inr (bad, finite_or_zero-same p (zero_of u) zero (laws.of_int_finite (pos 0))))
