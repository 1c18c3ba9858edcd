-- ===== src/AxisTelemetry/Reading.antt =====
-- Telemetry as a script of reads, and the sample that a complete run leaves.
use odrive_ros2_control.Prelude.{
  ℕ, List, [], ◌∷◌, ◌++◌, ◌≡◌, refl, Bool-cases, inl, inr, sym, ◌∙◌, suc,
}
use mathlib.Core.Path.{subst}
use mathlib.Core.Bool.{false≢true}
use odrive_ros2_control.Prelude.Int.{ℤ, pos, eq_ℤ, eq_ℤ_iff}
use odrive_ros2_control.Fpu.{Fpu}
use odrive_ros2_control.Endpoints.{
  axis_endpoint, axis__motor__current_control__iq_measured, axis__encoder__vel_estimate,
  axis__encoder__pos_estimate, axis__error, axis__motor__error, axis__encoder__error,
  axis__controller__error, axis__fet_thermistor__temperature, axis__motor_thermistor__temperature,
}
use odrive_ros2_control.Transport.{Op, Log, Transport, read}
use odrive_ros2_control.AxisControl.{Outcome}
use odrive_ros2_control.AxisControl.Script.{Script, ops, run_script, Ran, run_script-Ran}
use odrive_ros2_control.AxisTelemetry.{
  AxisTelemetrySample, Block, float, int32, blocks, run_blocks, read_axis_telemetry,
}

module _ (F : Type 0) (serial axis : ℤ) where
  abbrev get_value : ℕ → Op F
  get_value endpoint = read serial (axis_endpoint endpoint axis)

  -- The nine reads, in order.
  abbrev pub telemetry_script : Script F
  telemetry_script =
      ("reading motor current", get_value axis__motor__current_control__iq_measured)
      ∷ ("reading velocity estimate", get_value axis__encoder__vel_estimate)
      ∷ ("reading position estimate", get_value axis__encoder__pos_estimate)
      ∷ ("reading axis error", get_value axis__error)
      ∷ ("reading motor error", get_value axis__motor__error)
      ∷ ("reading encoder error", get_value axis__encoder__error)
      ∷ ("reading controller error", get_value axis__controller__error)
      ∷ ("reading fet temperature", get_value axis__fet_thermistor__temperature)
      ∷ ("reading motor temperature", get_value axis__motor_thermistor__temperature)
      ∷ []

module _ {W F : Type 0} (u : Fpu W F) (t : Transport F) (serial axis : ℤ) where
  -- The operation of a block.
  abbrev script_of : List (Block W F) → Script F
  script_of [] = []
  script_of (float stage endpoint store ∷ rest) =
      (stage, read serial (axis_endpoint endpoint axis)) ∷ script_of rest
  script_of (int32 stage endpoint store ∷ rest) =
      (stage, read serial (axis_endpoint endpoint axis)) ∷ script_of rest

  run_blocks-eq-run_script :
      (bs : List (Block W F)) (x : AxisTelemetrySample W) (log : Log F)
      → let (o, _, log') = run_blocks u t serial axis bs x log in
        (o, log') ≡ run_script t (script_of bs) log
  unfolding run_script run_blocks
  run_blocks-eq-run_script [] x log = refl
  run_blocks-eq-run_script (float stage endpoint store ∷ rest) x log =
      let get : Op F = read serial (axis_endpoint endpoint axis) in
      elim (Bool-cases (eq_ℤ (t.status log get) (pos 0))) [
        | inl e ↦
            rw e (run_blocks-eq-run_script rest (store x (t.float_at log get)) (log ++ (get ∷ [])))
        | inr e ↦ rw e
      ]
  run_blocks-eq-run_script (int32 stage endpoint store ∷ rest) x log =
      let get : Op F = read serial (axis_endpoint endpoint axis) in
      elim (Bool-cases (eq_ℤ (t.status log get) (pos 0))) [
        | inl e ↦
            rw e (run_blocks-eq-run_script rest (store x (t.int32_at log get)) (log ++ (get ∷ [])))
        | inr e ↦ rw e
      ]

  -- Telemetry sends the nine reads of `telemetry_script` in order. It returns 0 with no failing
  -- stage if all succeed, and else stops at the first read that fails, with its status and stage.
  pub read_axis_telemetry-Ran :
      (k : F) (x : AxisTelemetrySample W) (log : Log F)
      → let (o, _, log') = read_axis_telemetry u t serial axis k x log in
        Ran t (telemetry_script F serial axis) log o log'
  unfolding read_axis_telemetry
  read_axis_telemetry-Ran k x log =
      let h = run_blocks-eq-run_script (blocks u k) x log in
      subst (λ (p : Outcome × Log F). Ran t (telemetry_script F serial axis) log p.0 p.1) (sym h)
        (run_script-Ran t (telemetry_script F serial axis) log)

  -- What the blocks store if every read succeeds.
  abbrev stored : List (Block W F) → AxisTelemetrySample W → Log F → AxisTelemetrySample W
  stored [] x log = x
  stored (float stage endpoint store ∷ rest) x log =
      let o : Op F = read serial (axis_endpoint endpoint axis) in
      stored rest (store x (t.float_at log o)) (log ++ (o ∷ []))
  stored (int32 stage endpoint store ∷ rest) x log =
      let o : Op F = read serial (axis_endpoint endpoint axis) in
      stored rest (store x (t.int32_at log o)) (log ++ (o ∷ []))

  run_blocks-eq-stored :
      (bs : List (Block W F)) (x : AxisTelemetrySample W) (log : Log F)
      → (run_blocks u t serial axis bs x log).0.status ≡ pos 0
      → (run_blocks u t serial axis bs x log).1 ≡ stored bs x log
  unfolding run_blocks
  run_blocks-eq-stored [] x log = λ h. refl
  run_blocks-eq-stored (float stage endpoint store ∷ rest) x log =
      let get : Op F = read serial (axis_endpoint endpoint axis) in
      elim (Bool-cases (eq_ℤ (t.status log get) (pos 0))) [
        | inl e ↦
            rw e (run_blocks-eq-stored rest (store x (t.float_at log get)) (log ++ (get ∷ [])))
        | inr e ↦ rw e (λ h. absurd (false≢true (sym e ∙ (eq_ℤ_iff _ _).1 h)))
      ]
  run_blocks-eq-stored (int32 stage endpoint store ∷ rest) x log =
      let get : Op F = read serial (axis_endpoint endpoint axis) in
      elim (Bool-cases (eq_ℤ (t.status log get) (pos 0))) [
        | inl e ↦
            rw e (run_blocks-eq-stored rest (store x (t.int32_at log get)) (log ++ (get ∷ [])))
        | inr e ↦ rw e (λ h. absurd (false≢true (sym e ∙ (eq_ℤ_iff _ _).1 h)))
      ]

  -- The history once the first reads of the script are made, in their order.
  abbrev after : ℕ → List (Op F) → Log F → Log F
  after (suc n) (o ∷ os) log = after n os (log ++ (o ∷ []))
  after _ _ log = log

  abbrev reads : ℕ → Log F → Log F
  reads n = after n (ops (telemetry_script F serial axis))

  abbrev float_of : ℕ → ℕ → Log F → F
  float_of n endpoint log = t.float_at (reads n log) (get_value F serial axis endpoint)

  abbrev int32_of : ℕ → ℕ → Log F → ℤ
  int32_of n endpoint log = t.int32_at (reads n log) (get_value F serial axis endpoint)

  -- What the axis measures: the current in units of torque, the velocity and the position in
  -- radians, the error registers as they are read, and the temperatures.
  abbrev pub measured : F → Log F → AxisTelemetrySample W
  measured k log = record {
    effort = u.to_double (u.mul_float (float_of 0 axis__motor__current_control__iq_measured log) k);
    velocity =
        u.to_double (u.mul_float (float_of 1 axis__encoder__vel_estimate log) u.turns_to_radians);
    position =
        u.to_double (u.mul_float (float_of 2 axis__encoder__pos_estimate log) u.turns_to_radians);
    axis_error = u.of_int (int32_of 3 axis__error log);
    motor_error = u.of_int (int32_of 4 axis__motor__error log);
    encoder_error = u.of_int (int32_of 5 axis__encoder__error log);
    controller_error = u.of_int (int32_of 6 axis__controller__error log);
    fet_temperature = u.to_double (float_of 7 axis__fet_thermistor__temperature log);
    motor_temperature = u.to_double (float_of 8 axis__motor_thermistor__temperature log);
  }

  -- If telemetry returns 0, then each field of the sample is the value of its own endpoint, as the
  -- transport answered it after the reads before, converted to the unit of the field; nothing of the
  -- sample from before is left.
  pub read_axis_telemetry-measured :
      (k : F) (x : AxisTelemetrySample W) (log : Log F)
      → (read_axis_telemetry u t serial axis k x log).0.status ≡ pos 0
      → (read_axis_telemetry u t serial axis k x log).1 ≡ measured k log
  unfolding read_axis_telemetry
  read_axis_telemetry-measured k x log h = run_blocks-eq-stored (blocks u k) x log h
