-- ===== src/AxisControl/Script.antt =====
-- A mode switch and a command as scripts: the operations in order, given up at the first failure.
use odrive_ros2_control.Prelude.{
  ℕ, Bool, true, false, String, List, [], ◌∷◌, ◌++◌, ◌≡◌, ◌≢◌, refl, ap, sym, inl, inr,
  if◌then◌else◌, append_assoc, append-nil, Bool-cases, ◌∙◌,
}
use mathlib.Core.Bool.{false≢true}
use mathlib.Core.Path.{subst}
use odrive_ros2_control.Prelude.Int.{ℤ, pos, eq_ℤ, eq_ℤ_iff}
use odrive_ros2_control.Fpu.{Fpu}
use odrive_ros2_control.Endpoints.{
  axis_endpoint, axis__requested_state, axis__controller__input_pos, axis__controller__input_vel,
  axis__controller__input_torque, axis__controller__config__control_mode, axis__watchdog_feed,
}
use odrive_ros2_control.Transport.{Op, Payload, Log, Transport, write, call, float, int32}
use odrive_ros2_control.AxisControl.{
  AxisControlLevel, AxisCommandState, Outcome, success, Action, finish, turns, saturate_to_float,
  switch_mode, write_axis_command, axis_state_idle, axis_state_closed_loop_control,
}

-- A stage's name and its operation.
abbrev pub Script : Type 0 → Type 0
Script F = List (String × Op F)

abbrev pub ops : {F : Type 0} → Script F → List (Op F)
ops [] = []
ops ((stage, o) ∷ s) = o ∷ ops s

module _ {F : Type 0} (t : Transport F) where
  unfoldable pub run_script : Script F → Action F
  run_script [] log = finish log
  run_script ((stage, o) ∷ s) log =
      let rest = run_script s (log ++ (o ∷ [])) in
      if eq_ℤ (t.status log o) (pos 0)
      then rest
      else (record { status = t.status log o; failing_stage = stage }, log ++ (o ∷ []))

  -- Every operation, in order, has the status 0.
  abbrev pub Accepted : Log F → List (Op F) → Type 0
  Accepted log [] = Unit
  Accepted log (o ∷ os) = (t.status log o ≡ pos 0) × Accepted (log ++ (o ∷ [])) os

  -- How a script can end: all of it accepted, or given up at the first operation that fails, with the
  -- status and the stage of that one.
  pub data Ran (s : Script F) (log : Log F) : Outcome → Log F → Type 0 where
    completed : Accepted log (ops s) → Ran s log success (log ++ ops s)
    stopped :
        (before : Script F) (stage : String) (o : Op F) (after : Script F)
        → s ≡ before ++ ((stage, o) ∷ after)
        → Accepted log (ops before)
        → t.status (log ++ ops before) o ≢ pos 0
        → Ran s log
            (record { status = t.status (log ++ ops before) o; failing_stage = stage })
            (log ++ (ops before ++ (o ∷ [])))

  pub Ran-cons :
      (st : String) (o : Op F) (s : Script F) (log : Log F) {r : Outcome} {log' : Log F}
      → t.status log o ≡ pos 0
      → Ran s (log ++ (o ∷ [])) r log'
      → Ran ((st, o) ∷ s) log r log'
  Ran-cons st o s log e (completed a) = rw (append_assoc log (o ∷ []) (ops s)) (completed (e, a))
  Ran-cons st o s log e (stopped before stage p after split a bad) =
      rw
        (append_assoc log (o ∷ []) (ops before), append_assoc log (o ∷ []) (ops before ++ (p ∷ [])))
        (stopped ((st, o) ∷ before) stage p after (ap (◌∷◌ (st, o)) split) (e, a)
          (rw (append_assoc log (o ∷ []) (ops before)) at bad))

  Ran-head :
      (o : Op F) (s : Script F) (log l : Log F) (stage : String)
      → l ≡ log
      → t.status l o ≢ pos 0
      → Ran
          ((stage, o) ∷ s)
          log
          (record { status = t.status l o; failing_stage = stage })
          (log ++ (o ∷ []))
  Ran-head o s log l stage same bad =
      let e : log ++ [] ≡ l = append-nil log ∙ sym same in
      let first : Ran ((stage, o) ∷ s) log
          (record { status = t.status (log ++ []) o; failing_stage = stage }) (log ++ (o ∷ [])) =
        stopped [] stage o s refl tt λ z. bad (rw e at z) in
      subst
        (λ k.
          Ran ((stage, o) ∷ s) log (record { status = t.status k o; failing_stage = stage })
            (log ++ (o ∷ [])))
        e first

  pub run_script-Ran :
      (s : Script F) (log : Log F) → let (r, log') = run_script s log in Ran s log r log'
  unfolding run_script
  run_script-Ran [] log =
      let all : Ran [] log success (log ++ []) = completed tt in
      subst (Ran [] log success) (append-nil log) all
  run_script-Ran ((stage, o) ∷ s) log = elim (Bool-cases (eq_ℤ (t.status log o) (pos 0))) [
    | inl e ↦
        rw e (Ran-cons stage o s log ((eq_ℤ_iff _ _).0 e) (run_script-Ran s (log ++ (o ∷ []))))
    | inr e ↦ rw e (Ran-head o s log log stage refl λ z. false≢true (sym e ∙ (eq_ℤ_iff _ _).1 z))
  ]

module _ {W F : Type 0} (u : Fpu W F) (serial axis : ℤ) where
  abbrev set_value : ℕ → Payload F → Op F
  set_value endpoint value = write serial (axis_endpoint endpoint axis) value

  -- The control mode, the setpoints, and only then the closed loop.
  abbrev pub switch_script : AxisControlLevel → AxisCommandState W → Script F
  switch_script AxisControlLevel.undefined c =
      ("requesting idle state", set_value axis__requested_state (int32 axis_state_idle)) ∷ []
  switch_script AxisControlLevel.effort c =
      (
        "setting controller to torque mode",
        set_value axis__controller__config__control_mode (int32 (pos 1)),
      )
      ∷ (
        "priming torque setpoint",
        set_value axis__controller__input_torque (float (saturate_to_float u c.command_effort)),
      )
      ∷ (
        "entering closed loop (torque)",
        set_value axis__requested_state (int32 axis_state_closed_loop_control),
      )
      ∷ []
  switch_script AxisControlLevel.velocity c =
      (
        "setting controller to velocity mode",
        set_value axis__controller__config__control_mode (int32 (pos 2)),
      )
      ∷ (
        "priming velocity setpoint",
        set_value axis__controller__input_vel (float (turns u c.command_velocity)),
      )
      ∷ (
        "priming torque feed-forward",
        set_value axis__controller__input_torque (float (saturate_to_float u c.command_effort)),
      )
      ∷ (
        "entering closed loop (velocity)",
        set_value axis__requested_state (int32 axis_state_closed_loop_control),
      )
      ∷ []
  switch_script AxisControlLevel.position c =
      (
        "setting controller to position mode",
        set_value axis__controller__config__control_mode (int32 (pos 3)),
      )
      ∷ (
        "priming position setpoint",
        set_value axis__controller__input_pos (float (turns u c.command_position)),
      )
      ∷ (
        "priming velocity limit",
        set_value axis__controller__input_vel (float (turns u c.command_velocity)),
      )
      ∷ (
        "priming torque limit",
        set_value axis__controller__input_torque (float (saturate_to_float u c.command_effort)),
      )
      ∷ (
        "entering closed loop (position)",
        set_value axis__requested_state (int32 axis_state_closed_loop_control),
      )
      ∷ []

  abbrev feed_script : Bool → Script F
  feed_script true = ("feeding watchdog", call serial (axis_endpoint axis__watchdog_feed axis)) ∷ []
  feed_script false = []

  abbrev velocity_script : AxisCommandState W → Script F → Script F
  velocity_script c s =
      (
        "writing velocity command",
        set_value axis__controller__input_vel (float (turns u c.command_velocity)),
      )
      ∷ (
        "writing torque command",
        set_value axis__controller__input_torque (float (saturate_to_float u c.command_effort)),
      )
      ∷ s

  -- The setpoints of the mode, and last the feed of the watchdog if that is enabled.
  abbrev pub command_script : AxisControlLevel → AxisCommandState W → Bool → Script F
  command_script AxisControlLevel.position c w =
      (
        "writing position command",
        set_value axis__controller__input_pos (float (turns u c.command_position)),
      )
      ∷ velocity_script c (feed_script w)
  command_script AxisControlLevel.velocity c w = velocity_script c (feed_script w)
  command_script AxisControlLevel.effort c w =
      (
        "writing torque command",
        set_value axis__controller__input_torque (float (saturate_to_float u c.command_effort)),
      )
      ∷ feed_script w
  command_script AxisControlLevel.undefined c w = []

module _ {W F : Type 0} (u : Fpu W F) (t : Transport F) (serial axis : ℤ) where
  pub switch_mode-eq-run_script :
      (level : AxisControlLevel) (c : AxisCommandState W) (log : Log F)
      → switch_mode u t serial axis level c log
        ≡ run_script t (switch_script u serial axis level c) log
  unfolding switch_mode run_script
  switch_mode-eq-run_script AxisControlLevel.undefined c log = refl
  switch_mode-eq-run_script _ c log = refl

  pub write_axis_command-eq-run_script :
      (level : AxisControlLevel) (c : AxisCommandState W) (w : Bool) (log : Log F)
      → write_axis_command u t serial axis level c w log
        ≡ run_script t (command_script u serial axis level c w) log
  unfolding write_axis_command run_script
  write_axis_command-eq-run_script AxisControlLevel.undefined c w log = refl
  write_axis_command-eq-run_script _ c true log = refl
  write_axis_command-eq-run_script _ c false log = refl
