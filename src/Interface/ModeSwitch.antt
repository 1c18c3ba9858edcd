-- ===== src/Interface/ModeSwitch.antt =====
-- `perform_command_mode_switch` with no worker thread to restart. `none` is the return type OK, and
-- `some` the status and the action of the ERROR.
pub mod Claims
use Prim.Native.String.{◌++◌ as ◌^^◌}
use odrive_ros2_control.Prelude.{
  ℕ, Bool, true, false, not, ◌&&◌, String, Option, none, some, List, [], ◌∷◌, ◌==◌, length,
  replicate, head?, tail, cons?, if◌then◌else◌,
}
use odrive_ros2_control.Prelude.Int.{ℤ, pos, eq_ℤ, to_uint32}
use odrive_ros2_control.Fpu.{Fpu, zero_of}
use odrive_ros2_control.Endpoints.{
  axis_endpoint, axis__error, axis__requested_state, axis__config__enable_watchdog,
  axis__watchdog_feed, axis__clear_errors,
}
use odrive_ros2_control.Transport.{Log, Transport, write, call, int32, boolean, perform, read_int32}
use odrive_ros2_control.AxisControl.{
  Outcome, is_undefined, axis_state_idle, perform_axis_mode_switch, AxisControlLevel,
}
use odrive_ros2_control.Interface.{SafetyConfig, JointContext, Interface}
use odrive_ros2_control.Interface.Command.{command_state, has_fault}
use odrive_ros2_control.Interface.Write.{assign}

-- The failure of a transport operation, and what was being done.
abbrev pub Failure : Type 0
Failure = Option (ℤ × String)

-- A step on a joint: it ends the switch with an error, or goes on.
abbrev pub JointStep : Type 0 → Type 0 → Type 0
JointStep W F = JointContext W F → Log F → Failure × JointContext W F × Log F

infixl 5 ◌>>◌
abbrev pub ◌>>◌ : {W F : Type 0} → JointStep W F → JointStep W F → JointStep W F
◌>>◌ m k j log =
    let (failure, j', log') = m j log in
    elim failure [ none ↦ k j' log' | some e ↦ (some e, j', log') ]

-- `kAxisErrorWatchdogTimerExpired`
abbrev pub axis_error_watchdog_timer_expired : ℕ
axis_error_watchdog_timer_expired = 0x00000800

-- `joint_claimed_[i]`, and `false` past its end
abbrev pub was_set : Option Bool → Bool
was_set none = false
was_set (some b) = b

module _ {W F : Type 0} (u : Fpu W F) where
  open u use {of_int, of_uint}

  -- `write_error` and the error return, if the status is not 0.
  abbrev check : ℤ → String → JointContext W F → Log F → Failure × JointContext W F × Log F
  check status action j log =
      if eq_ℤ status (pos 0)
      then (none, j, log)
      else (some (status, action), record j { write_error = of_int status }, log)

  module _ (t : Transport F) where
    -- The watchdog is enabled and fed once, if it is configured.
    unfoldable pub arm_watchdog : JointStep W F
    unfolding perform
    arm_watchdog j log =
        let (status, log') =
          perform t
            (write j.serial_number (axis_endpoint axis__config__enable_watchdog j.axis)
              (boolean true))
            log in
        let (status2, log'') =
          perform t (call j.serial_number (axis_endpoint axis__watchdog_feed j.axis)) log' in
        if not j.enable_watchdog
        then (none, j, log)
        else if eq_ℤ status (pos 0)
        then check status2 "feeding watchdog on interface claim" j log''
        else check status "enabling watchdog on interface claim" j log'

    -- The axis error is read, and cleared if it is the watchdog's expiry and nothing else.
    unfoldable pub clear_watchdog_expiry : JointStep W F
    unfolding perform read_int32
    clear_watchdog_expiry j log =
        let (status, raw, log') =
          read_int32 t j.serial_number (axis_endpoint axis__error j.axis) log in
        let axis_error = to_uint32 raw in
        let known : JointContext W F = record j { axis_error = of_uint axis_error } in
        let (status2, log'') =
          perform t (call j.serial_number (axis_endpoint axis__clear_errors j.axis)) log' in
        let cleared : JointContext W F = record j { axis_error = zero_of u } in
        if eq_ℤ status (pos 0)
        then if axis_error == axis_error_watchdog_timer_expired
          then if eq_ℤ status2 (pos 0)
            then (none, cleared, log'')
            else check status2 "clearing pure watchdog expiry on interface claim" known log''
          else (none, known, log')
        else check status "reading axis error on interface claim" j log'

    unfoldable pub claim : JointStep W F
    unfolding arm_watchdog clear_watchdog_expiry
    claim = arm_watchdog >> clear_watchdog_expiry

    -- Idle is requested and the watchdog disabled; failures are only logged.
    unfoldable pub unclaim : JointContext W F → Log F → Log F
    unfolding perform
    unclaim j log =
        (perform t
          (write j.serial_number (axis_endpoint axis__config__enable_watchdog j.axis)
            (boolean false))
          (perform t
            (write j.serial_number (axis_endpoint axis__requested_state j.axis)
              (int32 axis_state_idle))
            log).1).1

    -- The claim and unclaim transitions at the head of the loop.
    unfoldable pub claim_transition : Bool → JointStep W F
    unfolding claim unclaim
    claim_transition was_claimed j log =
        if not (is_undefined j.control_level) && not was_claimed
        then claim j log
        else if is_undefined j.control_level && was_claimed
        then (none, j, unclaim j log)
        else (none, j, log)

    -- The mode switch of one joint, which primes its commands.
    unfoldable pub switch_joint : JointStep W F
    switch_joint j log =
        let (o, c, log') =
          perform_axis_mode_switch u t j.serial_number j.axis j.control_level (command_state u j)
            log in
        let primed : JointContext W F = record j {
          command_position = c.command_position;
          command_velocity = c.command_velocity;
          command_effort = c.command_effort;
        } in
        if eq_ℤ o.status (pos 0) then (none, record primed { write_error = zero_of u }, log') else (
          some (o.status, "performing axis mode switch (" ^^ (o.failing_stage ^^ ")")),
          record primed { write_error = of_int o.status },
          log',
        )

    -- One round of the loop: the joint, its claim flag where the vector has it.
    unfoldable pub switch_round :
        SafetyConfig
        → JointContext W F
        → Option Bool
        → Log F
        → Failure × JointContext W F × Option Bool × Log F
    unfolding claim_transition switch_joint has_fault
    switch_round c j claimed log =
        let (failure, j1, log1) = claim_transition (was_set claimed) j log in
        let (failure2, j2, log2) = switch_joint j1 log1 in
        elim failure [
          | some e ↦ (some e, j1, claimed, log1)
          | none ↦
              if has_fault u c j1
              then (
                none,
                record j1 { control_level = AxisControlLevel.undefined },
                assign false claimed,
                log1,
              )
              else elim failure2 [
                | some e ↦ (some e, j2, claimed, log2)
                | none ↦ (none, j2, assign (not (is_undefined j2.control_level)) claimed, log2)
              ]
        ]

    unfoldable pub switch_joints :
        SafetyConfig
        → List (JointContext W F)
        → List Bool
        → Log F
        → Failure × List (JointContext W F) × List Bool × Log F
    switch_joints c [] claimed log = (none, [], claimed, log)
    switch_joints c (j ∷ joints) claimed log =
        let (failure, j', flag, log') = switch_round c j (head? claimed) log in
        let (failure', rest, flags, log'') = switch_joints c joints (tail claimed) log' in
        elim failure [
          | none ↦ (failure', j' ∷ rest, cons? flag flags, log'')
          | some e ↦ (some e, j' ∷ joints, cons? flag (tail claimed), log')
        ]

    unfoldable pub perform_command_mode_switch :
        Interface W F → Log F → Failure × Interface W F × Log F
    unfolding switch_joints
    perform_command_mode_switch s log =
        let claimed =
          if length s.joint_claimed == length s.joints
          then s.joint_claimed
          else replicate (length s.joints) false in
        let (failure, joints, flags, log') = switch_joints s.safety_config s.joints claimed log in
        if s.connected
        then (failure, record s { joints = joints; joint_claimed = flags }, log')
        else (none, s, log)
