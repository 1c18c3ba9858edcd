-- ===== src/Interface/Write/Sending.antt =====
-- What `write` sends to a joint without a fault.
use odrive_ros2_control.Prelude.{
  Bool, true, false, ◌&&◌, ◌≡◌, refl, inl, inr, Option, none, some, arith, Bool-cases, has_value,
  ◌∙◌, if◌then◌else◌, ◌≢◌, String,
}
use mathlib.Core.Path.{subst}
use odrive_ros2_control.Prelude.Int.{ℤ, pos, eq_ℤ, eq_ℤ_iff}
use odrive_ros2_control.Fpu.{Fpu, zero_of}
use odrive_ros2_control.Fpu.Laws.{IsIeee}
use odrive_ros2_control.Transport.{Log, Transport}
use odrive_ros2_control.TransportError.{is_fail_fast_transport_error}
use odrive_ros2_control.AxisControl.{Outcome, write_axis_command}
use odrive_ros2_control.AxisControl.Script.{Script, Ran, command_script}
use odrive_ros2_control.AxisControl.Feeding.{write_axis_command-Ran}
use odrive_ros2_control.CommandValidation.Bounds.{FiniteLimits}
use odrive_ros2_control.Interface.{SafetyConfig, JointContext, CycleStats}
use odrive_ros2_control.Interface.Command.{
  command_state, has_fault, invert_commands, is_stale, prepare_command,
}
use odrive_ros2_control.Interface.Write.{send_command, write_joint, assign}
use odrive_ros2_control.Interface.Command.Prepared.{
  Identity, identity, IsSafe, prepare_command-identity, prepare_command-IsSafe,
}

has_value-if : {A : Type 0} (b : Bool) (a : A) → has_value (if b then some a else none) ≡ b
has_value-if true a = refl
has_value-if false a = refl

module _ {W F : Type 0} (u : Fpu W F) where
  -- The operations of a command of this joint, with the commands of another one.
  abbrev pub script_of : JointContext W F → JointContext W F → Script F
  script_of j sent =
      command_script u j.serial_number j.axis j.control_level (command_state u sent)
        j.enable_watchdog

  -- The joint's report of an outcome: what was sent is remembered if all of it was accepted.
  pub data Reports (sent j' : JointContext W F) (lost : Option (ℤ × String)) (o : Outcome)
      : Type 0 where
    reports_success :
        o.status ≡ pos 0
        → j'.write_error ≡ zero_of u
        → j'.last_command_position ≡ sent.command_position
        → j'.last_command_velocity ≡ sent.command_velocity
        → j'.last_command_effort ≡ sent.command_effort
        → lost ≡ none
        → Reports sent j' lost o
    reports_failure :
        o.status ≢ pos 0
        → j'.write_error ≡ u.of_int o.status
        → j'.last_command_position ≡ sent.last_command_position
        → j'.last_command_velocity ≡ sent.last_command_velocity
        → j'.last_command_effort ≡ sent.last_command_effort
        → j'.last_sent_command_sequence ≡ sent.last_sent_command_sequence
        → has_value lost ≡ is_fail_fast_transport_error o.status
        → Reports sent j' lost o

  module _ (c : SafetyConfig) (t : Transport F) where
    pub invert_commands-identity :
        (j : JointContext W F) → identity u (invert_commands u j) ≡ identity u j
    unfolding invert_commands
    invert_commands-identity j = elim (Bool-cases j.invert_axis) [ inl e ↦ rw e | inr e ↦ rw e ]

    abbrev pub outcome : JointContext W F → Log F → Outcome
    outcome sent log =
        (write_axis_command u t sent.serial_number sent.axis sent.control_level
          (command_state u sent) sent.enable_watchdog log).0

    send_command-Reports :
        (j : JointContext W F) (faulted idle : Option Bool) (stats : CycleStats W) (log : Log F)
        → let sent = invert_commands u j in
          let o = outcome sent log in
          let r = send_command u c t j faulted idle stats log in
          Ran t (script_of sent sent) log o r.log × Reports sent r.joint r.lost o
    unfolding send_command
    send_command-Reports j faulted idle stats log =
        let sent = invert_commands u j in
        let o = outcome sent log in
        let ran =
          write_axis_command-Ran u t sent.serial_number sent.axis sent.control_level
            (command_state u sent) sent.enable_watchdog log in
        elim (Bool-cases (eq_ℤ o.status (pos 0))) [
          | inl ok ↦ rw ok (ran, reports_success ((eq_ℤ_iff _ _).0 ok) refl refl refl refl refl)
          | inr failed ↦
              let bad : o.status ≢ pos 0 =
                λ good. absurd (ground (arith, good, eq_ℤ_iff o.status (pos 0))) in
              rw failed (
                ran,
                reports_failure bad refl refl refl refl refl
                    (has_value-if (is_fail_fast_transport_error o.status) _),
              )
        ]

    pub send_command-flags :
        (j : JointContext W F) (faulted idle : Option Bool) (stats : CycleStats W) (log : Log F)
        → let r = send_command u c t j faulted idle stats log in
          (r.faulted ≡ faulted) × (r.idle_requested ≡ idle)
    unfolding send_command
    send_command-flags j faulted idle stats log =
        elim (Bool-cases (eq_ℤ (outcome (invert_commands u j) log).status (pos 0))) [
          | inl e ↦ rw e (refl, refl)
          | inr e ↦ rw e (refl, refl)
        ]

    pub write_joint-send_command :
        (dt : W) (j : JointContext W F) (faulted idle : Option Bool) (stats : CycleStats W)
        (log : Log F)
        → has_fault u c j ≡ false
        → (c.gate_stale_commands_with_command_sequence
            && is_stale u (prepare_command u dt j stats).0)
          ≡ false
        → write_joint u c t dt j faulted idle stats log
          ≡ send_command u c t
              (prepare_command u dt j stats).0
              (assign false faulted)
              (assign false idle)
              (prepare_command u dt j stats).1
              log
    unfolding write_joint
    write_joint-send_command dt j faulted idle stats log sound fresh = rw (sound, fresh) refl

    -- A joint without a fault, whose command is not held back as stale, is sent the commands that its
    -- mode uses, in order and up to the first that fails. If its limits are finite, what is sent is,
    -- up to the inversion of the axis, within the limits of the mode, or holds the measured position
    -- and velocity with no effort. The joint then reports the outcome: after a success a cleared
    -- write error and what was sent as the last commands, after a failure its status as the write
    -- error and the last commands from before, and the cycle ends exactly if the status is fail-fast.
    pub write_joint_sends-IsSafe :
        (dt : W) (j : JointContext W F) (faulted idle : Option Bool) (stats : CycleStats W)
        (log : Log F)
        → IsIeee u
        → FiniteLimits u j.command_limits
        → has_fault u c j ≡ false
        → (c.gate_stale_commands_with_command_sequence
            && is_stale u (prepare_command u dt j stats).0)
          ≡ false
        → let ready = (prepare_command u dt j stats).0 in
          let sent = invert_commands u ready in
          let r = write_joint u c t dt j faulted idle stats log in
          IsSafe u j ready
          × (o : Outcome) × Ran t (script_of j sent) log o r.log
          × Reports sent r.joint r.lost o
          × (r.faulted ≡ assign false faulted)
          × (r.idle_requested ≡ assign false idle)
    unfolding write_joint
    write_joint_sends-IsSafe dt j faulted idle stats log laws fin sound fresh =
        let (ready, stats') = prepare_command u dt j stats in
        let sent = invert_commands u ready in
        let same : identity u sent ≡ identity u j =
          invert_commands-identity ready ∙ prepare_command-identity u dt j stats in
        let (ran, reports) =
          send_command-Reports ready (assign false faulted) (assign false idle) stats' log in
        let flags =
          send_command-flags ready (assign false faulted) (assign false idle) stats' log in
        rw (sound, fresh)
          (
            prepare_command-IsSafe u dt j stats laws fin,
            outcome sent log,
            subst
                (λ (i : Identity u).
                  Ran t
                    (command_script u i.serial_number i.axis i.control_level (command_state u sent)
                      i.enable_watchdog)
                    log (outcome sent log)
                    (send_command u c t ready (assign false faulted) (assign false idle) stats'
                      log).log)
                same ran,
            reports,
            flags.0,
            flags.1,
          )
