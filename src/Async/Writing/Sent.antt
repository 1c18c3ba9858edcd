-- ===== src/Async/Writing/Sent.antt =====
-- The branch that sends a command, side by side with that of the synchronous path.
use odrive_ros2_control.Prelude.{
  Option, if◌then◌else◌, Bool, none, sym, ◌≡◌, refl, ap, ◌∙◌, inl, inr, some, Bool-cases,
}
use Prim.Native.String.{◌++◌ as ◌^^◌}
use odrive_ros2_control.Prelude.Int.{pos, eq_ℤ}
use odrive_ros2_control.Fpu.{Fpu, zero_of}
use odrive_ros2_control.Transport.{Log, Transport}
use odrive_ros2_control.AxisControl.{AxisCommandState, write_axis_command, Outcome}
use odrive_ros2_control.TransportError.{is_fail_fast_transport_error}
use odrive_ros2_control.Interface.{SafetyConfig, JointContext, CycleStats}
use odrive_ros2_control.Async.Writing.{SlotRound, send_slot}
use odrive_ros2_control.Async.Drafting.{with_write_error, invert_command}
use odrive_ros2_control.Interface.Write.{Round, send_command}
use odrive_ros2_control.Interface.Command.{command_state, invert_commands}
use odrive_ros2_control.Async.{JointCommand, Slot}
use odrive_ros2_control.Async.Writing.Effect.{joint_with, sync_effect, slot_effect}

module _ {W F : Type 0} (u : Fpu W F) where
  module _ (c : SafetyConfig) (t : Transport F) where
    -- The command with the measured state of the joint.
    abbrev pub measured : W → W → W → Slot W F → AxisCommandState W
    measured p v e x = record {
      command_position = p;
      command_velocity = v;
      command_effort = e;
      state_position = x.telemetry.position;
      state_velocity = x.telemetry.velocity;
      state_effort = x.telemetry.effort;
    }

    -- The two branches after the transport has answered.
    abbrev slot_sent :
        Outcome
        → Log F
        → JointCommand W
        → AxisCommandState W
        → Slot W F
        → CycleStats W
        → SlotRound W F
    slot_sent o log' k sent x stats =
        if eq_ℤ o.status (pos 0)
        then record {
          slot = record x {
            telemetry = record (x.telemetry) { write_error = zero_of u };
            memory = record (x.memory) {
              last_command_position = sent.command_position;
              last_command_velocity = sent.command_velocity;
              last_command_effort = sent.command_effort;
              last_sent_command_sequence =
                  if c.gate_stale_commands_with_command_sequence
                  then k.command_sequence
                  else x.memory.last_sent_command_sequence;
            };
          };
          stats = stats;
          lost = none;
          log = log';
        }
        else record {
          slot = with_write_error (u.of_int o.status) x;
          stats = stats;
          lost =
              if is_fail_fast_transport_error o.status
              then some (o.status, "writing axis command")
              else none;
          log = log';
        }

    abbrev joint_sent :
        Outcome → Log F → JointContext W F → Option Bool → Option Bool → CycleStats W → Round W F
    joint_sent o log' j faulted idle stats =
        let round : Round W F = record {
          joint = j;
          faulted = faulted;
          idle_requested = idle;
          stats = stats;
          lost = none;
          log = log';
        } in
        if eq_ℤ o.status (pos 0)
        then record round {
          joint = record j {
            write_error = zero_of u;
            last_sent_command_sequence =
                if c.gate_stale_commands_with_command_sequence
                then j.command_sequence
                else j.last_sent_command_sequence;
            last_command_position = j.command_position;
            last_command_velocity = j.command_velocity;
            last_command_effort = j.command_effort;
          };
        }
        else record round {
          joint = record j { write_error = u.of_int o.status };
          lost =
              if is_fail_fast_transport_error o.status
              then some (o.status, "writing axis command (" ^^ (o.failing_stage ^^ ")"))
              else none;
        }

    sent_agrees :
        (o : Outcome) (p v e : W) (k : JointCommand W) (x : Slot W F) (stats : CycleStats W)
        (log' : Log F)
        → slot_effect u (slot_sent o log' k (measured p v e x) x stats)
          ≡ sync_effect u (
              joint_sent o log'
                (joint_with u p v e k x)
                (some x.memory.axis_faulted)
                (some x.memory.idle_requested_on_fault)
                stats)
    sent_agrees o p v e k x stats log' = elim (Bool-cases (eq_ℤ o.status (pos 0))) [
      | inl good ↦ rw good refl
      | inr bad ↦ elim (Bool-cases (is_fail_fast_transport_error o.status)) [
        | inl lost ↦ rw (bad, lost) refl
        | inr kept ↦ rw (bad, kept) refl
      ]
    ]

    -- The answer to a command of this joint.
    abbrev answer : JointCommand W → AxisCommandState W → Slot W F → Log F → Outcome × Log F
    answer k sent x log =
        write_axis_command u t x.static.serial_number x.static.axis k.control_level sent
          x.static.enable_watchdog log

    send_slot-slot_sent :
        (command : AxisCommandState W) (k : JointCommand W) (x : Slot W F) (stats : CycleStats W)
        (log : Log F)
        → let sent = invert_command u x.static.invert_axis command in
          send_slot u c t k.control_level k.command_sequence command x stats log
          ≡ slot_sent (answer k sent x log).0 (answer k sent x log).1 k sent x stats
    unfolding send_slot
    send_slot-slot_sent command k x stats log = refl

    send_command-joint_sent :
        (j : JointContext W F) (faulted idle : Option Bool) (stats : CycleStats W) (log : Log F)
        → let j' = invert_commands u j in
          let (o, log') =
            write_axis_command u t j'.serial_number j'.axis j'.control_level
              (command_state u j')
              j'.enable_watchdog
              log in
          send_command u c t j faulted idle stats log ≡ joint_sent o log' j' faulted idle stats
    unfolding send_command
    send_command-joint_sent j faulted idle stats log = refl

    -- The inversion of the command, and of the joint's commands.
    inverted_measured :
        (p v e : W) (x : Slot W F)
        → let sent = invert_command u x.static.invert_axis (measured p v e x) in
          sent ≡ measured sent.command_position sent.command_velocity sent.command_effort x
    unfolding invert_command
    inverted_measured p v e x = elim (Bool-cases x.static.invert_axis) [
      | inl inv ↦ rw inv refl
      | inr inv ↦ rw inv refl
    ]

    inversions_agree :
        (p v e : W) (k : JointCommand W) (x : Slot W F)
        → let sent = invert_command u x.static.invert_axis (measured p v e x) in
          invert_commands u (joint_with u p v e k x)
          ≡ joint_with u sent.command_position sent.command_velocity sent.command_effort k x
    unfolding invert_command invert_commands
    inversions_agree p v e k x = elim (Bool-cases x.static.invert_axis) [
      | inl inv ↦ rw inv refl
      | inr inv ↦ rw inv refl
    ]

    pub send_agrees :
        (p v e : W) (k : JointCommand W) (x : Slot W F) (stats : CycleStats W) (log : Log F)
        → slot_effect u
            (send_slot u c t k.control_level k.command_sequence (measured p v e x) x stats log)
          ≡ sync_effect u (
              send_command u c t
                (joint_with u p v e k x)
                (some x.memory.axis_faulted)
                (some x.memory.idle_requested_on_fault)
                stats
                log)
    send_agrees p v e k x stats log =
        let sent = invert_command u x.static.invert_axis (measured p v e x) in
        let p' = sent.command_position in
        let v' = sent.command_velocity in
        let e' = sent.command_effort in
        let f = some x.memory.axis_faulted in
        let i = some x.memory.idle_requested_on_fault in
        let (o, log') = answer k (measured p' v' e' x) x log in
        ap (slot_effect u) (send_slot-slot_sent (measured p v e x) k x stats log)
        ∙ ap
            (λ (s : AxisCommandState W).
              slot_effect u (slot_sent (answer k s x log).0 (answer k s x log).1 k s x stats))
            (inverted_measured p v e x)
        ∙ sent_agrees o p' v' e' k x stats log'
        ∙ ap
            (λ (j : JointContext W F).
              let r =
                write_axis_command u t j.serial_number j.axis j.control_level (command_state u j)
                  j.enable_watchdog log in
              sync_effect u (joint_sent r.0 r.1 j f i stats))
            (sym (inversions_agree p v e k x))
        ∙ ap (sync_effect u) (sym (send_command-joint_sent (joint_with u p v e k x) f i stats log))
