-- ===== src/Async/Writing/Branches.antt =====
-- The preparation and the two branches of a round, side by side with those of the synchronous path.
use odrive_ros2_control.Prelude.{
  not, ◌&&◌, ◌≡◌, refl, ap, ◌∙◌, inl, inr, some, Bool-cases, has_value,
}
use odrive_ros2_control.Prelude.Int.{pos, eq_ℤ}
use odrive_ros2_control.Fpu.{Fpu}
use odrive_ros2_control.Endpoints.{axis_endpoint, axis__requested_state}
use odrive_ros2_control.Transport.{Log, Transport, write, int32, perform}
use odrive_ros2_control.AxisControl.{is_undefined, axis_state_idle}
use odrive_ros2_control.CommandValidation.{validate_joint_command}
use odrive_ros2_control.TransportError.{is_fail_fast_transport_error}
use odrive_ros2_control.Interface.{SafetyConfig, JointContext, CycleStats}
use odrive_ros2_control.Async.Writing.{mask_slot}
use odrive_ros2_control.Async.Drafting.{Draft, draft_command, check_draft}
use odrive_ros2_control.Interface.Write.{mask_joint}
use odrive_ros2_control.Interface.Command.{limit_rates, validate_or_hold, prepare_command}
use odrive_ros2_control.Async.{JointCommand, Slot}
use odrive_ros2_control.Async.Writing.Effect.{
  joint_with, joint_of, IsCleared, sync_effect, slot_effect,
}

module _ {W F : Type 0} (u : Fpu W F) where
  -- The draft's joint and statistics, as the synchronous path has them.
  abbrev pub of_draft : JointCommand W → Draft W F → JointContext W F × CycleStats W
  of_draft k d = (
    joint_with u d.command.command_position d.command.command_velocity d.command.command_effort k
        d.slot,
    d.stats,
  )

  limits_agree :
      (dt : W) (k : JointCommand W) (x : Slot W F) (stats : CycleStats W)
      → IsCleared u x
      → limit_rates u dt (joint_of u k x) stats ≡ of_draft k (draft_command u dt k x stats)
  unfolding limit_rates draft_command
  limits_agree dt k x stats clear =
      rw (clear.position_clear, clear.velocity_clear, clear.effort_clear) refl

  checks_agree :
      (dt : W) (k : JointCommand W) (x : Slot W F) (stats : CycleStats W)
      → let d = draft_command u dt k x stats in
        validate_or_hold u (of_draft k d).0 (of_draft k d).1
        ≡ of_draft k (check_draft u k.control_level d)
  unfolding draft_command check_draft validate_or_hold
  checks_agree dt k x stats =
      let d = draft_command u dt k x stats in
      elim (Bool-cases (
        has_value (validate_joint_command u x.static.command_limits k.control_level d.command)
        && not (is_undefined k.control_level))) [ inl e ↦ rw e refl | inr e ↦ rw e refl ]

  -- What a prepared draft keeps of its joint, and where its measured state comes from.
  pub record IsDraft (x : Slot W F) (d : Draft W F) : Type 0 where
    pub static_kept : d.slot.static ≡ x.static
    pub memory_kept : d.slot.memory ≡ x.memory
    pub state_position_is : d.command.state_position ≡ d.slot.telemetry.position
    pub state_velocity_is : d.command.state_velocity ≡ d.slot.telemetry.velocity
    pub state_effort_is : d.command.state_effort ≡ d.slot.telemetry.effort

  pub check_draft-IsDraft :
      (dt : W) (k : JointCommand W) (x : Slot W F) (stats : CycleStats W)
      → IsDraft x (check_draft u k.control_level (draft_command u dt k x stats))
  unfolding draft_command check_draft
  check_draft-IsDraft dt k x stats =
      let d = draft_command u dt k x stats in
      elim (Bool-cases (
        has_value (validate_joint_command u x.static.command_limits k.control_level d.command)
        && not (is_undefined k.control_level))) [
          | inl e ↦ rw e (record {
            static_kept = refl;
            memory_kept = refl;
            state_position_is = refl;
            state_velocity_is = refl;
            state_effort_is = refl;
          })
          | inr e ↦ rw e (record {
            static_kept = refl;
            memory_kept = refl;
            state_position_is = refl;
            state_velocity_is = refl;
            state_effort_is = refl;
          })
        ]

  prepare_command-validate_or_hold :
      (dt : W) (j : JointContext W F) (stats : CycleStats W)
      → prepare_command u dt j stats
        ≡ validate_or_hold u (limit_rates u dt j stats).0 (limit_rates u dt j stats).1
  unfolding prepare_command
  prepare_command-validate_or_hold dt j stats = refl

  -- The synchronous path sees the prepared command of the worker.
  pub prepare_agrees :
      (dt : W) (k : JointCommand W) (x : Slot W F) (stats : CycleStats W)
      → IsCleared u x
      → prepare_command u dt (joint_of u k x) stats
        ≡ of_draft k (check_draft u k.control_level (draft_command u dt k x stats))
  prepare_agrees dt k x stats clear =
      prepare_command-validate_or_hold dt (joint_of u k x) stats
      ∙ ap (λ q. validate_or_hold u q.0 q.1) (limits_agree dt k x stats clear)
      ∙ checks_agree dt k x stats

  module _ (c : SafetyConfig) (t : Transport F) where
    pub mask_agrees :
        (p v e : W) (k : JointCommand W) (x : Slot W F) (stats : CycleStats W) (log : Log F)
        → slot_effect u (mask_slot u c t x stats log)
          ≡ sync_effect u (
              mask_joint u c t
                (joint_with u p v e k x)
                (some x.memory.axis_faulted)
                (some x.memory.idle_requested_on_fault)
                stats
                log)
    unfolding mask_slot mask_joint
    mask_agrees p v e k x stats log =
        let request =
          write x.static.serial_number (axis_endpoint axis__requested_state x.static.axis)
            (int32 axis_state_idle) in
        elim (Bool-cases (c.request_idle_on_axis_fault && not x.memory.idle_requested_on_fault)) [
          | inr none_due ↦ rw none_due refl
          | inl due ↦ elim (Bool-cases (eq_ℤ (perform t request log).0 (pos 0))) [
            | inl good ↦ rw (due, good) refl
            | inr bad ↦ elim (Bool-cases (is_fail_fast_transport_error (perform t request log).0)) [
              | inl lost ↦ rw (due, bad, lost) refl
              | inr kept ↦ rw (due, bad, kept) refl
            ]
          ]
        ]
