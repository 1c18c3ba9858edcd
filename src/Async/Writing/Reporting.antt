-- ===== src/Async/Writing/Reporting.antt =====
-- What a whole cycle of the worker publishes: the write phase leaves the telemetry as it was read.
use odrive_ros2_control.Prelude.{
  Bool, true, false, not, ◌&&◌, ◌||◌, ◌≡◌, refl, sym, ap, ◌∙◌, inl, inr, List, [], ◌∷◌, head?, tail,
  Each, Bool-cases, Option-cases, if◌then◌else◌, has_value,
}
use mathlib.Core.Path.{subst}
use odrive_ros2_control.Prelude.Int.{pos, eq_ℤ}
use odrive_ros2_control.Fpu.{Fpu}
use odrive_ros2_control.Fpu.Laws.{IsIeee}
use odrive_ros2_control.Endpoints.{axis_endpoint, axis__requested_state}
use odrive_ros2_control.Transport.{Log, Transport, write, int32, perform}
use odrive_ros2_control.AxisControl.{
  AxisControlLevel, AxisCommandState, is_undefined, axis_state_idle, write_axis_command,
}
use odrive_ros2_control.CommandValidation.{validate_joint_command}
use odrive_ros2_control.Interface.{SafetyConfig, CycleStats, Interface}
use odrive_ros2_control.Interface.Command.{limiting_period}
use odrive_ros2_control.Interface.Write.{lifecycle_ok}
use odrive_ros2_control.Async.{JointCommand, AsyncCommandSnapshot, Slot, Work, CycleInstants}
use odrive_ros2_control.Async.Reading.{abandon_cycle, read_phase}
use odrive_ros2_control.Async.Reading.Reporting.{
  view, IsTold, IsReportedSlot, IsPassedSlot, IsReportedSlot-IsPassedSlot, marked-IsReportedSlot,
  read_phase-IsReportedSlot,
}
use odrive_ros2_control.Async.Writing.{
  SlotRound, mask_slot, send_slot, write_slot, write_slots, count_async_write, write_phase,
}
use odrive_ros2_control.Async.Drafting.{
  Draft, draft_command, invert_command, check_draft, command_at, with_faulted, with_idle_requested,
  async_has_fault,
}
use odrive_ros2_control.Async.Writing.Agreement.{slot_branch, write_slot-slot_branch}

module _ {W F : Type 0} (u : Fpu W F) where
  -- A round that leaves what is known of the joint.
  record Keeps (x : Slot W F) (r : SlotRound W F) : Type 0 where
    kept : view u r.slot ≡ view u x

  keeps : (x : Slot W F) (r : SlotRound W F) → view u r.slot ≡ view u x → Keeps x r
  keeps x r e = record { kept = e }

  either :
      (x : Slot W F) (b : Bool) (r s : SlotRound W F)
      → Keeps x r
      → Keeps x s
      → Keeps x (if b then r else s)
  either x true r s hr hs = hr
  either x false r s hr hs = hs

  check_draft-Keeps :
      (dt : W) (k : JointCommand W) (x : Slot W F) (stats : CycleStats W)
      → view u (check_draft u k.control_level (draft_command u dt k x stats)).slot ≡ view u x
  unfolding draft_command check_draft
  check_draft-Keeps dt k x stats =
      elim (Bool-cases (
        has_value (
          validate_joint_command u x.static.command_limits k.control_level
            (draft_command u dt k x stats).command)
        && not (is_undefined k.control_level))) [ inl e ↦ rw e refl | inr e ↦ rw e refl ]

  module _ (c : SafetyConfig) (t : Transport F) where
    mask_slot-Keeps :
        (x : Slot W F) (stats : CycleStats W) (log : Log F) → Keeps x (mask_slot u c t x stats log)
    unfolding mask_slot
    mask_slot-Keeps x stats log =
        let request =
          write x.static.serial_number (axis_endpoint axis__requested_state x.static.axis)
            (int32 axis_state_idle) in
        either x (c.request_idle_on_axis_fault && not x.memory.idle_requested_on_fault) _ _
          (either x (eq_ℤ (perform t request log).0 (pos 0)) _ _ (keeps x _ refl) (keeps x _ refl))
          (keeps x _ refl)

    send_slot-Keeps :
        (level : AxisControlLevel) (sequence : W) (command : AxisCommandState W) (x : Slot W F)
        (stats : CycleStats W) (log : Log F)
        → Keeps x (send_slot u c t level sequence command x stats log)
    unfolding send_slot
    send_slot-Keeps level sequence command x stats log =
        let (o, log') =
          write_axis_command u t x.static.serial_number x.static.axis level
            (invert_command u x.static.invert_axis command) x.static.enable_watchdog log in
        either x (eq_ℤ o.status (pos 0)) _ _ (keeps x _ refl) (keeps x _ refl)

    slot_branch-Keeps :
        (fault : Bool) (k : JointCommand W) (last : W) (d : Draft W F) (log : Log F)
        → Keeps d.slot (slot_branch u c t fault k last d log)
    slot_branch-Keeps fault k last d log =
        either d.slot fault _ _ (mask_slot-Keeps d.slot d.stats log) (
          either d.slot
            (c.gate_stale_commands_with_command_sequence
              && (not (u.is_finite k.command_sequence) || u.eq k.command_sequence last))
            _ _ (keeps d.slot _ refl)
            (keeps d.slot _
              (send_slot-Keeps k.control_level k.command_sequence d.command
                (with_idle_requested false (with_faulted false d.slot)) d.stats log).kept))

    write_slot-Keeps :
        (dt : W) (k : JointCommand W) (x : Slot W F) (stats : CycleStats W) (log : Log F)
        → view u (write_slot u c t dt k x stats log).slot ≡ view u x
    write_slot-Keeps dt k x stats log =
        ap (λ r. view u r.slot) (write_slot-slot_branch u c t dt k x stats log)
        ∙ (slot_branch-Keeps (async_has_fault u c x.telemetry) k x.memory.last_sent_command_sequence
            (check_draft u k.control_level (draft_command u dt k x stats)) log).kept
        ∙ check_draft-Keeps dt k x stats

    write_slots-IsReportedSlot :
        (t0 : Transport F) (dt : W) (commands : List (JointCommand W))
        (before slots : List (Slot W F)) (stats : CycleStats W) (log : Log F)
        → Each (IsReportedSlot u t0) before slots
        → Each (IsReportedSlot u t0) before (write_slots u c t dt commands slots stats log).slots
    unfolding write_slots
    write_slots-IsReportedSlot t0 dt commands [] [] stats log h = tt
    write_slots-IsReportedSlot t0 dt commands (b ∷ before) [] stats log h = absurd h
    write_slots-IsReportedSlot t0 dt commands [] (x ∷ slots) stats log h = absurd h
    write_slots-IsReportedSlot t0 dt commands (b ∷ before) (x ∷ slots) stats log h =
        let k = command_at u (head? commands) in
        let r = write_slot u c t dt k x stats log in
        let kept : IsReportedSlot u t0 b r.slot =
          subst (IsTold u t0 b) (sym (write_slot-Keeps dt k x stats log)) h.0 in
        elim (Option-cases r.lost) [
          | inl go_on ↦
              rw (write_slots, go_on)
                (
                  kept,
                  write_slots-IsReportedSlot t0 dt (tail commands) before slots r.stats r.log h.1,
                )
          | inr (failure, stop) ↦ rw (write_slots, stop) (kept, h.1)
        ]

  passed :
      (t0 : Transport F) (before slots : List (Slot W F))
      → Each (IsReportedSlot u t0) before slots
      → Each (IsPassedSlot u t0) before slots
  passed t0 [] [] h = tt
  passed t0 (b ∷ before) [] h = absurd h
  passed t0 [] (x ∷ slots) h = absurd h
  passed t0 (b ∷ before) (x ∷ slots) h =
      (IsReportedSlot-IsPassedSlot u t0 b x h.0, passed t0 before slots h.1)

  write_phase-IsReportedSlot :
      (t0 t : Transport F) (at : CycleInstants) (command : AsyncCommandSnapshot W)
      (s : Interface W F) (before : List (Slot W F)) (w : Work W F) (log : Log F)
      → IsIeee u
      → Each (IsReportedSlot u t0) before w.slots
      → Each (IsReportedSlot u t0) before (write_phase u t at command s w log).1.slots
  unfolding write_phase abandon_cycle count_async_write
  write_phase-IsReportedSlot t0 t at command s before w log laws h =
      let r =
        write_slots u s.safety_config t (limiting_period u command.dt_s) command.joints w.slots
          w.cycle_stats log in
      let kept =
        write_slots-IsReportedSlot s.safety_config t t0 (limiting_period u command.dt_s)
          command.joints before w.slots w.cycle_stats log h in
      elim (Bool-cases w.ended) [
        | inl e ↦ rw e h
        | inr e ↦ elim (Bool-cases (s.connected && lifecycle_ok u s)) [
          | inr off ↦ rw (e, off) h
          | inl on ↦ elim (Option-cases r.lost) [
            | inl go_on ↦ rw (e, on, go_on) kept
            | inr ((status, context), stop) ↦
                rw (e, on, stop)
                  (marked-IsReportedSlot u laws t0 status before r.slots
                    (passed t0 before r.slots kept))
          ]
        ]
      ]

  -- Whatever the transport answers, and wherever it is lost: at the end of a cycle of the worker,
  -- every joint, in its place, has finite position, velocity and effort. It is either healthy, with a
  -- complete sample and clear error registers, at a position that its axis gave in telemetry that
  -- passed the checks against the last valid position from before the cycle, and which is remembered
  -- as the last valid one. Or it is not healthy and at rest, at its last valid position from before
  -- the cycle, or 0 if that was not finite, or at one that its axis gave in such telemetry. The
  -- interface may change between the phases.
  pub cycle-IsReportedSlot :
      (t t' : Transport F) (at : CycleInstants) (command : AsyncCommandSnapshot W)
      (s s' : Interface W F) (w : Work W F) (log log' : Log F)
      → IsIeee u
      → Each
          (IsReportedSlot u t)
          w.slots
          (write_phase u t' at command s' (read_phase u t at s w log).1 log').1.slots
  cycle-IsReportedSlot t t' at command s s' w log log' laws =
      write_phase-IsReportedSlot t t' at command s' w.slots (read_phase u t at s w log).1 log' laws
        (read_phase-IsReportedSlot u laws t at s w log)
