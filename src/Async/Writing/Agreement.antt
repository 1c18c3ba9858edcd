-- ===== src/Async/Writing/Agreement.antt =====
-- The worker's write phase and the loop of the synchronous `write`, side by side.
use odrive_ros2_control.Prelude.{
  Bool, true, false, not, ◌&&◌, ◌||◌, ◌≡◌, refl, sym, ap, ◌∙◌, if◌then◌else◌, inl, inr, Option,
  none, some, Bool-cases,
}
use mathlib.Core.Path.{subst}
use odrive_ros2_control.Fpu.{Fpu, zero_of}
use odrive_ros2_control.Transport.{Log, Transport}
use odrive_ros2_control.Interface.{SafetyConfig, JointContext, CycleStats}
use odrive_ros2_control.Interface.Command.{has_fault, is_stale, prepare_command}
use odrive_ros2_control.Interface.Write.{Round, assign, mask_joint, send_command, write_joint}
use odrive_ros2_control.Async.{JointCommand, Slot}
use odrive_ros2_control.Async.Writing.{SlotRound, mask_slot, send_slot, write_slot}
use odrive_ros2_control.Async.Drafting.{
  Draft, draft_command, check_draft, async_has_fault, with_write_error, with_faulted,
  with_idle_requested,
}
use odrive_ros2_control.Async.Writing.Effect.{joint_of, IsCleared, sync_effect, slot_effect}
use odrive_ros2_control.Async.Writing.Branches.{
  of_draft, IsDraft, check_draft-IsDraft, prepare_agrees, mask_agrees,
}
use odrive_ros2_control.Async.Writing.Sent.{measured, send_agrees}

module _ {W F : Type 0} (u : Fpu W F) where
  module _ (c : SafetyConfig) (t : Transport F) where
    -- The branch of `write_joint` for a prepared command.
    abbrev joint_branch :
        Bool → JointContext W F × CycleStats W → Option Bool → Option Bool → Log F → Round W F
    joint_branch fault (ready, stats) faulted idle log =
        if fault
        then mask_joint u c t ready faulted idle stats log
        else if c.gate_stale_commands_with_command_sequence && is_stale u ready
        then record {
          joint = record ready { write_error = zero_of u };
          faulted = assign false faulted;
          idle_requested = assign false idle;
          stats = stats;
          lost = none;
          log = log;
        }
        else send_command u c t ready (assign false faulted) (assign false idle) stats log

    write_joint-joint_branch :
        (dt : W) (j : JointContext W F) (faulted idle : Option Bool) (stats : CycleStats W)
        (log : Log F)
        → write_joint u c t dt j faulted idle stats log
          ≡ joint_branch (has_fault u c j) (prepare_command u dt j stats) faulted idle log
    unfolding write_joint
    write_joint-joint_branch dt j faulted idle stats log = refl

    -- The branch of `write_slot`, for a joint whose memory is `m`.
    abbrev pub slot_branch : Bool → JointCommand W → W → Draft W F → Log F → SlotRound W F
    slot_branch fault k last_sent d log =
        let free = with_idle_requested false (with_faulted false d.slot) in
        if fault
        then mask_slot u c t d.slot d.stats log
        else if c.gate_stale_commands_with_command_sequence
            && (not (u.is_finite k.command_sequence) || u.eq k.command_sequence last_sent)
        then record {
          slot = with_write_error (zero_of u) free;
          stats = d.stats;
          lost = none;
          log = log;
        }
        else send_slot u c t k.control_level k.command_sequence d.command free d.stats log

    pub write_slot-slot_branch :
        (dt : W) (k : JointCommand W) (x : Slot W F) (stats : CycleStats W) (log : Log F)
        → write_slot u c t dt k x stats log
          ≡ slot_branch
              (async_has_fault u c x.telemetry)
              k
              x.memory.last_sent_command_sequence
              (check_draft u k.control_level (draft_command u dt k x stats))
              log
    unfolding write_slot
    write_slot-slot_branch dt k x stats log = refl

    measured_eta :
        (x : Slot W F) (d : Draft W F)
        → IsDraft u x d
        → d.command
          ≡ measured u c t d.command.command_position d.command.command_velocity
              d.command.command_effort d.slot
    measured_eta x d h =
        rw (sym h.state_position_is, sym h.state_velocity_is, sym h.state_effort_is) refl

    branches_agree :
        (fault : Bool) (k : JointCommand W) (x : Slot W F) (d : Draft W F) (log : Log F)
        → IsDraft u x d
        → slot_effect u (slot_branch fault k d.slot.memory.last_sent_command_sequence d log)
          ≡ sync_effect u (
              joint_branch fault
                (of_draft u k d)
                (some d.slot.memory.axis_faulted)
                (some d.slot.memory.idle_requested_on_fault)
                log)
    unfolding is_stale
    branches_agree true k x d log h =
        mask_agrees u c t d.command.command_position d.command.command_velocity
          d.command.command_effort k d.slot d.stats log
    branches_agree false k x d log h =
        let free = with_idle_requested false (with_faulted false d.slot) in
        elim (Bool-cases (
          c.gate_stale_commands_with_command_sequence
          && (not (u.is_finite k.command_sequence)
              || u.eq k.command_sequence d.slot.memory.last_sent_command_sequence))) [
                | inl stale ↦ rw stale refl
                | inr fresh ↦ rw fresh (
                    ap
                      (λ command. slot_effect u (
                        send_slot u c t k.control_level k.command_sequence command free d.stats
                          log))
                      (measured_eta x d h)
                    ∙ send_agrees u c t d.command.command_position d.command.command_velocity
                        d.command.command_effort k free d.stats log)
              ]

    -- A round of the worker's write phase and a round of the synchronous `write`, on the joint that
    -- the slot and its command correspond to, have the same effect if the slot's rate-limiter flags
    -- are clear: the same operations in the same order with the same answers, the same fault flags,
    -- write error, remembered commands, rate-limiter flags and statistics, and the same status, if
    -- any, that ends the cycle.
    pub write_slot-write_joint :
        (dt : W) (k : JointCommand W) (x : Slot W F) (stats : CycleStats W) (log : Log F)
        → IsCleared u x
        → slot_effect u (write_slot u c t dt k x stats log)
          ≡ sync_effect u (
              write_joint u c t dt
                (joint_of u k x)
                (some x.memory.axis_faulted)
                (some x.memory.idle_requested_on_fault)
                stats
                log)
    unfolding has_fault
    write_slot-write_joint dt k x stats log clear =
        let d = check_draft u k.control_level (draft_command u dt k x stats) in
        let drafted = check_draft-IsDraft u dt k x stats in
        let faulted = some x.memory.axis_faulted in
        let idle = some x.memory.idle_requested_on_fault in
        let agree = branches_agree (async_has_fault u c x.telemetry) k x d log drafted in
        ap (slot_effect u) (write_slot-slot_branch dt k x stats log)
        ∙ subst
            (λ m.
              slot_effect u
                (slot_branch (async_has_fault u c x.telemetry) k m.last_sent_command_sequence d log)
              ≡ sync_effect u (
                  joint_branch (async_has_fault u c x.telemetry) (of_draft u k d)
                    (some m.axis_faulted) (some m.idle_requested_on_fault) log))
            drafted.memory_kept agree
        ∙ ap (λ q. sync_effect u (joint_branch (has_fault u c (joint_of u k x)) q faulted idle log))
            (sym (prepare_agrees u dt k x stats clear))
        ∙ ap (sync_effect u)
            (sym (write_joint-joint_branch dt (joint_of u k x) faulted idle stats log))
