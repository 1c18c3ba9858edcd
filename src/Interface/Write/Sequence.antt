-- ===== src/Interface/Write/Sequence.antt =====
-- The gate for stale commands: a command sequence number is sent once.
use odrive_ros2_control.Prelude.{
  Bool, true, false, not, ◌&&◌, ◌≡◌, ◌≢◌, refl, ◌⊎◌, inl, inr, Option, arith, Bool-cases, has_value,
  ◌∙◌, sym,
}
use mathlib.Core.Path.{subst}
use odrive_ros2_control.Prelude.Int.{ℤ, pos, eq_ℤ, eq_ℤ_iff}
use odrive_ros2_control.Fpu.{Fpu, zero_of}
use odrive_ros2_control.Fpu.Laws.{IsIeee}
use odrive_ros2_control.Transport.{Log, Transport}
use odrive_ros2_control.AxisControl.{is_undefined}
use odrive_ros2_control.CommandValidation.{validate_joint_command}
use odrive_ros2_control.Interface.{SafetyConfig, JointContext, CycleStats}
use odrive_ros2_control.Interface.Command.{
  command_state, has_fault, limit_rates, validate_or_hold, invert_commands, is_stale,
  prepare_command,
}
use odrive_ros2_control.Interface.Write.{Round, send_command, write_joint, assign}
use odrive_ros2_control.Interface.Command.Prepared.{identity, prepare_command-identity}
use odrive_ros2_control.Interface.Write.Sending.{
  invert_commands-identity, outcome, write_joint-send_command,
}
use odrive_ros2_control.Interface.Write.Masking.{has_fault-identity}

module _ {W F : Type 0} (u : Fpu W F) where
  -- The sequence numbers of the command and of the last one that was sent.
  abbrev sequence : JointContext W F → W × W
  sequence j = (j.command_sequence, j.last_sent_command_sequence)

  prepare_command-sequence :
      (dt : W) (j : JointContext W F) (stats : CycleStats W)
      → sequence (prepare_command u dt j stats).0 ≡ sequence j
  unfolding prepare_command validate_or_hold limit_rates
  prepare_command-sequence dt j stats =
      let limited = (limit_rates u dt j stats).0 in
      elim (Bool-cases (
        has_value
          (validate_joint_command u j.command_limits j.control_level (command_state u limited))
        && not (is_undefined j.control_level))) [ inl e ↦ rw e | inr e ↦ rw e ]

  is_stale-sequence :
      (j j' : JointContext W F) → sequence j' ≡ sequence j → is_stale u j' ≡ is_stale u j
  unfolding is_stale
  is_stale-sequence j j' same = cc

  module _ (c : SafetyConfig) (gate : c.gate_stale_commands_with_command_sequence ≡ true) where
    -- A stale command of a joint without a fault is not sent.
    write_joint_stale :
        (t : Transport F) (dt : W) (j : JointContext W F) (faulted idle : Option Bool)
        (stats : CycleStats W) (log : Log F)
        → has_fault u c j ≡ false
        → is_stale u j ≡ true
        → let r = write_joint u c t dt j faulted idle stats log in
          (r.log ≡ log) × (r.joint.write_error ≡ zero_of u)
    unfolding write_joint
    write_joint_stale t dt j faulted idle stats log sound stale =
        let ready = (prepare_command u dt j stats).0 in
        let still = is_stale-sequence j ready (prepare_command-sequence dt j stats) ∙ stale in
        rw (sound, gate, still) (refl, refl)

    abbrev pub Failed : JointContext W F → Type 0
    Failed j = (status : ℤ) × (status ≢ pos 0) × (j.write_error ≡ u.of_int status)

    finite_if_fresh :
        (j : JointContext W F) → is_stale u j ≡ false → u.is_finite j.command_sequence ≡ true
    unfolding is_stale
    finite_if_fresh j fresh = ground arith

    stale_if_sent :
        (j : JointContext W F)
        → u.is_finite j.command_sequence ≡ true
        → u.eq j.command_sequence j.last_sent_command_sequence ≡ true
        → is_stale u j ≡ true
    unfolding is_stale
    stale_if_sent j finite same = rw (finite, same) refl

    invert_commands-sequence : (j : JointContext W F) → sequence (invert_commands u j) ≡ sequence j
    unfolding invert_commands
    invert_commands-sequence j = elim (Bool-cases j.invert_axis) [ inl e ↦ rw e | inr e ↦ rw e ]

    send_command_then_stale :
        IsIeee u
        → (t : Transport F) (j : JointContext W F) (faulted idle : Option Bool)
          (stats : CycleStats W) (log : Log F)
        → is_stale u j ≡ false
        → let j' = (send_command u c t j faulted idle stats log).joint in
          (identity u j' ≡ identity u j) × (Failed j' ⊎ (is_stale u j' ≡ true))
    unfolding send_command
    send_command_then_stale laws t j faulted idle stats log fresh =
        let sent = invert_commands u j in
        let same = invert_commands-identity u c t j in
        let status = (outcome u c t sent log).status in
        let finite =
          finite_if_fresh sent (is_stale-sequence j sent (invert_commands-sequence j) ∙ fresh) in
        elim (Bool-cases (eq_ℤ status (pos 0))) [
          | inl ok ↦
              rw (ok, gate)
                (
                  same,
                  inr (
                      stale_if_sent
                        (record sent {
                          write_error = zero_of u;
                          last_sent_command_sequence = sent.command_sequence;
                          last_command_position = sent.command_position;
                          last_command_velocity = sent.command_velocity;
                          last_command_effort = sent.command_effort;
                        })
                        finite (laws.eq_refl sent.command_sequence finite)),
                )
          | inr failed ↦ rw failed (
            same,
            inl (status, (λ good. absurd (ground (arith, good, eq_ℤ_iff status (pos 0)))), refl),
          )
        ]

    -- The branches of `write_joint` on a joint without a fault.
    write_joint-stale :
        (t : Transport F) (dt : W) (j : JointContext W F) (faulted idle : Option Bool)
        (stats : CycleStats W) (log : Log F)
        → has_fault u c j ≡ false
        → is_stale u (prepare_command u dt j stats).0 ≡ true
        → (write_joint u c t dt j faulted idle stats log).joint
          ≡ record ((prepare_command u dt j stats).0) { write_error = zero_of u }
    unfolding write_joint
    write_joint-stale t dt j faulted idle stats log sound stale = rw (sound, gate, stale) refl

    abbrev Settled : JointContext W F → JointContext W F → Type 0
    Settled j j' = (identity u j' ≡ identity u j) × (Failed j' ⊎ (is_stale u j' ≡ true))

    write_joint_then_stale :
        IsIeee u
        → (t : Transport F) (dt : W) (j : JointContext W F) (faulted idle : Option Bool)
          (stats : CycleStats W) (log : Log F)
        → has_fault u c j ≡ false
        → Settled j (write_joint u c t dt j faulted idle stats log).joint
    write_joint_then_stale laws t dt j faulted idle stats log sound =
        let (ready, stats') = prepare_command u dt j stats in
        let same = prepare_command-identity u dt j stats in
        elim (Bool-cases (is_stale u ready)) [
          | inl stale ↦
              let quiet : JointContext W F = record ready { write_error = zero_of u } in
              subst (Settled j) (sym (write_joint-stale t dt j faulted idle stats log sound stale))
                (same, inr (is_stale-sequence ready quiet refl ∙ stale))
          | inr fresh ↦
              let (kept, after) =
                send_command_then_stale laws t ready (assign false faulted) (assign false idle)
                  stats' log fresh in
              subst (λ (r : Round W F). Settled j r.joint)
                (sym (
                  write_joint-send_command u c t dt j faulted idle stats log sound
                    (rw (gate, fresh) refl)))
                (kept ∙ same, after)
        ]

    -- With the gate for stale commands, a joint without a fault is sent a command sequence number
    -- once: after a round of `write`, either the transport refused the command, and the write error
    -- says so, or the next round sends that joint nothing, whatever the transport would answer.
    pub write_joint_sends_once :
        IsIeee u
        → (t t2 : Transport F) (dt dt2 : W) (j : JointContext W F) (faulted idle : Option Bool)
          (stats : CycleStats W) (log log2 : Log F)
        → has_fault u c j ≡ false
        → let r = write_joint u c t dt j faulted idle stats log in
          let r2 = write_joint u c t2 dt2 r.joint r.faulted r.idle_requested r.stats log2 in
          Failed r.joint ⊎ (r2.log ≡ log2) × (r2.joint.write_error ≡ zero_of u)
    write_joint_sends_once laws t t2 dt dt2 j faulted idle stats log log2 sound =
        let r = write_joint u c t dt j faulted idle stats log in
        let (same, after) = write_joint_then_stale laws t dt j faulted idle stats log sound in
        elim after [
          | inl failed ↦ inl failed
          | inr stale ↦ inr (
              write_joint_stale t2 dt2 r.joint r.faulted r.idle_requested r.stats log2
                (has_fault-identity u c t dt j r.joint same ∙ sound) stale)
        ]
