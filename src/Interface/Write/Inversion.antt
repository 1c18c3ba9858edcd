-- ===== src/Interface/Write/Inversion.antt =====
-- What `write` leaves in the command interfaces of an inverted axis.
use odrive_ros2_control.Prelude.{
  Bool, true, false, ◌&&◌, ◌≡◌, refl, inl, inr, Option, Bool-cases, ◌∙◌, ap,
}
use odrive_ros2_control.Prelude.Int.{pos, eq_ℤ}
use odrive_ros2_control.Fpu.{Fpu, minus_one_of}
use odrive_ros2_control.Transport.{Log, Transport}
use odrive_ros2_control.Interface.{SafetyConfig, JointContext, CycleStats}
use odrive_ros2_control.Interface.Command.{has_fault, is_stale, prepare_command, invert_commands}
use odrive_ros2_control.Interface.Write.{Round, send_command, write_joint, assign}
use odrive_ros2_control.Interface.Command.Prepared.{Identity, prepare_command-identity}
use odrive_ros2_control.Interface.Write.Sending.{outcome, write_joint-send_command}

module _ {W F : Type 0} (u : Fpu W F) where
  -- The command interfaces of a joint.
  abbrev pub commands : JointContext W F → W × W × W
  commands j = (j.command_position, j.command_velocity, j.command_effort)

  abbrev pub negated : W × W × W → W × W × W
  negated (p, v, e) = (u.mul p (minus_one_of u), u.mul v (minus_one_of u), u.mul e (minus_one_of u))

  invert_commands-negated :
      (j : JointContext W F)
      → j.invert_axis ≡ true
      → commands (invert_commands u j) ≡ negated (commands j)
  unfolding invert_commands
  invert_commands-negated j inverted = rw inverted refl

  module _ (c : SafetyConfig) (t : Transport F) where
    send_command-commands :
        (j : JointContext W F) (faulted idle : Option Bool) (stats : CycleStats W) (log : Log F)
        → commands (send_command u c t j faulted idle stats log).joint
          ≡ commands (invert_commands u j)
    unfolding send_command
    send_command-commands j faulted idle stats log =
        elim (Bool-cases (eq_ℤ (outcome u c t (invert_commands u j) log).status (pos 0))) [
          | inl e ↦ rw e refl
          | inr e ↦ rw e refl
        ]

    -- A round of `write` that sends a command to an inverted axis leaves the command interfaces
    -- themselves negated: they hold the prepared commands times -1.0, whether or not the transport
    -- accepts them, so that the next round starts from the opposite commands unless a controller has
    -- written them again.
    pub write_joint_negates_interfaces :
        (dt : W) (j : JointContext W F) (faulted idle : Option Bool) (stats : CycleStats W)
        (log : Log F)
        → has_fault u c j ≡ false
        → (c.gate_stale_commands_with_command_sequence
            && is_stale u (prepare_command u dt j stats).0)
          ≡ false
        → j.invert_axis ≡ true
        → commands (write_joint u c t dt j faulted idle stats log).joint
          ≡ negated (commands (prepare_command u dt j stats).0)
    write_joint_negates_interfaces dt j faulted idle stats log sound fresh inverted =
        let (ready, stats') = prepare_command u dt j stats in
        let still : ready.invert_axis ≡ true =
          ap (λ (i : Identity u). i.invert_axis) (prepare_command-identity u dt j stats)
          ∙ inverted in
        ap (λ (r : Round W F). commands r.joint)
          (write_joint-send_command u c t dt j faulted idle stats log sound fresh)
        ∙ send_command-commands ready (assign false faulted) (assign false idle) stats' log
        ∙ invert_commands-negated ready still
