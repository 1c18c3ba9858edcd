-- ===== src/Interface/ModeSwitch/Claims.antt =====
-- What a mode switch that succeeds leaves: the claim flags and the modes of the joints.
use odrive_ros2_control.Prelude.{
  ℕ, zero, suc, Bool, true, false, not, ◌≡◌, refl, ◌⊎◌, inl, inr, Option, none, some, List, [], ◌∷◌,
  arith, All, map, length, replicate, ◌==◌, Bool-cases, Option-cases, if◌then◌else◌, ◌∙◌,
}
use odrive_ros2_control.Prelude.Int.{pos, eq_ℤ}
use odrive_ros2_control.Fpu.{Fpu}
use odrive_ros2_control.Transport.{Log, Transport}
use odrive_ros2_control.AxisControl.{is_undefined, perform_axis_mode_switch}
use odrive_ros2_control.Interface.{SafetyConfig, JointContext, Interface}
use odrive_ros2_control.Interface.Command.{has_fault, command_state}
use odrive_ros2_control.Interface.Write.{assign}
use odrive_ros2_control.Interface.ModeSwitch.{
  Failure, switch_joint, switch_round, switch_joints, perform_command_mode_switch, claim_transition,
  was_set,
}

module _ {W F : Type 0} (u : Fpu W F) (t : Transport F) where
  -- The joint is commanded: its mode is not UNDEFINED.
  abbrev pub is_commanded : JointContext W F → Bool
  is_commanded j = not (is_undefined j.control_level)

  switch_joint-has_fault :
      (c : SafetyConfig) (j : JointContext W F) (log : Log F)
      → has_fault u c (switch_joint u t j log).1 ≡ has_fault u c j
  unfolding switch_joint has_fault
  switch_joint-has_fault c j log =
      let (o, _, _) =
        perform_axis_mode_switch u t j.serial_number j.axis j.control_level (command_state u j)
          log in
      elim (Bool-cases (eq_ℤ o.status (pos 0))) [ inl e ↦ rw e | inr e ↦ rw e ]

  -- A faulted joint is not commanded.
  abbrev pub IsSettled : SafetyConfig → JointContext W F → Type 0
  IsSettled c j = (has_fault u c j ≡ false) ⊎ (is_commanded j ≡ false)

  module _ (c : SafetyConfig) where
    abbrev Claimed : Option Bool → Failure × JointContext W F × Option Bool × Log F → Type 0
    Claimed claimed (some e, j, flag, log) = Unit
    Claimed claimed (none, j, flag, log) = (flag ≡ assign (is_commanded j) claimed) × IsSettled c j

    Claimed-holds :
        (claimed : Option Bool) (r : Failure × JointContext W F × Option Bool × Log F)
        → r.0 ≡ none
        → Claimed claimed r
        → (r.2 ≡ assign (is_commanded r.1) claimed) × IsSettled c r.1
    Claimed-holds claimed (none, j, flag, log) e h = h
    Claimed-holds claimed (some x, j, flag, log) e h = absurd (cc)

    switch_round-Claimed :
        (j : JointContext W F) (claimed : Option Bool) (log : Log F)
        → Claimed claimed (switch_round u t c j claimed log)
    unfolding switch_round
    switch_round-Claimed j claimed log =
        let (failure, j1, log1) = claim_transition u t (was_set claimed) j log in
        let (failure2, j2, log2) = switch_joint u t j1 log1 in
        elim (Option-cases failure) [
          | inr (e, failed) ↦ rw (switch_round, failed) tt
          | inl ok ↦ elim (Bool-cases (has_fault u c j1)) [
            | inl fault ↦ rw (switch_round, ok, fault) (refl, inr refl)
            | inr sound ↦ elim (Option-cases failure2) [
              | inr (e, failed) ↦ rw (switch_round, ok, sound, failed) tt
              | inl ok2 ↦
                  rw (switch_round, ok, sound, ok2)
                    (refl, inl (switch_joint-has_fault c j1 log1 ∙ sound))
            ]
          ]
        ]

    abbrev AllClaimed : Failure × List (JointContext W F) × List Bool × Log F → Type 0
    AllClaimed (some e, joints, flags, log) = Unit
    AllClaimed (none, joints, flags, log) =
        (flags ≡ map is_commanded joints) × All (IsSettled c) joints

    AllClaimed-holds :
        (r : Failure × List (JointContext W F) × List Bool × Log F)
        → r.0 ≡ none
        → AllClaimed r
        → (r.2 ≡ map is_commanded r.1) × All (IsSettled c) r.1
    AllClaimed-holds (none, joints, flags, log) e h = h
    AllClaimed-holds (some x, joints, flags, log) e h = absurd (cc)

    switch_joints-AllClaimed :
        (joints : List (JointContext W F)) (claimed : List Bool) (log : Log F)
        → length claimed ≡ length joints
        → AllClaimed (switch_joints u t c joints claimed log)
    unfolding switch_joints
    switch_joints-AllClaimed [] [] log h = (refl, tt)
    switch_joints-AllClaimed [] (b ∷ claimed) log h = absurd (omega (arith, h))
    switch_joints-AllClaimed (j ∷ joints) [] log h = absurd (omega (arith, h))
    switch_joints-AllClaimed (j ∷ joints) (b ∷ claimed) log h =
        let (failure, j', flag, log') = switch_round u t c j (some b) log in
        let (failure2, rest, flags, log'') = switch_joints u t c joints claimed log' in
        let here = switch_round-Claimed j (some b) log in
        let there = switch_joints-AllClaimed joints claimed log' (omega (arith, h)) in
        elim (Option-cases failure) [
          | inr (e, failed) ↦ rw (switch_joints, failed) tt
          | inl ok ↦ elim (Option-cases failure2) [
            | inr (e, failed) ↦ rw (switch_joints, ok, failed) tt
            | inl ok2 ↦
                let (flagged, settled) = Claimed-holds (some b) _ ok here in
                let (all_flagged, all_settled) = AllClaimed-holds _ ok2 there in
                rw (switch_joints, ok, ok2, flagged, all_flagged) (refl, (settled, all_settled))
          ]
        ]

  length-replicate : (n : ℕ) (b : Bool) → length (replicate n b) ≡ n
  length-replicate zero b = refl
  length-replicate (suc n) b = omega (arith, length-replicate n b)

  pub equal_lengths :
      (flags : List Bool) (joints : List (JointContext W F))
      → length (if length flags == length joints then flags else replicate (length joints) false)
        ≡ length joints
  equal_lengths flags joints = ground (arith, length-replicate (length joints) false)

  -- After a mode switch on a connected transport that reports no failure there is a claim flag for
  -- each joint, which is set exactly if the joint is commanded, that is if its mode is not UNDEFINED,
  -- and no joint is commanded whose fault is masked. This holds whatever the flags were before.
  pub perform_command_mode_switch-claims :
      (s : Interface W F) (log : Log F)
      → s.connected ≡ true
      → let (failure, s', _) = perform_command_mode_switch u t s log in
        failure ≡ none
        → (s'.joint_claimed ≡ map is_commanded s'.joints)
          × All (IsSettled s.safety_config) s'.joints
  unfolding perform_command_mode_switch
  perform_command_mode_switch-claims s log online =
      let claimed =
        if length s.joint_claimed == length s.joints
        then s.joint_claimed
        else replicate (length s.joints) false in
      let r = switch_joints u t s.safety_config s.joints claimed log in
      rw online (λ ok. AllClaimed-holds s.safety_config r ok (
        switch_joints-AllClaimed s.safety_config s.joints claimed log
          (equal_lengths s.joint_claimed s.joints)))
