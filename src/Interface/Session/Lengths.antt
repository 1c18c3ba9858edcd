-- ===== src/Interface/Session/Lengths.antt =====
-- The lengths of the lists that the loops over the joints return.
use odrive_ros2_control.Prelude.{
  ℕ, zero, suc, Bool, true, false, not, ◌&&◌, ◌≡◌, refl, inl, inr, Option, none, some, List, [],
  ◌∷◌, arith, map, length, replicate, head?, tail, cons?, has_value, Bool-cases, Option-cases,
  if◌then◌else◌, ap, ◌∙◌,
}
use odrive_ros2_control.Prelude.Int.{ℤ}
use odrive_ros2_control.Fpu.{Fpu}
use odrive_ros2_control.Transport.{Log, Transport}
use odrive_ros2_control.Configuration.{JointConfig}
use odrive_ros2_control.AxisControl.{is_undefined}
use odrive_ros2_control.Interface.{
  SafetyConfig, RuntimeConfig, SensorContext, JointContext, CycleStats,
}
use odrive_ros2_control.Interface.Read.{read_joint, read_joints}
use odrive_ros2_control.Interface.Command.{has_fault, is_stale, prepare_command}
use odrive_ros2_control.Interface.Write.{Round, assign, is_unset, write_joint, write_joints}
use odrive_ros2_control.Interface.Write.Sending.{send_command-flags}
use odrive_ros2_control.Interface.Write.Masking.{
  IdleRequested, silent, accepted, refused, mask_joint-IsMasked,
}
use odrive_ros2_control.Interface.ModeSwitch.{
  was_set, claim_transition, switch_joint, switch_round, switch_joints,
}
use odrive_ros2_control.Interface.Lifecycle.{initialize_joint, initialize_joints}

pub length-map {ℓ κ} :
    {A : Type ℓ} {B : Type κ} (f : A → B) (xs : List A) → length (map f xs) ≡ length xs
length-map f [] = refl
length-map f (x ∷ xs) = ap suc (length-map f xs)

pub length-replicate : (n : ℕ) (b : Bool) → length (replicate n b) ≡ n
length-replicate zero b = refl
length-replicate (suc n) b = ap suc (length-replicate n b)

-- A flag that is there if it was there.
length-cons? :
    (flags rest : List Bool) (flag : Option Bool)
    → has_value flag ≡ has_value (head? flags)
    → length rest ≡ length (tail flags)
    → length (cons? flag rest) ≡ length flags
length-cons? [] rest none h e = e
length-cons? [] rest (some b) h e = absurd (ground (arith, h))
length-cons? (x ∷ flags) rest none h e = absurd (ground (arith, h))
length-cons? (x ∷ flags) rest (some b) h e = ap suc e

has_value-assign : (b : Bool) (o : Option Bool) → has_value (assign b o) ≡ has_value o
has_value-assign b none = refl
has_value-assign b (some x) = refl

module _ {W F : Type 0} (u : Fpu W F) where
  module _ (t : Transport F) where
    pub length-read_joints :
        (joints : List (JointContext W F)) (sensors : List (SensorContext W)) (log : Log F)
        → length (read_joints u t joints sensors log).0.0 ≡ length joints
    unfolding read_joints
    length-read_joints [] sensors log = refl
    length-read_joints (j ∷ joints) sensors log =
        let ((j', sensors'), lost, log') = read_joint u t j sensors log in
        elim (Option-cases lost) [
          | inl go_on ↦ rw (read_joints, go_on) (ap suc (length-read_joints joints sensors' log'))
          | inr (status, stop) ↦ rw (read_joints, stop) refl
        ]

    -- A round has the flags that the vectors have.
    abbrev HasFlags : Option Bool → Option Bool → Round W F → Type 0
    HasFlags faulted idle r =
        (has_value r.faulted ≡ has_value faulted) × (has_value r.idle_requested ≡ has_value idle)

    either :
        (faulted idle : Option Bool) (b : Bool) (x y : Round W F)
        → HasFlags faulted idle x
        → HasFlags faulted idle y
        → HasFlags faulted idle (if b then x else y)
    either faulted idle true x y hx hy = hx
    either faulted idle false x y hx hy = hy

    unset-has_value : (b : Bool) (o : Option Bool) → (b && is_unset o) ≡ true → true ≡ has_value o
    unset-has_value b none h = absurd (ground (arith, h))
    unset-has_value b (some x) h = refl

    module _ (c : SafetyConfig) where
      IdleRequested-has_value :
          (serial axis : ℤ) (log : Log F) {idle idle' : Option Bool} {log' : Log F}
          → IdleRequested c t serial axis idle log idle' log'
          → has_value idle' ≡ has_value idle
      IdleRequested-has_value serial axis log (silent h) = refl
      IdleRequested-has_value serial axis log (accepted h e) = unset-has_value _ _ h
      IdleRequested-has_value serial axis log (refused h e) = refl

      write_joint-HasFlags :
          (dt : W) (j : JointContext W F) (faulted idle : Option Bool) (stats : CycleStats W)
          (log : Log F)
          → HasFlags faulted idle (write_joint u c t dt j faulted idle stats log)
      unfolding write_joint
      write_joint-HasFlags dt j faulted idle stats log =
          let (ready, stats') = prepare_command u dt j stats in
          let (flag, _, idle_kept) = mask_joint-IsMasked u c t ready faulted idle stats' log in
          let (flag2, idle2) =
            send_command-flags u c t ready (assign false faulted) (assign false idle) stats' log in
          either faulted idle (has_fault u c j) _ _
            (
              ap has_value flag ∙ has_value-assign true faulted,
              IdleRequested-has_value ready.serial_number ready.axis log idle_kept,
            )
            (either faulted idle (c.gate_stale_commands_with_command_sequence && is_stale u ready) _
              _ (has_value-assign false faulted, has_value-assign false idle)
              (
                ap has_value flag2 ∙ has_value-assign false faulted,
                ap has_value idle2 ∙ has_value-assign false idle,
              ))

      pub length-write_joints :
          (dt : W) (joints : List (JointContext W F)) (faulted idle : List Bool)
          (stats : CycleStats W) (log : Log F)
          → let r = write_joints u c t dt joints faulted idle stats log in
            (length r.joints ≡ length joints)
            × (length r.faulted ≡ length faulted)
            × (length r.idle_requested ≡ length idle)
      unfolding write_joints
      length-write_joints dt [] faulted idle stats log = (refl, refl, refl)
      length-write_joints dt (j ∷ joints) faulted idle stats log =
          let r = write_joint u c t dt j (head? faulted) (head? idle) stats log in
          let (hf, hi) = write_joint-HasFlags dt j (head? faulted) (head? idle) stats log in
          let (lj, lf, li) =
            length-write_joints dt joints (tail faulted) (tail idle) r.stats r.log in
          elim (Option-cases r.lost) [
            | inl go_on ↦
                rw (write_joints, go_on)
                  (ap suc lj, length-cons? faulted _ _ hf lf, length-cons? idle _ _ hi li)
            | inr (failure, stop) ↦
                rw (write_joints, stop)
                  (refl, length-cons? faulted _ _ hf refl, length-cons? idle _ _ hi refl)
          ]

      switch_round-has_value :
          (j : JointContext W F) (claimed : Option Bool) (log : Log F)
          → has_value (switch_round u t c j claimed log).2 ≡ has_value claimed
      unfolding switch_round
      switch_round-has_value j claimed log =
          let (failure, j1, log1) = claim_transition u t (was_set claimed) j log in
          let (failure2, j2, log2) = switch_joint u t j1 log1 in
          elim (Option-cases failure) [
            | inr (e, failed) ↦ rw (switch_round, failed) refl
            | inl ok ↦ elim (Bool-cases (has_fault u c j1)) [
              | inl fault ↦ rw (switch_round, ok, fault) (has_value-assign false claimed)
              | inr sound ↦ elim (Option-cases failure2) [
                | inr (e, failed) ↦ rw (switch_round, ok, sound, failed) refl
                | inl ok2 ↦
                    rw (switch_round, ok, sound, ok2)
                      (has_value-assign (not (is_undefined j2.control_level)) claimed)
              ]
            ]
          ]

      pub length-switch_joints :
          (joints : List (JointContext W F)) (claimed : List Bool) (log : Log F)
          → let (_, joints', claimed', _) = switch_joints u t c joints claimed log in
            (length joints' ≡ length joints) × (length claimed' ≡ length claimed)
      unfolding switch_joints
      length-switch_joints [] claimed log = (refl, refl)
      length-switch_joints (j ∷ joints) claimed log =
          let (failure, j', flag, log') = switch_round u t c j (head? claimed) log in
          let kept = switch_round-has_value j (head? claimed) log in
          let (lj, lc) = length-switch_joints joints (tail claimed) log' in
          elim (Option-cases failure) [
            | inl go_on ↦ rw (switch_joints, go_on) (ap suc lj, length-cons? claimed _ flag kept lc)
            | inr (e, stop) ↦ rw (switch_joints, stop) (refl, length-cons? claimed _ flag kept refl)
          ]

    pub length-initialize_joints :
        (c : RuntimeConfig W) (joints : List (JointContext W F)) (ks : List (JointConfig W))
        (stats : CycleStats W) (log : Log F)
        → length (initialize_joints u t c joints ks stats log).1 ≡ length joints
    unfolding initialize_joints
    length-initialize_joints c [] ks stats log = refl
    length-initialize_joints c (j ∷ joints) [] stats log = refl
    length-initialize_joints c (j ∷ joints) (k ∷ ks) stats log =
        let (fault, j', stats', log') = initialize_joint u t c j k stats log in
        elim (Option-cases fault) [
          | inl go_on ↦
              rw (initialize_joints, go_on)
                (ap suc (length-initialize_joints c joints ks stats' log'))
          | inr (e, stop) ↦ rw (initialize_joints, stop) refl
        ]
