-- ===== src/Interface/Lifecycle/Cleanup.antt =====
-- What `on_cleanup` leaves of the runtime state.
use odrive_ros2_control.Prelude.{
  false, ◌≡◌, refl, Each, Each-map, List, [], ◌∷◌, map, length, replicate, ap,
}
use odrive_ros2_control.Fpu.{Fpu, zero_of}
use odrive_ros2_control.Transport.{Log, Transport}
use odrive_ros2_control.AxisControl.{AxisControlLevel}
use odrive_ros2_control.Interface.{JointContext, Interface, Instants}
use odrive_ros2_control.Interface.Reset.{reset_joint, reset_runtime_state}
use odrive_ros2_control.Interface.Read.{read_sync}
use odrive_ros2_control.Interface.Read.Valid.{IsKept, finite_or_zero-IsKept}
use odrive_ros2_control.Interface.Write.{write_sync}
use odrive_ros2_control.Interface.Write.Gating.{write_sync-offline, read_sync-offline}
use odrive_ros2_control.Interface.Lifecycle.{on_cleanup}

module _ {W F : Type 0} (u : Fpu W F) where
  replicate-map :
      (joints : List (JointContext W F))
      → replicate (length joints) false ≡ map (λ _. false) (map (reset_joint u) joints)
  replicate-map [] = refl
  replicate-map (j ∷ joints) = ap (◌∷◌ false) (replicate-map joints)

  -- What `reset_runtime_state` makes of a joint `j`: UNDEFINED, not healthy, standing still where it
  -- was measured, commanded to stay there, with the limits of the next command counted from there.
  pub record IsReset (j j' : JointContext W F) : Type 0 where
    pub same_axis : (j'.serial_number ≡ j.serial_number) × (j'.axis ≡ j.axis)
    pub mode_undefined : j'.control_level ≡ AxisControlLevel.undefined
    pub healthy_unset : j'.healthy ≡ zero_of u
    pub position_kept : IsKept u j.position j'.position
    pub command_kept : IsKept u j.position j'.command_position
    pub last_command_kept : IsKept u j.position j'.last_command_position
    pub last_valid_kept : IsKept u j.position j'.last_valid_position
    pub no_velocity : (j'.velocity ≡ zero_of u) × (j'.command_velocity ≡ zero_of u)
    pub no_effort : (j'.effort ≡ zero_of u) × (j'.command_effort ≡ zero_of u)

  reset_joint-IsReset : (j : JointContext W F) → IsReset j (reset_joint u j)
  unfolding reset_joint
  reset_joint-IsReset j =
      let kept = finite_or_zero-IsKept u j.position in
      record {
        same_axis = (refl, refl);
        mode_undefined = refl;
        healthy_unset = refl;
        position_kept = kept;
        command_kept = kept;
        last_command_kept = kept;
        last_valid_kept = kept;
        no_velocity = (refl, refl);
        no_effort = (refl, refl);
      }

  -- After `on_cleanup` the outputs are disabled and the transport is given up, so that a `write` or a
  -- `read` sends nothing, whatever the transport would answer. There are as many flags of each kind
  -- as joints, all of them unset. Every joint, in its place, is UNDEFINED and not healthy, without
  -- velocity and effort, and its position, the command for it, the last command and the last valid
  -- position are all the position that it had before, or 0 if that was not finite.
  pub on_cleanup-IsReset :
      (s : Interface W F) (t : Transport F) (at : Instants) (period : W) (log : Log F)
      → let s' = on_cleanup u s in
        (s'.outputs_enabled ≡ false)
        × ((write_sync u t at period s' log).1 ≡ log)
        × ((read_sync u t at s' log).1 ≡ log)
        × (s'.axis_faulted ≡ map (λ _. false) s'.joints)
        × (s'.idle_requested_on_fault ≡ map (λ _. false) s'.joints)
        × (s'.joint_claimed ≡ map (λ _. false) s'.joints)
        × Each IsReset s.joints s'.joints
  unfolding on_cleanup reset_runtime_state
  on_cleanup-IsReset s t at period log =
      let flags = replicate-map s.joints in
      (
        refl,
        write_sync-offline u t at period (on_cleanup u s) log refl,
        read_sync-offline u t at (on_cleanup u s) log refl,
        flags,
        flags,
        flags,
        Each-map IsReset (reset_joint u) s.joints reset_joint-IsReset,
      )
