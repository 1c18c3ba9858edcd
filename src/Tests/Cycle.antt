-- ===== src/Tests/Cycle.antt =====
-- The theorems on the interface, applied.
use odrive_ros2_control.Prelude.{
  Each, inl, ◌≡◌, refl, ◌⊎◌, true, false, none, some, [], ◌∷◌, ◌&&◌, All, map,
}
use odrive_ros2_control.Prelude.Int.{pos, eq_ℤ, ◌*ℤ◌, ◌-ℤ◌}
use odrive_ros2_control.Fpu.Exact.{exact, exact-IsIeee}
use odrive_ros2_control.AxisControl.{
  Outcome, write_axis_command, perform_axis_mode_switch, switch_mode,
}
use odrive_ros2_control.AxisControl.Script.{Ran}
use odrive_ros2_control.ErrorMonitoring.{extract_error_value}
use odrive_ros2_control.Interface.Command.{
  invert_commands, prepare_command, has_fault, is_stale, limit_rates, limit_if, validate_or_hold,
  limiting_period,
}
use odrive_ros2_control.Interface.Read.{read_sync}
use odrive_ros2_control.Interface.Read.Holding.{IsReported, read_sync-IsReported}
use odrive_ros2_control.Interface.Write.{
  write_sync, write_joint, write_joints, send_command, lifecycle_ok, report_offline,
}
use odrive_ros2_control.Transport.{perform}
use odrive_ros2_control.TransportError.{is_fail_fast_transport_error}
use odrive_ros2_control.CommandValidation.{
  validate_component, validate_joint_command, apply_rate_limiting,
}
use odrive_ros2_control.Interface.Command.Prepared.{IsSafe}
use odrive_ros2_control.Interface.Write.Sending.{script_of, Reports, write_joint_sends-IsSafe}
use odrive_ros2_control.Interface.Write.Masking.{
  HasErrorValue, idle_request, IsMasked, write_joint-IsMasked, write_joint_requests_idle_once,
}
use odrive_ros2_control.Interface.Write.Gating.{GivesUp, write_sync-GivesUp}
use odrive_ros2_control.Interface.Write.Sequence.{Failed, write_joint_sends_once}
use odrive_ros2_control.Interface.ModeSwitch.{
  perform_command_mode_switch, switch_joints, switch_round, switch_joint, claim_transition,
}
use odrive_ros2_control.Interface.ModeSwitch.Claims.{
  is_commanded, IsSettled, perform_command_mode_switch-claims,
}
use odrive_ros2_control.Interface.Lifecycle.{
  initialize_transport, initialize_joints, initialize_joint, set_health, on_activate, on_deactivate,
  on_cleanup,
}
use odrive_ros2_control.Retry.{read_with_retry, write_with_retry}
use odrive_ros2_control.Interface.Lifecycle.States.{
  idle_script, on_deactivate_stops, Activated, on_activate_outputs,
}
use odrive_ros2_control.Interface.Lifecycle.Cleanup.{IsReset, on_cleanup-IsReset}
use odrive_ros2_control.Interface.Write.Inversion.{
  commands, negated, write_joint_negates_interfaces,
}
use odrive_ros2_control.Interface.Session.{start, then_step, reading, writing}
use odrive_ros2_control.Interface.Session.Shape.{IsShaped, Reachable-IsShaped}
use odrive_ros2_control.Tests.Data.{
  configured, number, accepting, gone, elbow, faulty, safety, stats, at, active,
  limits-FiniteLimits,
}

read_sync-IsReported_example :
    Each
      (IsReported exact accepting)
      active.joints
      (read_sync exact accepting at active []).0.joints
read_sync-IsReported_example = read_sync-IsReported exact exact-IsIeee accepting at active []

elbow_sound : has_fault exact safety elbow ≡ false
unfolding has_fault extract_error_value
elbow_sound = refl

faulty_set : HasErrorValue exact faulty
faulty_set = inl (refl, refl, refl)

elbow_fresh :
    (safety.gate_stale_commands_with_command_sequence
      && is_stale exact (prepare_command exact (number 1) elbow stats).0)
    ≡ false
unfolding is_stale prepare_command validate_or_hold limit_rates limit_if apply_rate_limiting
    validate_joint_command validate_component ◌*ℤ◌ ◌-ℤ◌
elbow_fresh = refl

write_joint_sends-IsSafe_example :
    let ready = (prepare_command exact (number 1) elbow stats).0 in
    let sent = invert_commands exact ready in
    let r =
      write_joint exact safety accepting (number 1) elbow (some false) (some false) stats [] in
    IsSafe exact elbow ready
    × (o : Outcome) × Ran accepting (script_of exact elbow sent) [] o r.log
    × Reports exact sent r.joint r.lost o
    × (r.faulted ≡ some false)
    × (r.idle_requested ≡ some false)
write_joint_sends-IsSafe_example =
    write_joint_sends-IsSafe exact safety accepting (number 1) elbow (some false) (some false) stats
      [] exact-IsIeee limits-FiniteLimits elbow_sound elbow_fresh

write_joint-IsMasked_example :
    IsMasked exact safety accepting faulty
      (some false)
      (some false)
      []
      (write_joint exact safety accepting (number 1) faulty (some false) (some false) stats [])
write_joint-IsMasked_example =
    write_joint-IsMasked exact safety accepting (number 1) faulty (some false) (some false) stats []
      refl faulty_set

write_joint_requests_idle_once_example :
    let r =
      write_joint exact safety accepting (number 1) faulty (some false) (some false) stats [] in
    let r2 =
      write_joint exact safety accepting
        (number 1)
        r.joint
        r.faulted
        r.idle_requested
        r.stats
        r.log in
    (r.log ≡ idle_request (pos 7) (pos 1) ∷ []) × (r2.log ≡ r.log)
write_joint_requests_idle_once_example =
    write_joint_requests_idle_once exact safety accepting (number 1) faulty (some false) stats []
      refl faulty_set refl refl

write_joint_sends_once_example :
    let r =
      write_joint exact safety accepting (number 1) elbow (some false) (some false) stats [] in
    let r2 =
      write_joint exact safety gone (number 2) r.joint r.faulted r.idle_requested r.stats [] in
    Failed exact safety refl r.joint ⊎ (r2.log ≡ []) × (r2.joint.write_error ≡ number 0)
write_joint_sends_once_example =
    write_joint_sends_once exact safety refl exact-IsIeee accepting gone (number 1) (number 2) elbow
      (some false) (some false) stats [] [] elbow_sound

lost : (write_sync exact gone at (number 1) active []).0.connected ≡ false
unfolding write_sync write_joints write_joint send_command has_fault extract_error_value is_stale
    prepare_command validate_or_hold limit_rates limit_if apply_rate_limiting validate_joint_command
    validate_component write_axis_command invert_commands is_fail_fast_transport_error lifecycle_ok
    report_offline perform limiting_period ◌*ℤ◌ ◌-ℤ◌
lost = refl

write_sync-GivesUp_example :
    let (s', log') = write_sync exact gone at (number 1) active [] in
    GivesUp exact gone active s' log'
    × ((write_sync exact accepting at (number 1) s' []).1 ≡ [])
    × ((read_sync exact accepting at s' []).1 ≡ [])
write_sync-GivesUp_example =
    write_sync-GivesUp exact gone at (number 1) active [] accepting at (number 1) [] refl lost

switched : (perform_command_mode_switch exact accepting active []).0 ≡ none
unfolding perform_command_mode_switch switch_joints switch_round claim_transition switch_joint
    has_fault extract_error_value perform_axis_mode_switch switch_mode perform
switched = refl

perform_command_mode_switch-claims_example :
    let s' = (perform_command_mode_switch exact accepting active []).1 in
    (s'.joint_claimed ≡ map (is_commanded exact accepting) s'.joints)
    × All (IsSettled exact accepting safety) s'.joints
perform_command_mode_switch-claims_example =
    perform_command_mode_switch-claims exact accepting active [] refl switched

on_deactivate_stops_example :
    let (s', log') = on_deactivate exact accepting active [] in
    (s'.outputs_enabled ≡ false)
    × ((write_sync exact gone at (number 1) s' []).1 ≡ [])
    × (o : Outcome) × Ran accepting (idle_script exact accepting (elbow ∷ faulty ∷ [])) [] o log'
    × (s'.connected ≡ eq_ℤ o.status (pos 0))
on_deactivate_stops_example =
    on_deactivate_stops exact accepting active [] gone at (number 1) [] refl refl

activation_connects :
    (on_activate exact accepting true (pos 0) 100 200 configured []).1.connected ≡ true
unfolding on_activate initialize_transport initialize_joints initialize_joint read_with_retry
    write_with_retry set_health
activation_connects = refl

on_activate_outputs_example :
    let r = on_activate exact accepting true (pos 0) 100 200 configured [] in
    (r.1.outputs_enabled ≡ r.1.connected)
    × Activated exact accepting
        (initialize_transport exact accepting true (pos 0) 100 200 configured []).2
        r
on_activate_outputs_example =
    on_activate_outputs exact accepting true (pos 0) 100 200 configured [] refl refl

on_cleanup-IsReset_example :
    let s' = on_cleanup exact active in
    (s'.outputs_enabled ≡ false)
    × ((write_sync exact accepting at (number 1) s' []).1 ≡ [])
    × ((read_sync exact accepting at s' []).1 ≡ [])
    × (s'.axis_faulted ≡ map (λ _. false) s'.joints)
    × (s'.idle_requested_on_fault ≡ map (λ _. false) s'.joints)
    × (s'.joint_claimed ≡ map (λ _. false) s'.joints)
    × Each (IsReset exact) active.joints s'.joints
on_cleanup-IsReset_example = on_cleanup-IsReset exact active accepting at (number 1) []

write_joint_negates_interfaces_example :
    commands exact
      (write_joint exact safety gone (number 1) elbow (some false) (some false) stats []).joint
    ≡ negated exact (commands exact (prepare_command exact (number 1) elbow stats).0)
write_joint_negates_interfaces_example =
    write_joint_negates_interfaces exact safety gone (number 1) elbow (some false) (some false)
      stats [] elbow_sound elbow_fresh refl

Reachable-IsShaped_example :
    let (s, log) = write_sync exact accepting at (number 1) active [] in
    IsShaped exact 2 safety (read_sync exact accepting at s log).0
Reachable-IsShaped_example =
    let (s, log) = write_sync exact accepting at (number 1) active [] in
    Reachable-IsShaped exact 2 safety active [] (refl, refl, refl, refl, refl)
      (then_step s log (then_step active [] start (writing accepting at (number 1)))
        (reading accepting at))
