-- ===== src/Interface/Session/Shape.antt =====
-- The vectors of flags have an element for each joint, in the whole session.
use odrive_ros2_control.Prelude.{
  ℕ, Bool, false, not, ◌||◌, ◌≡◌, inl, inr, map, length, replicate, Bool-cases, Option-cases, ◌==◌,
  if◌then◌else◌, ◌∙◌,
}
use odrive_ros2_control.Prelude.Int.{ℤ, pos, eq_ℤ}
use odrive_ros2_control.Fpu.{Fpu, zero_of}
use odrive_ros2_control.Transport.{Log, Transport}
use odrive_ros2_control.Interface.{SafetyConfig, JointContext, Interface, Instants}
use odrive_ros2_control.Interface.Reset.{reset_joint, reset_runtime_state}
use odrive_ros2_control.Interface.Read.{
  read_joints, read_sync, read_sensors, read_drives, mark_all_unhealthy_and_hold,
  hold_without_transport, count_read_cycle,
}
use odrive_ros2_control.Interface.Command.{limiting_period}
use odrive_ros2_control.Interface.Write.{
  write_joints, write_sync, report_offline, count_write_cycle, lifecycle_ok,
}
use odrive_ros2_control.Interface.ModeSwitch.{perform_command_mode_switch}
use odrive_ros2_control.Interface.ModeSwitch.Claims.{equal_lengths}
use odrive_ros2_control.Interface.Lifecycle.{
  initialize_joints, initialize_transport, set_health, on_activate, request_idle, on_deactivate,
  on_cleanup, recover,
}
use odrive_ros2_control.Interface.Session.{
  Step, reading, writing, switching, activating, deactivating, cleaning, recovering, commanding,
  Reachable, start, then_step,
}
use odrive_ros2_control.Interface.Session.Lengths.{
  length-map, length-replicate, length-read_joints, length-write_joints, length-switch_joints,
  length-initialize_joints,
}

module _ {W F : Type 0} (u : Fpu W F) (n : ℕ) (c : SafetyConfig) where
  -- As many flags of each kind as joints.
  abbrev pub IsShaped : Interface W F → Type 0
  IsShaped s =
      (length s.joints ≡ n)
      × (length s.axis_faulted ≡ n)
      × (length s.idle_requested_on_fault ≡ n)
      × (length s.joint_claimed ≡ n)
      × (s.safety_config ≡ c)

  read_sync-IsShaped :
      (t : Transport F) (at : Instants) (s : Interface W F) (log : Log F)
      → IsShaped s
      → IsShaped (read_sync u t at s log).0
  unfolding read_sync count_read_cycle mark_all_unhealthy_and_hold hold_without_transport
  read_sync-IsShaped t at s log (hj, hf, hi, hc, hs) = elim (Bool-cases s.connected) [
    | inr offline ↦ rw offline (length-map _ s.joints ∙ hj, hf, hi, hc, hs)
    | inl online ↦
        let unread = map (λ (j : JointContext W F). record j { healthy = zero_of u }) s.joints in
        let (sensors, lost1, log1) = read_sensors u t s.sensors log in
        let (drives, lost2, log2) = read_drives u t s.drives log1 in
        let ((joints, sensors3), lost3, log3) = read_joints u t unread sensors log2 in
        let kept : length unread ≡ n = length-map _ s.joints ∙ hj in
        let read : length joints ≡ n = length-read_joints u t unread sensors log2 ∙ kept in
        elim (Option-cases lost1) [
          | inr (status, e1) ↦ rw (online, e1) (length-map _ unread ∙ kept, hf, hi, hc, hs)
          | inl e1 ↦ elim (Option-cases lost2) [
            | inr (status, e2) ↦ rw (online, e1, e2) (length-map _ unread ∙ kept, hf, hi, hc, hs)
            | inl e2 ↦ elim (Option-cases lost3) [
              | inr (status, e3) ↦
                  rw (online, e1, e2, e3) (length-map _ joints ∙ read, hf, hi, hc, hs)
              | inl e3 ↦ rw (online, e1, e2, e3) (read, hf, hi, hc, hs)
            ]
          ]
        ]
  ]

  write_sync-IsShaped :
      (t : Transport F) (at : Instants) (period : W) (s : Interface W F) (log : Log F)
      → IsShaped s
      → IsShaped (write_sync u t at period s log).0
  unfolding write_sync report_offline count_write_cycle
  write_sync-IsShaped t at period s log (hj, hf, hi, hc, hs) =
      let r =
        write_joints u s.safety_config t (limiting_period u period) s.joints s.axis_faulted
          s.idle_requested_on_fault s.cycle_stats log in
      let (lj, lf, li) =
        length-write_joints u t s.safety_config (limiting_period u period) s.joints s.axis_faulted
          s.idle_requested_on_fault s.cycle_stats log in
      elim (Bool-cases s.connected) [
        | inr offline ↦ rw offline (hj, hf, hi, hc, hs)
        | inl online ↦ elim (Bool-cases (lifecycle_ok u s)) [
          | inr gated ↦ rw (online, gated) (hj, hf, hi, hc, hs)
          | inl enabled ↦ elim (Option-cases r.lost) [
            | inl none_lost ↦ rw (online, enabled, none_lost) (lj ∙ hj, lf ∙ hf, li ∙ hi, hc, hs)
            | inr (failure, lost) ↦ rw (online, enabled, lost) (lj ∙ hj, lf ∙ hf, li ∙ hi, hc, hs)
          ]
        ]
      ]

  perform_command_mode_switch-IsShaped :
      (t : Transport F) (s : Interface W F) (log : Log F)
      → IsShaped s
      → IsShaped (perform_command_mode_switch u t s log).1
  unfolding perform_command_mode_switch
  perform_command_mode_switch-IsShaped t s log (hj, hf, hi, hc, hs) =
      let claimed =
        if length s.joint_claimed == length s.joints
        then s.joint_claimed
        else replicate (length s.joints) false in
      let (lj, lc) = length-switch_joints u t s.safety_config s.joints claimed log in
      elim (Bool-cases s.connected) [
        | inr offline ↦ rw offline (hj, hf, hi, hc, hs)
        | inl online ↦
            rw online (lj ∙ hj, hf, hi, lc ∙ equal_lengths u t s.joint_claimed s.joints ∙ hj, hs)
      ]

  on_deactivate-IsShaped :
      (t : Transport F) (s : Interface W F) (log : Log F)
      → IsShaped s
      → IsShaped (on_deactivate u t s log).0
  unfolding on_deactivate
  on_deactivate-IsShaped t s log h = elim (Bool-cases s.connected) [
    | inr offline ↦ rw offline h
    | inl online ↦ elim (Option-cases (request_idle u t s.joints log).0) [
      | inl all ↦ rw (online, all) h
      | inr (status, failed) ↦ rw (online, failed) h
    ]
  ]

  reset_runtime_state-IsShaped :
      (s : Interface W F) → IsShaped s → IsShaped (reset_runtime_state u s)
  unfolding reset_runtime_state
  reset_runtime_state-IsShaped s (hj, _, _, _, hs) =
      let flags : length (replicate (length s.joints) false) ≡ n =
        length-replicate (length s.joints) false ∙ hj in
      (length-map (reset_joint u) s.joints ∙ hj, flags, flags, flags, hs)

  initialize_transport-IsShaped :
      (t : Transport F) (created : Bool) (init_status : ℤ) (now later : ℕ) (s : Interface W F)
      (log : Log F)
      → IsShaped s
      → IsShaped (initialize_transport u t created init_status now later s log).1
  unfolding initialize_transport set_health
  initialize_transport-IsShaped t created init_status now later s log (hj, hf, hi, hc, hs) =
      let wrong =
        not (length s.hardware_config.joints == length s.joints)
        || not (length s.hardware_config.sensors == length s.sensors) in
      let (fault, joints, _, _) =
        initialize_joints u t s.runtime_config s.joints s.hardware_config.joints s.cycle_stats
          log in
      let same : length joints ≡ n =
        length-initialize_joints u t s.runtime_config s.joints s.hardware_config.joints
          s.cycle_stats log
        ∙ hj in
      elim (Bool-cases wrong) [
        | inl e ↦ rw e (hj, hf, hi, hc, hs)
        | inr e ↦ elim (Bool-cases created) [
          | inr none_created ↦ rw (e, none_created) (hj, hf, hi, hc, hs)
          | inl made ↦ elim (Bool-cases (eq_ℤ init_status (pos 0))) [
            | inr bad ↦ rw (e, made, bad) (hj, hf, hi, hc, hs)
            | inl good ↦ elim (Option-cases fault) [
              | inl fine ↦ rw (e, made, good, fine) (same, hf, hi, hc, hs)
              | inr (x, faulty) ↦ rw (e, made, good, faulty) (same, hf, hi, hc, hs)
            ]
          ]
        ]
      ]

  on_activate-IsShaped :
      (t : Transport F) (created : Bool) (init_status : ℤ) (now later : ℕ) (s : Interface W F)
      (log : Log F)
      → IsShaped s
      → IsShaped (on_activate u t created init_status now later s log).1
  unfolding on_activate
  on_activate-IsShaped t created init_status now later s log h =
      let r = initialize_transport u t created init_status now later s log in
      let (hj, hf, hi, hc, hs) =
        initialize_transport-IsShaped t created init_status now later s log h in
      elim (Bool-cases r.0) [
        | inl started ↦ rw started (
          hj,
          length-map _ r.1.axis_faulted ∙ hf,
          length-map _ r.1.idle_requested_on_fault ∙ hi,
          length-map _ r.1.joint_claimed ∙ hc,
          hs,
        )
        | inr failed ↦ rw failed (hj, hf, hi, hc, hs)
      ]

  Step-IsShaped :
      (s : Interface W F) (log : Log F) {s' : Interface W F} {log' : Log F}
      → Step u s log s' log'
      → IsShaped s
      → IsShaped s'
  unfolding on_cleanup recover
  Step-IsShaped s log (reading t at) h = read_sync-IsShaped t at s log h
  Step-IsShaped s log (writing t at period) h = write_sync-IsShaped t at period s log h
  Step-IsShaped s log (switching t) h = perform_command_mode_switch-IsShaped t s log h
  Step-IsShaped s log (activating t created init_status now later) h =
      on_activate-IsShaped t created init_status now later s log h
  Step-IsShaped s log (deactivating t) h = on_deactivate-IsShaped t s log h
  Step-IsShaped s log cleaning h = reset_runtime_state-IsShaped (record s { connected = false }) h
  Step-IsShaped s log recovering h = reset_runtime_state-IsShaped s h
  Step-IsShaped s log (commanding f) (hj, hf, hi, hc, hs) =
      (length-map f s.joints ∙ hj, hf, hi, hc, hs)

  -- A session that starts with as many flags of each kind (faulted, idle requested, claimed) as
  -- joints has them in every state that it reaches, in whatever order the methods are called and
  -- whatever the transports answer; the number of joints and the safety configuration stay.
  pub Reachable-IsShaped :
      (s : Interface W F) (log : Log F) {s' : Interface W F} {log' : Log F}
      → IsShaped s
      → Reachable u s log s' log'
      → IsShaped s'
  Reachable-IsShaped s log h start = h
  Reachable-IsShaped s log h (then_step s1 log1 before step) =
      Step-IsShaped s1 log1 step (Reachable-IsShaped s log h before)
