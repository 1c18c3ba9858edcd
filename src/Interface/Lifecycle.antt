-- ===== src/Interface/Lifecycle.antt =====
-- `initialize_transport`, `on_activate`, `on_deactivate`, `on_cleanup` and `recover`, with no worker
-- thread: `false` is the callback return ERROR.
pub mod States
pub mod Cleanup
use odrive_ros2_control.Prelude.{
  ℕ, Bool, true, false, not, ◌&&◌, ◌||◌, String, Option, none, some, List, [], ◌∷◌, ◌==◌, length,
  map, replicate, if◌then◌else◌,
}
use odrive_ros2_control.Prelude.Int.{ℤ, pos, eq_ℤ}
use odrive_ros2_control.Fpu.{Fpu}
use odrive_ros2_control.Endpoints.{
  axis_endpoint, axis__requested_state, axis__config__enable_watchdog,
  axis__config__watchdog_timeout, axis__motor__config__torque_constant, axis__clear_errors,
}
use odrive_ros2_control.Transport.{Log, Transport, write, call, float, int32, boolean, perform}
use odrive_ros2_control.Retry.{read_with_retry, write_with_retry}
use odrive_ros2_control.AxisControl.{axis_state_idle}
use odrive_ros2_control.Configuration.{JointConfig}
use odrive_ros2_control.Interface.{RuntimeConfig, JointContext, CycleStats, Interface}
use odrive_ros2_control.Interface.Health.{update_transport_health}
use odrive_ros2_control.Interface.Reset.{reset_runtime_state}

-- The status and the context of what failed.
abbrev pub Fault : Type 0
Fault = Option (ℤ × String)

module _ {W F : Type 0} (u : Fpu W F) where
  open u use {to_float, quiet_nan}

  -- `update_transport_health` on the interface.
  unfoldable pub set_health : Bool → ℤ → String → ℕ → Interface W F → Interface W F
  set_health ok status context now s = record s {
    transport_log_state =
        (update_transport_health u s.runtime_config.transport_summary_period_sec ok status context
          now s.transport_log_state).1;
  }

  module _ (t : Transport F) where
    -- One joint of `initialize_transport`: its torque constant is read, the time-out of its watchdog
    -- is set if that is enabled, and the watchdog is left disabled.
    unfoldable pub initialize_joint :
        RuntimeConfig W
        → JointContext W F
        → JointConfig W
        → CycleStats W
        → Log F
        → Fault × JointContext W F × CycleStats W × Log F
    initialize_joint c j k stats log =
        let (status, torque_constant, reads, log1) =
          read_with_retry t j.serial_number
            (axis_endpoint axis__motor__config__torque_constant j.axis) (to_float quiet_nan)
            c.usb_read_retries stats.usb_read_retries_total log in
        let stats1 : CycleStats W = record stats { usb_read_retries_total = reads } in
        let j1 : JointContext W F = record j { torque_constant = torque_constant } in
        let (status2, _, writes2, log2) =
          if j.enable_watchdog
          then write_with_retry t j.serial_number
              (axis_endpoint axis__config__watchdog_timeout j.axis)
              (float (to_float k.watchdog_timeout)) c.usb_write_retries
              stats.usb_write_retries_total log1
          else (pos 0, tt, stats.usb_write_retries_total, log1) in
        let stats2 : CycleStats W = record stats1 { usb_write_retries_total = writes2 } in
        let (status3, _, writes3, log3) =
          write_with_retry t j.serial_number (axis_endpoint axis__config__enable_watchdog j.axis)
            (boolean false) c.usb_write_retries writes2 log2 in
        let stats3 : CycleStats W = record stats2 { usb_write_retries_total = writes3 } in
        if not (eq_ℤ status (pos 0))
        then (some (status, "reading motor torque constant"), j, stats1, log1)
        else if not (eq_ℤ status2 (pos 0))
        then (some (status2, "configuring watchdog timeout"), j1, stats2, log2)
        else if not (eq_ℤ status3 (pos 0))
        then (some (status3, "disabling watchdog during initialization"), j1, stats3, log3)
        else (none, j1, stats3, log3)

    -- The joints, each with its configuration; there are as many of these.
    unfoldable pub initialize_joints :
        RuntimeConfig W
        → List (JointContext W F)
        → List (JointConfig W)
        → CycleStats W
        → Log F
        → Fault × List (JointContext W F) × CycleStats W × Log F
    unfolding initialize_joint
    initialize_joints c [] ks stats log = (none, [], stats, log)
    initialize_joints c (j ∷ joints) [] stats log = (none, j ∷ joints, stats, log)
    initialize_joints c (j ∷ joints) (k ∷ ks) stats log =
        let (fault, j', stats', log') = initialize_joint c j k stats log in
        let (fault', rest, stats'', log'') = initialize_joints c joints ks stats' log' in
        elim fault [
          | none ↦ (fault', j' ∷ rest, stats'', log'')
          | some e ↦ (some e, j' ∷ joints, stats', log')
        ]

    -- `created` is whether the factory delivers a transport, and `init_status` what its `initialize`
    -- returns. The clock is read at the report of the start, and at that of a failure.
    unfoldable pub initialize_transport :
        (created : Bool)
        → (init_status : ℤ) → (now later : ℕ) → Interface W F
        → Log F
        → Bool × Interface W F × Log F
    unfolding initialize_joints set_health
    initialize_transport created init_status now later s log =
        let online =
          set_health true (pos 0) "initialising ODrive transport" now
            (record s { connected = true }) in
        let (fault, joints, stats, log') =
          initialize_joints s.runtime_config s.joints s.hardware_config.joints s.cycle_stats log in
        let ready : Interface W F = record online { joints = joints; cycle_stats = stats } in
        if not (length s.hardware_config.joints == length s.joints)
          || not (length s.hardware_config.sensors == length s.sensors)
        then (false, s, log)
        else if not created
        then (false, record s { connected = false }, log)
        else if not (eq_ℤ init_status (pos 0))
        then (
          false,
          set_health false init_status "initialising ODrive transport" now
              (record s { connected = false }),
          log,
        )
        else elim fault [
          | none ↦ (true, ready, log')
          | some (status, context) ↦ (
            false,
            set_health false status context later (record ready { connected = false }),
            log',
          )
        ]

    -- The errors of all axes are cleared, up to the first failure.
    unfoldable pub clear_errors : List (JointContext W F) → Log F → ℤ × Log F
    unfolding perform
    clear_errors [] log = (pos 0, log)
    clear_errors (j ∷ joints) log =
        let (status, log') =
          perform t (call j.serial_number (axis_endpoint axis__clear_errors j.axis)) log in
        let rest = clear_errors joints log' in if eq_ℤ status (pos 0) then rest else (status, log')

    unfoldable pub on_activate :
        (created : Bool)
        → (init_status : ℤ) → (now later : ℕ) → Interface W F
        → Log F
        → Bool × Interface W F × Log F
    unfolding initialize_transport clear_errors
    on_activate created init_status now later s log =
        let (started, s1, log1) = initialize_transport created init_status now later s log in
        let gate = s.safety_config.gate_outputs_with_lifecycle in
        let s2 : Interface W F = record s1 {
          outputs_enabled = if gate then true else s1.outputs_enabled;
          axis_faulted = map (λ b. false) s1.axis_faulted;
          idle_requested_on_fault = map (λ b. false) s1.idle_requested_on_fault;
          joint_claimed = map (λ b. false) s1.joint_claimed;
        } in
        let (status, log2) = clear_errors s2.joints log1 in
        if started then (eq_ℤ status (pos 0), s2, log2) else (
          true,
          record s1 { outputs_enabled = if gate then false else s1.outputs_enabled },
          log1,
        )

    -- Idle is requested of every axis, up to the first failure, which is `some`.
    unfoldable pub request_idle : List (JointContext W F) → Log F → Option ℤ × Log F
    unfolding perform
    request_idle [] log = (none, log)
    request_idle (j ∷ joints) log =
        let (status, log') =
          perform t
            (write j.serial_number (axis_endpoint axis__requested_state j.axis)
              (int32 axis_state_idle))
            log in
        let rest = request_idle joints log' in
        if eq_ℤ status (pos 0) then rest else (some status, log')

    -- It always returns SUCCESS.
    unfoldable pub on_deactivate : Interface W F → Log F → Interface W F × Log F
    unfolding request_idle
    on_deactivate s log =
        let gated : Interface W F = record s {
          outputs_enabled =
              if s.safety_config.gate_outputs_with_lifecycle then false else s.outputs_enabled;
        } in
        let (failure, log') = request_idle s.joints log in
        if not s.connected then (gated, log) else elim failure [
          | none ↦ (gated, log')
          | some status ↦ (record gated { connected = false }, log')
        ]

  unfoldable pub on_cleanup : Interface W F → Interface W F
  unfolding reset_runtime_state
  on_cleanup s = reset_runtime_state u (record s { connected = false })

  unfoldable pub recover : Interface W F → Interface W F
  unfolding reset_runtime_state
  recover s = record (reset_runtime_state u s) { connected = false }
