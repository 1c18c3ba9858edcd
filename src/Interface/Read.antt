-- ===== src/Interface/Read.antt =====
-- `read`, the synchronous path.
pub mod Valid
pub mod Holding
use odrive_ros2_control.Prelude.{
  ℕ, ◌+◌, ◌-◌, Bool, true, false, not, ◌&&◌, ◌||◌, String, Option, none, some, List, [], ◌∷◌, map,
  if◌then◌else◌,
}
use odrive_ros2_control.Prelude.Int.{ℤ, pos, negsuc, eq_ℤ}
use odrive_ros2_control.Fpu.{Fpu, zero_of, one_of, minus_one_of}
use odrive_ros2_control.Endpoints.{vbus_voltage, can__error}
use odrive_ros2_control.Transport.{Log, Transport, read_float, read_uint32}
use odrive_ros2_control.TransportError.{is_fail_fast_transport_error}
use odrive_ros2_control.Retry.{add_size}
use odrive_ros2_control.Configuration.{FeedbackLimits}
use odrive_ros2_control.AxisTelemetry.{AxisTelemetrySample, empty_sample, read_axis_telemetry}
use odrive_ros2_control.ErrorMonitoring.{
  ErrorTable, extract_error_value, log_error_transition, axis_error_table, motor_error_table,
  encoder_error_table, controller_error_table,
}
use odrive_ros2_control.Interface.{
  SensorContext, DriveContext, JointContext, CycleStats, Interface, Instants,
}
use odrive_ros2_control.Interface.Health.{update_transport_health, maybe_update_diagnostics}
use odrive_ros2_control.Interface.Reset.{hold_joint_state}
use odrive_ros2_control.Interface.Feedback.{
  mark_joint_unhealthy, feedback_valid, accept_sample, refuse_sample,
}

-- What a phase of the cycle leaves: its part of the state, the status of a failure that ends the
-- cycle at once, and the history.
abbrev pub Phase : Type 0 → Type 0 → Type 0
Phase F A = A × Option ℤ × Log F

module _ {W F : Type 0} (u : Fpu W F) where
  open u use {of_int, to_double, quiet_nan, lt, seconds}

  unfoldable pub mark_all_unhealthy_and_hold : ℤ → String → ℕ → Interface W F → Interface W F
  unfolding mark_joint_unhealthy
  mark_all_unhealthy_and_hold status context now s = record s {
    transport_log_state =
        (update_transport_health u s.runtime_config.transport_summary_period_sec false status
          context now s.transport_log_state).1;
    joints = map (mark_joint_unhealthy u status) s.joints;
    drives =
        map
          (λ (d : DriveContext W). record d { can_error_read_error = of_int status; can_error = 0 })
          s.drives;
    sensors =
        map
          (λ (n : SensorContext W). record n {
            vbus_voltage = quiet_nan;
            transport_error = of_int status;
          })
          s.sensors;
  }

  -- The path with no transport.
  unfoldable pub hold_without_transport : ℕ → Interface W F → Interface W F
  unfolding hold_joint_state
  hold_without_transport now s = record s {
    transport_log_state =
        (update_transport_health u s.runtime_config.transport_summary_period_sec false (pos 0)
          "read() with no transport" now s.transport_log_state).1;
    joints =
        map
          (λ (j : JointContext W F).
            hold_joint_state u (record j { healthy = zero_of u; telemetry_valid = zero_of u }))
          s.joints;
    sensors =
        map
          (λ (n : SensorContext W). record n {
            vbus_voltage = quiet_nan;
            transport_error = quiet_nan;
          })
          s.sensors;
  }

  -- `find_sensor_index`, and the assignment to that sensor's transport error.
  unfoldable pub set_sensor_error : ℤ → W → List (SensorContext W) → List (SensorContext W)
  set_sensor_error serial error [] = []
  set_sensor_error serial error (n ∷ sensors) =
      if eq_ℤ n.serial_number serial
      then record n { transport_error = error } ∷ sensors
      else n ∷ set_sensor_error serial error sensors

  module _ (t : Transport F) where
    unfoldable pub read_sensors : List (SensorContext W) → Log F → Phase F (List (SensorContext W))
    unfolding read_float
    read_sensors [] log = ([], none, log)
    read_sensors (n ∷ sensors) log =
        let (status, voltage, log') = read_float t n.serial_number (pos vbus_voltage) log in
        let failed = record n { transport_error = of_int status; vbus_voltage = quiet_nan } in
        let fresh = record n { vbus_voltage = to_double voltage; transport_error = zero_of u } in
        let (rest, lost, log'') = read_sensors sensors log' in
        if eq_ℤ status (pos 0)
        then (fresh ∷ rest, lost, log'')
        else if is_fail_fast_transport_error status
        then (failed ∷ sensors, some status, log')
        else (failed ∷ rest, lost, log'')

    unfoldable pub read_drives : List (DriveContext W) → Log F → Phase F (List (DriveContext W))
    unfolding read_uint32
    read_drives [] log = ([], none, log)
    read_drives (d ∷ drives) log =
        let (status, bits, log') = read_uint32 t d.serial_number (pos can__error) log in
        let failed = record d { can_error_read_error = of_int status; can_error = 0 } in
        let fresh = record d { can_error_read_error = zero_of u; can_error = bits } in
        let (rest, lost, log'') = read_drives drives log' in
        if eq_ℤ status (pos 0)
        then (fresh ∷ rest, lost, log'')
        else if is_fail_fast_transport_error status
        then (failed ∷ drives, some status, log')
        else (failed ∷ rest, lost, log'')

    -- One round of the loop over the joints.
    unfoldable pub read_joint :
        JointContext W F
        → List (SensorContext W)
        → Log F
        → Phase F (JointContext W F × List (SensorContext W))
    unfolding accept_sample refuse_sample mark_joint_unhealthy set_sensor_error
    read_joint j sensors log =
        let (o, sample, log') =
          read_axis_telemetry u t j.serial_number j.axis j.torque_constant (empty_sample u) log in
        if eq_ℤ o.status (pos 0)
        then (
          (if feedback_valid u j.feedback_limits j.last_valid_position sample
              then (accept_sample u j sample, set_sensor_error j.serial_number (zero_of u) sensors)
              else (refuse_sample u j, sensors)),
          none,
          log',
        )
        else if is_fail_fast_transport_error o.status
        then ((j, sensors), some o.status, log')
        else (
          (
            mark_joint_unhealthy u o.status j,
            set_sensor_error j.serial_number (of_int o.status) sensors,
          ),
          none,
          log',
        )

    unfoldable pub read_joints :
        List (JointContext W F)
        → List (SensorContext W)
        → Log F
        → Phase F (List (JointContext W F) × List (SensorContext W))
    read_joints [] sensors log = (([], sensors), none, log)
    read_joints (j ∷ joints) sensors log =
        let ((j', sensors'), lost, log') = read_joint j sensors log in
        let ((rest, sensors''), lost', log'') = read_joints joints sensors' log' in
        elim lost [
          | none ↦ ((j' ∷ rest, sensors''), lost', log'')
          | some status ↦ ((j' ∷ joints, sensors'), some status, log')
        ]

  -- The statistics at the end of a cycle that was not cut short.
  unfoldable pub count_read_cycle : Instants → Interface W F → Interface W F
  count_read_cycle at s =
      let stats = s.cycle_stats in
      let duration = seconds (at.finish - at.start) in
      record s {
        cycle_stats = record stats {
          read_cycles = add_size stats.read_cycles 1;
          max_read_cycle_time_sec =
              if lt stats.max_read_cycle_time_sec duration
              then duration
              else stats.max_read_cycle_time_sec;
          read_deadline_misses =
              if s.runtime_config.enable_deadline_warnings
                && lt s.runtime_config.max_read_cycle_time_sec duration
              then add_size stats.read_deadline_misses 1
              else stats.read_deadline_misses;
        };
      }

  -- `read` on the synchronous path, which always returns `OK`.
  unfoldable pub read_sync : Transport F → Instants → Interface W F → Log F → Interface W F × Log F
  unfolding mark_all_unhealthy_and_hold hold_without_transport read_joints count_read_cycle
  read_sync t at s log =
      if not s.connected
      then (hold_without_transport at.event s, log)
      else let s0 = record s {
        joints = map (λ (j : JointContext W F). record j { healthy = zero_of u }) s.joints;
      } in
        let (sensors, lost, log1) = read_sensors t s0.sensors log in
        let s1 = record s0 { sensors = sensors } in
        elim lost [
          | some status ↦
              (mark_all_unhealthy_and_hold status "reading vbus voltage" at.event s1, log1)
          | none ↦
              let (drives, lost2, log2) = read_drives t s1.drives log1 in
              let s2 = record s1 { drives = drives } in
              elim lost2 [
                | some status ↦
                    (mark_all_unhealthy_and_hold status "reading CAN error" at.event s2, log2)
                | none ↦
                    let ((joints, sensors3), lost3, log3) =
                      read_joints t s2.joints s2.sensors log2 in
                    let s3 = record s2 { joints = joints; sensors = sensors3 } in
                    elim lost3 [
                      | some status ↦ (
                        mark_all_unhealthy_and_hold status "reading axis telemetry" at.event s3,
                        log3,
                      )
                      | none ↦
                          let s4 = record s3 {
                            diagnostics = maybe_update_diagnostics at.diagnosis s3.diagnostics;
                          } in
                          (count_read_cycle at s4, log3)
                    ]
              ]
        ]
