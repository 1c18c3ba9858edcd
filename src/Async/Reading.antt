-- ===== src/Async/Reading.antt =====
-- The read phase of `async_io_thread_main`.
pub mod Agreement
pub mod Reporting
use odrive_ros2_control.Prelude.{
  ℕ, ◌-◌, Bool, true, false, not, ◌&&◌, String, Option, none, some, List, [], ◌∷◌, map,
  if◌then◌else◌,
}
use odrive_ros2_control.Prelude.Int.{ℤ, pos, negsuc, eq_ℤ}
use odrive_ros2_control.Fpu.{Fpu, zero_of, one_of, minus_one_of}
use odrive_ros2_control.Endpoints.{vbus_voltage, can__error}
use odrive_ros2_control.Transport.{Log, Transport, read_float, read_uint32}
use odrive_ros2_control.TransportError.{is_fail_fast_transport_error}
use odrive_ros2_control.Retry.{add_size}
use odrive_ros2_control.AxisTelemetry.{AxisTelemetrySample, empty_sample, read_axis_telemetry}
use odrive_ros2_control.Interface.{SensorContext, DriveContext, CycleStats, Interface}
use odrive_ros2_control.Interface.Health.{update_transport_health}
use odrive_ros2_control.Interface.Reset.{finite_or_zero}
use odrive_ros2_control.Interface.Feedback.{feedback_valid, errors_clear}
use odrive_ros2_control.Interface.Read.{Phase}
use odrive_ros2_control.Async.{
  SensorTelemetry, DriveTelemetry, JointTelemetry, Slot, Work, CycleInstants,
}

module _ {W F : Type 0} (u : Fpu W F) where
  open u use {of_int, to_double, quiet_nan, lt, mul, seconds}

  -- A joint's feedback is held: its last valid position, at rest.
  unfoldable pub hold_slot : Slot W F → Slot W F
  hold_slot x = record x {
    telemetry = record (x.telemetry) {
      position = finite_or_zero u x.memory.last_valid_position;
      velocity = zero_of u;
      effort = zero_of u;
    };
  }

  -- A joint with this read error, held.
  unfoldable pub fail_slot : W → Slot W F → Slot W F
  unfolding hold_slot
  fail_slot error x = hold_slot (record x {
    telemetry = record (x.telemetry) {
      read_error = error;
      telemetry_valid = zero_of u;
      healthy = zero_of u;
    };
  })

  -- A joint's part of `mark_all_unhealthy_and_hold`.
  unfoldable pub mark_slot : ℤ → Slot W F → Slot W F
  unfolding fail_slot
  mark_slot status x =
      let failed = fail_slot (of_int status) x in
      record failed { telemetry = record (failed.telemetry) { write_error = of_int status } }

  -- The lambda `mark_all_unhealthy_and_hold`, and `goto publish_cycle`.
  unfoldable pub abandon_cycle : ℤ → Work W F → Work W F
  unfolding mark_slot
  abandon_cycle status w = record w {
    ended = true;
    transport_ok = false;
    transport_error = status;
    slots = map (mark_slot status) w.slots;
    sensors = map (λ (n : SensorTelemetry W). record n { vbus_voltage = quiet_nan }) w.sensors;
  }

  -- What that does to the class: the health is updated, and `transport_.reset()`.
  unfoldable pub drop_transport : ℤ → String → ℕ → Interface W F → Interface W F
  drop_transport status context now s = record s {
    connected = false;
    transport_log_state =
        (update_transport_health u s.runtime_config.transport_summary_period_sec false status
          context now s.transport_log_state).1;
  }

  -- The kinematic state of a sample that passed the checks.
  unfoldable pub take_slot_state : AxisTelemetrySample W → Slot W F → Slot W F
  unfolding hold_slot
  take_slot_state sample x =
      let sign = if x.static.invert_axis then minus_one_of u else one_of u in
      if errors_clear u sample
      then record x {
        telemetry = record (x.telemetry) {
          healthy = one_of u;
          effort = mul sample.effort sign;
          velocity = mul sample.velocity sign;
          position = mul sample.position sign;
        };
        memory = record (x.memory) {
          last_valid_position = mul sample.position sign;
          last_valid_velocity = mul sample.velocity sign;
        };
      }
      else hold_slot (record x { telemetry = record (x.telemetry) { healthy = zero_of u } })

  unfoldable pub accept_slot : AxisTelemetrySample W → Slot W F → Slot W F
  unfolding take_slot_state
  accept_slot sample x =
      let taken = take_slot_state sample x in
      record taken {
        telemetry = record (taken.telemetry) {
          axis_error = sample.axis_error;
          motor_error = sample.motor_error;
          encoder_error = sample.encoder_error;
          controller_error = sample.controller_error;
          fet_temperature = sample.fet_temperature;
          motor_temperature = sample.motor_temperature;
          read_error = zero_of u;
          telemetry_valid = one_of u;
        };
      }

  module _ (t : Transport F) where
    -- The loop over the sensors, with the serial numbers of the class.
    unfoldable pub read_sensor_rows :
        List (SensorContext W)
        → List (SensorTelemetry W)
        → Log F
        → Phase F (List (SensorTelemetry W))
    unfolding read_float
    read_sensor_rows (n ∷ sensors) (x ∷ rows) log =
        let (status, voltage, log') = read_float t n.serial_number (pos vbus_voltage) log in
        let failed : SensorTelemetry W = record {
          transport_error = of_int status;
          vbus_voltage = quiet_nan;
        } in
        let fresh : SensorTelemetry W = record {
          vbus_voltage = to_double voltage;
          transport_error = zero_of u;
        } in
        let (rest, lost, log'') = read_sensor_rows sensors rows log' in
        if eq_ℤ status (pos 0)
        then (fresh ∷ rest, lost, log'')
        else if is_fail_fast_transport_error status
        then (failed ∷ rows, some status, log')
        else (failed ∷ rest, lost, log'')
    read_sensor_rows _ rows log = (rows, none, log)

    unfoldable pub read_drive_rows :
        List (DriveContext W) → List (DriveTelemetry W) → Log F → Phase F (List (DriveTelemetry W))
    unfolding read_uint32
    read_drive_rows (d ∷ drives) (x ∷ rows) log =
        let (status, bits, log') = read_uint32 t d.serial_number (pos can__error) log in
        let failed : DriveTelemetry W = record {
          can_error_read_error = of_int status;
          can_error = 0;
        } in
        let fresh : DriveTelemetry W = record {
          can_error_read_error = zero_of u;
          can_error = bits;
        } in
        let (rest, lost, log'') = read_drive_rows drives rows log' in
        if eq_ℤ status (pos 0)
        then (fresh ∷ rest, lost, log'')
        else if is_fail_fast_transport_error status
        then (failed ∷ rows, some status, log')
        else (failed ∷ rest, lost, log'')
    read_drive_rows _ rows log = (rows, none, log)

    -- One round of the loop over the joints.
    unfoldable pub read_slot : Slot W F → Log F → Phase F (Slot W F)
    unfolding accept_slot fail_slot
    read_slot x log =
        let (o, sample, log') =
          read_axis_telemetry u t x.static.serial_number x.static.axis x.static.torque_constant
            (empty_sample u) log in
        if eq_ℤ o.status (pos 0)
        then (
          (if feedback_valid u x.static.feedback_limits x.memory.last_valid_position sample
              then accept_slot sample x
              else fail_slot (of_int (negsuc 0)) x),
          none,
          log',
        )
        else (
          fail_slot (of_int o.status) x,
          (if is_fail_fast_transport_error o.status then some o.status else none),
          log',
        )

    unfoldable pub read_slots : List (Slot W F) → Log F → Phase F (List (Slot W F))
    read_slots [] log = ([], none, log)
    read_slots (x ∷ slots) log =
        let (x', lost, log') = read_slot x log in
        let (rest, lost', log'') = read_slots slots log' in
        elim lost [
          | none ↦ (x' ∷ rest, lost', log'')
          | some status ↦ (x' ∷ slots, some status, log')
        ]

  unfoldable pub count_async_read : CycleInstants → Interface W F → Work W F → Work W F
  count_async_read at s w =
      let stats = w.cycle_stats in
      let duration = seconds (at.read_done - at.start) in
      record w {
        cycle_stats = record stats {
          read_cycles = add_size stats.read_cycles 1;
          max_read_cycle_time_sec =
              if lt stats.max_read_cycle_time_sec duration
              then duration
              else stats.max_read_cycle_time_sec;
          read_deadline_misses =
              if s.runtime_config.enable_deadline_warnings
                && lt s.runtime_config.max_read_cycle_time_sec duration
              then add_size stats.read_deadline_misses 1
              else stats.read_deadline_misses;
        };
      }

  -- The path with no transport.
  unfoldable pub hold_all : Work W F → Work W F
  unfolding hold_slot
  hold_all w = record w {
    slots =
        map
          (λ (x : Slot W F). hold_slot (record x {
            telemetry = record (x.telemetry) { healthy = zero_of u; telemetry_valid = zero_of u };
          }))
          w.slots;
    sensors =
        map
          (λ (n : SensorTelemetry W). record n {
            vbus_voltage = quiet_nan;
            transport_error = quiet_nan;
          })
          w.sensors;
  }

  -- The read phase: it changes the class only where it drops the transport.
  unfoldable pub read_phase :
      Transport F
      → CycleInstants
      → Interface W F
      → Work W F
      → Log F
      → Interface W F × Work W F × Log F
  unfolding hold_all abandon_cycle drop_transport read_slots count_async_read
  read_phase t at s w log =
      let (sensors, lost, log1) = read_sensor_rows t s.sensors w.sensors log in
      let w1 = record w { sensors = sensors } in
      let (drives, lost2, log2) = read_drive_rows t s.drives w1.drives log1 in
      let w2 = record w1 { drives = drives } in
      let (slots, lost3, log3) = read_slots t w2.slots log2 in
      let w3 = record w2 { slots = slots } in
      if not s.connected then (s, count_async_read at s (hold_all w), log) else elim lost [
        | some status ↦
            (drop_transport status "reading vbus voltage" at.event s, abandon_cycle status w1, log1)
        | none ↦ elim lost2 [
          | some status ↦
              (drop_transport status "reading CAN error" at.event s, abandon_cycle status w2, log2)
          | none ↦ elim lost3 [
            | some status ↦ (
              drop_transport status "reading axis telemetry" at.event s,
              abandon_cycle status w3,
              log3,
            )
            | none ↦ (s, count_async_read at s w3, log3)
          ]
        ]
      ]
