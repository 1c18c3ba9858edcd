-- ===== src/Async/Writing.antt =====
-- The write phase of `async_io_thread_main`.
pub mod Effect
pub mod Branches
pub mod Sent
pub mod Agreement
pub mod Loop
pub mod Reporting
use odrive_ros2_control.Prelude.{
  ℕ, ◌-◌, Bool, true, false, not, ◌&&◌, ◌||◌, String, Option, none, some, List, [], ◌∷◌, tail,
  head?, if◌then◌else◌, has_value,
}
use odrive_ros2_control.Prelude.Int.{ℤ, pos, eq_ℤ}
use odrive_ros2_control.Fpu.{Fpu, zero_of, one_of, minus_one_of}
use odrive_ros2_control.Endpoints.{axis_endpoint, axis__requested_state}
use odrive_ros2_control.Transport.{Log, Transport, write, int32, perform}
use odrive_ros2_control.TransportError.{is_fail_fast_transport_error}
use odrive_ros2_control.Retry.{add_size}
use odrive_ros2_control.AxisControl.{
  AxisControlLevel, AxisCommandState, is_undefined, axis_state_idle, write_axis_command,
}
use odrive_ros2_control.CommandValidation.{validate_joint_command}
use odrive_ros2_control.ErrorMonitoring.{extract_error_value}
use odrive_ros2_control.Interface.{SafetyConfig, CycleStats, Interface}
use odrive_ros2_control.Interface.Reset.{finite_or_zero}
use odrive_ros2_control.Interface.Command.{
  is_position, is_velocity, count_event, limit_if, limiting_period,
}
use odrive_ros2_control.Interface.Write.{lifecycle_ok}
use odrive_ros2_control.Async.{
  JointCommand, AsyncCommandSnapshot, JointTelemetry, Slot, Work, CycleInstants,
}
use odrive_ros2_control.Async.Reading.{abandon_cycle, drop_transport}
use odrive_ros2_control.Async.Drafting.{
  Draft, with_write_error, with_faulted, with_idle_requested, command_at, async_has_fault,
  set_limited, draft_command, check_draft, invert_command,
}

-- What one joint's round leaves.
pub record SlotRound (W F : Type 0) : Type 0 where
  pub slot : Slot W F
  pub stats : CycleStats W
  pub lost : Option (ℤ × String)
  pub log : Log F

-- What the loop leaves.
pub record SlotRounds (W F : Type 0) : Type 0 where
  pub slots : List (Slot W F)
  pub stats : CycleStats W
  pub lost : Option (ℤ × String)
  pub log : Log F

module _ {W F : Type 0} (u : Fpu W F) where
  open u use {of_int, is_finite, eq, lt, mul, quiet_nan, seconds}

  module _ (c : SafetyConfig) (t : Transport F) where
    -- The branch of a faulted joint.
    unfoldable pub mask_slot : Slot W F → CycleStats W → Log F → SlotRound W F
    unfolding perform
    mask_slot x stats log =
        let masked = with_faulted true x in
        let (status, log') =
          perform t
            (write x.static.serial_number (axis_endpoint axis__requested_state x.static.axis)
              (int32 axis_state_idle))
            log in
        if c.request_idle_on_axis_fault && not x.memory.idle_requested_on_fault
        then if eq_ℤ status (pos 0)
          then record {
            slot = with_idle_requested true masked;
            stats = stats;
            lost = none;
            log = log';
          }
          else record {
            slot = with_write_error (of_int status) masked;
            stats = stats;
            lost =
                if is_fail_fast_transport_error status
                then some (status, "requesting axis idle state")
                else none;
            log = log';
          }
        else record { slot = masked; stats = stats; lost = none; log = log }

    -- The branch that sends the command, with its sequence number.
    unfoldable pub send_slot :
        AxisControlLevel → W → AxisCommandState W → Slot W F → CycleStats W → Log F → SlotRound W F
    unfolding invert_command
    send_slot level sequence command x stats log =
        let sent = invert_command u x.static.invert_axis command in
        let (o, log') =
          write_axis_command u t x.static.serial_number x.static.axis level sent
            x.static.enable_watchdog log in
        if eq_ℤ o.status (pos 0)
        then record {
          slot = record x {
            telemetry = record (x.telemetry) { write_error = zero_of u };
            memory = record (x.memory) {
              last_command_position = sent.command_position;
              last_command_velocity = sent.command_velocity;
              last_command_effort = sent.command_effort;
              last_sent_command_sequence =
                  if c.gate_stale_commands_with_command_sequence
                  then sequence
                  else x.memory.last_sent_command_sequence;
            };
          };
          stats = stats;
          lost = none;
          log = log';
        }
        else record {
          slot = with_write_error (of_int o.status) x;
          stats = stats;
          lost =
              if is_fail_fast_transport_error o.status
              then some (o.status, "writing axis command")
              else none;
          log = log';
        }

    unfoldable pub write_slot : W → JointCommand W → Slot W F → CycleStats W → Log F → SlotRound W F
    unfolding draft_command check_draft mask_slot send_slot
    write_slot dt k x stats log =
        let d = check_draft u k.control_level (draft_command u dt k x stats) in
        let free = with_idle_requested false (with_faulted false d.slot) in
        if async_has_fault u c x.telemetry
        then mask_slot d.slot d.stats log
        else if c.gate_stale_commands_with_command_sequence
            && (not (is_finite k.command_sequence)
                || eq k.command_sequence x.memory.last_sent_command_sequence)
        then record {
          slot = with_write_error (zero_of u) free;
          stats = d.stats;
          lost = none;
          log = log;
        }
        else send_slot k.control_level k.command_sequence d.command free d.stats log

    unfoldable pub write_slots :
        W → List (JointCommand W) → List (Slot W F) → CycleStats W → Log F → SlotRounds W F
    write_slots dt commands [] stats log = record {
      slots = [];
      stats = stats;
      lost = none;
      log = log;
    }
    write_slots dt commands (x ∷ slots) stats log =
        let round = write_slot dt (command_at u (head? commands)) x stats log in
        let rest = write_slots dt (tail commands) slots round.stats round.log in
        elim round.lost [
          | none ↦ record {
            slots = round.slot ∷ rest.slots;
            stats = rest.stats;
            lost = rest.lost;
            log = rest.log;
          }
          | some failure ↦ record {
            slots = round.slot ∷ slots;
            stats = round.stats;
            lost = some failure;
            log = round.log;
          }
        ]

  -- The duration is that of the whole cycle.
  unfoldable pub count_async_write : CycleInstants → Interface W F → Work W F → Work W F
  count_async_write at s w =
      let stats = w.cycle_stats in
      let duration = seconds (at.write_done - at.start) in
      record w {
        cycle_stats = record stats {
          write_cycles = add_size stats.write_cycles 1;
          max_write_cycle_time_sec =
              if lt stats.max_write_cycle_time_sec duration
              then duration
              else stats.max_write_cycle_time_sec;
          write_deadline_misses =
              if s.runtime_config.enable_deadline_warnings
                && lt s.runtime_config.max_write_cycle_time_sec duration
              then add_size stats.write_deadline_misses 1
              else stats.write_deadline_misses;
        };
      }

  -- The write phase, which a cycle that was cut short does not have.
  unfoldable pub write_phase :
      Transport F
      → CycleInstants
      → AsyncCommandSnapshot W
      → Interface W F
      → Work W F
      → Log F
      → Interface W F × Work W F × Log F
  unfolding lifecycle_ok limiting_period write_slots abandon_cycle drop_transport count_async_write
  write_phase t at command s w log =
      let r =
        write_slots s.safety_config t (limiting_period u command.dt_s) command.joints w.slots
          w.cycle_stats log in
      let written = record w { slots = r.slots; cycle_stats = r.stats } in
      if w.ended
      then (s, w, log)
      else if not (s.connected && lifecycle_ok u s)
      then (s, count_async_write at s w, log)
      else elim r.lost [
        | none ↦ (s, count_async_write at s written, r.log)
        | some (status, context) ↦
            (drop_transport u status context at.event s, abandon_cycle u status written, r.log)
      ]
