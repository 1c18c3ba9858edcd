-- ===== src/Tests/Async.antt =====
-- The theorems on the worker thread, applied.
use odrive_ros2_control.Prelude.{Each, ◌≡◌, refl, true, false, some, none, [], ◌∷◌, arith}
use odrive_ros2_control.Prelude.Int.{ℤ}
use odrive_ros2_control.Fpu.Exact.{Exact, exact, exact-IsIeee}
use odrive_ros2_control.Interface.{Interface}
use odrive_ros2_control.Interface.ModeSwitch.{perform_command_mode_switch}
use odrive_ros2_control.Async.{JointCommand, AsyncIo, Slot, Work, CycleInstants}
use odrive_ros2_control.Async.Reading.{read_phase, read_slot}
use odrive_ros2_control.Async.Writing.{write_phase, write_slot, write_slots}
use odrive_ros2_control.Async.Writing.Effect.{joint_of, IsCleared, slot_effect, sync_effect}
use odrive_ros2_control.Async.Writing.Agreement.{write_slot-write_joint}
use odrive_ros2_control.Async.Writing.Loop.{
  joints_of, slots_effect, joints_effect, write_slots-write_joints,
}
use odrive_ros2_control.Async.Writing.Reporting.{cycle-IsReportedSlot}
use odrive_ros2_control.Async.Reading.Reporting.{IsReportedSlot}
use odrive_ros2_control.Async.Reading.Agreement.{read_slot-read_joint}
use odrive_ros2_control.Async.Worker.{System, Thread, Event, run, step}
use odrive_ros2_control.Async.Worker.Stopping.{async_io_stop_and_join_ends}
use odrive_ros2_control.Async.Worker.Phases.{IsSound, IsPhased, run-IsSound}
use odrive_ros2_control.Async.Worker.Restart.{
  taken_command, switch_with_worker, mode_switch_replays,
}
use odrive_ros2_control.Interface.Write.{write_joint, write_joints}
use odrive_ros2_control.Interface.Read.{read_joint}
use odrive_ros2_control.Tests.Data.{number, accepting, gone, elbow, safety, stats, active, limits}

abbrev elbow_slot : Slot Exact Exact
elbow_slot = record {
  static = record {
    serial_number = elbow.serial_number;
    axis = elbow.axis;
    invert_axis = true;
    enable_watchdog = true;
    torque_constant = number 1;
    command_limits = limits;
    feedback_limits = elbow.feedback_limits;
  };
  memory = record {
    last_command_position = number 0;
    last_command_velocity = number 0;
    last_command_effort = number 0;
    last_sent_command_sequence = none;
    last_valid_position = number 0;
    last_valid_velocity = number 0;
    axis_faulted = false;
    idle_requested_on_fault = false;
  };
  telemetry = record {
    position = number 3;
    velocity = number 0;
    effort = number 0;
    axis_error = number 0;
    motor_error = number 0;
    encoder_error = number 0;
    controller_error = number 0;
    fet_temperature = number 40;
    motor_temperature = number 40;
    read_error = number 0;
    write_error = number 0;
    telemetry_valid = number 1;
    healthy = number 1;
    position_rate_limited = number 0;
    velocity_rate_limited = number 0;
    effort_rate_limited = number 0;
  };
}

-- The same with its watchdog expired.
abbrev faulty_slot : Slot Exact Exact
faulty_slot = record elbow_slot {
  telemetry = record (elbow_slot.telemetry) { axis_error = number 2048 };
}

abbrev elbow_command : JointCommand Exact
elbow_command = record {
  command_position = elbow.command_position;
  command_velocity = elbow.command_velocity;
  command_effort = elbow.command_effort;
  control_level = elbow.control_level;
  command_sequence = elbow.command_sequence;
}

abbrev cycle_at : CycleInstants
cycle_at = record { start = 100; event = 200; read_done = 300; write_done = 400 }

abbrev enabled : Interface Exact Exact
enabled = record active {
  runtime_config = record (active.runtime_config) { enable_async_io = true };
}

-- The worker waits, with the buffers as they are for two joints.
abbrev buffers : AsyncIo Exact Exact
buffers = record {
  stop = false;
  request_pending = true;
  in_flight = false;
  cycle_start = 0;
  joint_static = elbow_slot.static ∷ faulty_slot.static ∷ [];
  latest_command = record { dt_s = number 1; joints = elbow_command ∷ elbow_command ∷ [] };
  latest_telemetry = record {
    stamp = 0;
    transport_ok = true;
    transport_error = ℤ.pos 0;
    sensors = record { vbus_voltage = none; transport_error = none } ∷ [];
    drives = record { can_error = 0; can_error_read_error = number 0 } ∷ [];
    joints = elbow_slot.telemetry ∷ faulty_slot.telemetry ∷ [];
    cycle_stats = stats;
  };
  memory = elbow_slot.memory ∷ faulty_slot.memory ∷ [];
}

abbrev waiting : System Exact Exact
waiting = record { interface = enabled; io = buffers; thread = Thread.waiting; log = [] }

elbow_slot-IsCleared : IsCleared exact elbow_slot
elbow_slot-IsCleared = record { position_clear = refl; velocity_clear = refl; effort_clear = refl }

faulty_slot-IsCleared : IsCleared exact faulty_slot
faulty_slot-IsCleared = record { position_clear = refl; velocity_clear = refl; effort_clear = refl }

write_slot-write_joint_example :
    slot_effect exact
      (write_slot exact safety accepting (number 1) elbow_command elbow_slot stats [])
    ≡ sync_effect exact (
        write_joint exact safety accepting
          (number 1)
          (joint_of exact elbow_command elbow_slot)
          (some false)
          (some false)
          stats
          [])
write_slot-write_joint_example =
    write_slot-write_joint exact safety accepting (number 1) elbow_command elbow_slot stats []
      elbow_slot-IsCleared

write_slots-write_joints_example :
    slots_effect exact (
      write_slots exact safety accepting
        (number 1)
        (elbow_command ∷ [])
        (elbow_slot ∷ faulty_slot ∷ [])
        stats
        [])
    ≡ joints_effect exact (
        write_joints exact safety accepting
          (number 1)
          (joints_of exact (elbow_command ∷ []) (elbow_slot ∷ faulty_slot ∷ []))
          (false ∷ false ∷ [])
          (false ∷ false ∷ [])
          stats
          [])
write_slots-write_joints_example =
    write_slots-write_joints exact safety accepting (number 1) (elbow_command ∷ [])
      (elbow_slot ∷ faulty_slot ∷ []) stats [] (elbow_slot-IsCleared, (faulty_slot-IsCleared, tt))

read_slot-read_joint_example :
    (read_slot exact accepting elbow_slot []).2
    ≡ (read_joint exact accepting (joint_of exact elbow_command elbow_slot) [] []).2
read_slot-read_joint_example =
    (read_slot-read_joint exact accepting elbow_command elbow_slot [] []).0

abbrev work : Work Exact Exact
work = record {
  ended = false;
  stamp = 100;
  transport_ok = true;
  transport_error = ℤ.pos 0;
  sensors = [];
  drives = [];
  slots = elbow_slot ∷ faulty_slot ∷ [];
  cycle_stats = stats;
}

cycle-IsReportedSlot_example :
    Each
      (IsReportedSlot exact accepting)
      work.slots
      (write_phase exact gone cycle_at buffers.latest_command enabled
        (read_phase exact accepting cycle_at enabled work []).1
        []).1.slots
cycle-IsReportedSlot_example =
    cycle-IsReportedSlot exact accepting gone cycle_at buffers.latest_command enabled enabled work
      [] [] exact-IsIeee

async_io_stop_and_join_ends_example :
    let before =
      Event.working accepting cycle_at
      ∷ Event.writing (number 1)
      ∷ Event.working accepting cycle_at
      ∷ Event.working accepting cycle_at
      ∷ [] in
    let after = Event.writing (number 1) ∷ Event.working accepting cycle_at ∷ [] in
    let s1 = run exact before (step exact Event.stopping waiting) in
    let s2 = step exact Event.joining s1 in
    let s3 = run exact after s2 in
    (s1.thread ≡ Thread.finished)
    × (s2.io.stop ≡ false)
    × (s2.io.request_pending ≡ false)
    × (s2.io.in_flight ≡ false)
    × (s3.thread ≡ Thread.absent)
    × (s3.log ≡ s1.log)
async_io_stop_and_join_ends_example =
    async_io_stop_and_join_ends exact waiting
      (Event.working accepting cycle_at
        ∷ Event.writing (number 1)
        ∷ Event.working accepting cycle_at
        ∷ Event.working accepting cycle_at
        ∷ [])
      (Event.writing (number 1) ∷ Event.working accepting cycle_at ∷ []) refl
      (refl, (refl, (refl, (refl, tt)))) (omega arith) (refl, (refl, tt))

waiting-IsSound : IsSound exact waiting
waiting-IsSound = record {
  memories = refl;
  telemetries = refl;
  phased = IsPhased.waiting_phase refl;
}

run-IsSound_example : IsSound exact (
    run exact
      (Event.working accepting cycle_at
        ∷ Event.stopping
        ∷ Event.working accepting cycle_at
        ∷ Event.reading 1 2 3
        ∷ Event.working gone cycle_at
        ∷ [])
      waiting)
run-IsSound_example =
    run-IsSound exact
      (Event.working accepting cycle_at
        ∷ Event.stopping
        ∷ Event.working accepting cycle_at
        ∷ Event.reading 1 2 3
        ∷ Event.working gone cycle_at
        ∷ [])
      waiting waiting-IsSound

mode_switch_replays_example :
    let s' = run exact (switch_with_worker exact accepting accepting cycle_at cycle_at) waiting in
    (taken_command s'.thread ≡ some buffers.latest_command)
    × (s'.interface ≡ (perform_command_mode_switch exact accepting enabled []).1)
    × (s'.log ≡ (perform_command_mode_switch exact accepting enabled []).2)
mode_switch_replays_example =
    mode_switch_replays exact accepting accepting cycle_at cycle_at waiting refl refl
