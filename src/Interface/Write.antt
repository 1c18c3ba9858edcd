-- ===== src/Interface/Write.antt =====
-- `write`, the synchronous path.
pub mod Sending
pub mod Gating
pub mod Masking
pub mod Sequence
pub mod Inversion
use odrive_ros2_control.Prelude.{
  ℕ, ◌-◌, Bool, true, false, not, ◌&&◌, ◌||◌, String, Option, none, some, List, [], ◌∷◌, head?,
  tail, cons?, if◌then◌else◌, has_value,
}
use Prim.Native.String.{◌++◌ as ◌^^◌}
use odrive_ros2_control.Prelude.Int.{ℤ, pos, eq_ℤ}
use odrive_ros2_control.Fpu.{Fpu, zero_of, one_of, minus_one_of}
use odrive_ros2_control.Endpoints.{axis_endpoint, axis__requested_state}
use odrive_ros2_control.Transport.{Log, Transport, write, int32, perform}
use odrive_ros2_control.TransportError.{is_fail_fast_transport_error}
use odrive_ros2_control.Retry.{add_size}
use odrive_ros2_control.AxisControl.{
  AxisControlLevel, AxisCommandState, Outcome, is_undefined, axis_state_idle, write_axis_command,
}
use odrive_ros2_control.Interface.{SafetyConfig, JointContext, CycleStats, Interface, Instants}
use odrive_ros2_control.Interface.Health.{update_transport_health}
use odrive_ros2_control.Interface.Command.{
  limiting_period, command_state, has_fault, invert_commands, is_stale, prepare_command,
}

-- What one joint's round leaves: the joint, its two fault flags where the vectors have them, the
-- statistics, the status and stage of a failure that ends the cycle, and the history.
pub record Round (W F : Type 0) : Type 0 where
  pub joint : JointContext W F
  pub faulted : Option Bool
  pub idle_requested : Option Bool
  pub stats : CycleStats W
  pub lost : Option (ℤ × String)
  pub log : Log F

-- What the loop over the joints leaves.
pub record Rounds (W F : Type 0) : Type 0 where
  pub joints : List (JointContext W F)
  pub faulted : List Bool
  pub idle_requested : List Bool
  pub stats : CycleStats W
  pub lost : Option (ℤ × String)
  pub log : Log F

-- A flag that is set where the vector is long enough.
abbrev pub assign : Bool → Option Bool → Option Bool
assign b none = none
assign b (some old) = some b

-- `i < v.size() && !v[i]`
abbrev pub is_unset : Option Bool → Bool
is_unset none = false
is_unset (some b) = not b

module _ {W F : Type 0} (u : Fpu W F) where
  open u use {of_int, eq, lt, seconds}

  module _ (c : SafetyConfig) (t : Transport F) where
    -- The branch of a faulted joint: the flag, and one request for idle for each fault.
    unfoldable pub mask_joint :
        JointContext W F → Option Bool → Option Bool → CycleStats W → Log F → Round W F
    unfolding perform
    mask_joint j faulted idle stats log =
        let masked : Round W F = record {
          joint = j;
          faulted = assign true faulted;
          idle_requested = idle;
          stats = stats;
          lost = none;
          log = log;
        } in
        let (status, log') =
          perform t
            (write j.serial_number (axis_endpoint axis__requested_state j.axis)
              (int32 axis_state_idle))
            log in
        let failed = record masked {
          joint = record j { write_error = of_int status };
          lost =
              if is_fail_fast_transport_error status
              then some (status, "requesting axis idle state")
              else none;
          log = log';
        } in
        if c.request_idle_on_axis_fault && is_unset idle
        then if eq_ℤ status (pos 0)
          then record masked { idle_requested = some true; log = log' }
          else failed
        else masked

    -- The branch that sends the command.
    unfoldable pub send_command :
        JointContext W F → Option Bool → Option Bool → CycleStats W → Log F → Round W F
    unfolding invert_commands
    send_command j faulted idle stats log =
        let j' = invert_commands u j in
        let round : Round W F = record {
          joint = j';
          faulted = faulted;
          idle_requested = idle;
          stats = stats;
          lost = none;
          log = log;
        } in
        let (o, log') =
          write_axis_command u t j'.serial_number j'.axis j'.control_level (command_state u j')
            j'.enable_watchdog log in
        if eq_ℤ o.status (pos 0)
        then record round {
          joint = record j' {
            write_error = zero_of u;
            last_sent_command_sequence =
                if c.gate_stale_commands_with_command_sequence
                then j'.command_sequence
                else j'.last_sent_command_sequence;
            last_command_position = j'.command_position;
            last_command_velocity = j'.command_velocity;
            last_command_effort = j'.command_effort;
          };
          log = log';
        }
        else record round {
          joint = record j' { write_error = of_int o.status };
          lost =
              if is_fail_fast_transport_error o.status
              then some (o.status, "writing axis command (" ^^ (o.failing_stage ^^ ")"))
              else none;
          log = log';
        }

    unfoldable pub write_joint :
        W → JointContext W F → Option Bool → Option Bool → CycleStats W → Log F → Round W F
    unfolding prepare_command mask_joint send_command is_stale has_fault
    write_joint dt j faulted idle stats log =
        let (ready, stats') = prepare_command u dt j stats in
        if has_fault u c j
        then mask_joint ready faulted idle stats' log
        else if c.gate_stale_commands_with_command_sequence && is_stale u ready
        then record {
          joint = record ready { write_error = zero_of u };
          faulted = assign false faulted;
          idle_requested = assign false idle;
          stats = stats';
          lost = none;
          log = log;
        }
        else send_command ready (assign false faulted) (assign false idle) stats' log

    -- The loop over the joints, with the two vectors of flags.
    unfoldable pub write_joints :
        W → List (JointContext W F) → List Bool → List Bool → CycleStats W → Log F → Rounds W F
    write_joints dt [] faulted idle stats log = record {
      joints = [];
      faulted = faulted;
      idle_requested = idle;
      stats = stats;
      lost = none;
      log = log;
    }
    write_joints dt (j ∷ joints) faulted idle stats log =
        let round = write_joint dt j (head? faulted) (head? idle) stats log in
        let rest = write_joints dt joints (tail faulted) (tail idle) round.stats round.log in
        elim round.lost [
          | none ↦ record {
            joints = round.joint ∷ rest.joints;
            faulted = cons? round.faulted rest.faulted;
            idle_requested = cons? round.idle_requested rest.idle_requested;
            stats = rest.stats;
            lost = rest.lost;
            log = rest.log;
          }
          | some failure ↦ record {
            joints = round.joint ∷ joints;
            faulted = cons? round.faulted (tail faulted);
            idle_requested = cons? round.idle_requested (tail idle);
            stats = round.stats;
            lost = some failure;
            log = round.log;
          }
        ]

  unfoldable pub count_write_cycle : Instants → Interface W F → Interface W F
  count_write_cycle at s =
      let stats = s.cycle_stats in
      let duration = seconds (at.finish - at.start) in
      record s {
        cycle_stats = record stats {
          write_cycles = add_size stats.write_cycles 1;
          max_write_cycle_time_sec =
              if lt stats.max_write_cycle_time_sec duration
              then duration
              else stats.max_write_cycle_time_sec;
          write_deadline_misses =
              if s.runtime_config.enable_deadline_warnings
                && lt s.runtime_config.max_write_cycle_time_sec duration
              then add_size stats.write_deadline_misses 1
              else stats.write_deadline_misses;
        };
      }

  -- The transport is offline, with this status and context.
  unfoldable pub report_offline : ℤ → String → ℕ → Interface W F → Interface W F
  report_offline status context now s = record s {
    transport_log_state =
        (update_transport_health u s.runtime_config.transport_summary_period_sec false status
          context now s.transport_log_state).1;
  }

  unfoldable pub lifecycle_ok : Interface W F → Bool
  lifecycle_ok s = not s.safety_config.gate_outputs_with_lifecycle || s.outputs_enabled

  -- `write` on the synchronous path, which always returns `OK`.
  unfoldable pub write_sync :
      Transport F → Instants → W → Interface W F → Log F → Interface W F × Log F
  unfolding limiting_period write_joints count_write_cycle report_offline lifecycle_ok
  write_sync t at period s log =
      let r =
        write_joints s.safety_config t (limiting_period u period) s.joints s.axis_faulted
          s.idle_requested_on_fault s.cycle_stats log in
      let written = record s {
        joints = r.joints;
        axis_faulted = r.faulted;
        idle_requested_on_fault = r.idle_requested;
        cycle_stats = r.stats;
      } in
      if not s.connected
      then (report_offline (pos 0) "write() with no transport" at.event s, log)
      else if not (lifecycle_ok s)
      then (s, log)
      else elim r.lost [
        | none ↦ (count_write_cycle at written, r.log)
        | some (status, context) ↦
            (record (report_offline status context at.event written) { connected = false }, r.log)
      ]
