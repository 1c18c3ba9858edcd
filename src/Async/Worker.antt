-- ===== src/Async/Worker.antt =====
-- The worker thread: `async_io_start`, `async_io_stop_and_join`, and `async_io_thread_main` as a
-- sequence of steps between those of the controller's threads. A phase of a cycle is one step: while
-- the worker runs it alone uses the transport, and what it shares with `read` and `write` it only
-- touches, under the mutex, when it takes a command and when it publishes a snapshot.
pub mod Lengths
pub mod Phases
pub mod Stopping
pub mod Restart
use odrive_ros2_control.Prelude.{
  ℕ, ◌+◌, Bool, true, false, not, ◌&&◌, List, [], ◌∷◌, map, if◌then◌else◌,
}
use odrive_ros2_control.Prelude.Int.{ℤ}
use odrive_ros2_control.Fpu.{Fpu}
use odrive_ros2_control.Transport.{Log, Transport}
use odrive_ros2_control.Interface.{JointContext, Interface}
use odrive_ros2_control.Interface.Lifecycle.{
  initialize_transport, on_activate, on_deactivate, on_cleanup, recover,
}
use odrive_ros2_control.Interface.ModeSwitch.{perform_command_mode_switch}
use odrive_ros2_control.Async.{AsyncCommandSnapshot, AsyncIo, Work, CycleInstants}
use odrive_ros2_control.Async.Buffers.{async_io_init_buffers, begin_cycle, publish_cycle}
use odrive_ros2_control.Async.Reading.{read_phase}
use odrive_ros2_control.Async.Writing.{write_phase}
use odrive_ros2_control.Async.Exchange.{read_async, write_async}

-- Where the worker is: not there, before it takes a command, before the read phase or the write
-- phase of a cycle, or at its end and to be joined.
pub data Thread (W F : Type 0) : Type 0 where
  absent waiting finished : Thread W F
  reading writing : AsyncCommandSnapshot W → Work W F → Thread W F

pub record System (W F : Type 0) : Type 0 where
  pub interface : Interface W F
  pub io : AsyncIo W F
  pub thread : Thread W F
  pub log : Log F

-- `async_io_thread_.joinable()`
abbrev pub joinable : {W F : Type 0} → Thread W F → Bool
joinable Thread.absent = false
joinable _ = true

abbrev pub is_finished : {W F : Type 0} → Thread W F → Bool
is_finished Thread.finished = true
is_finished _ = false

module _ {W F : Type 0} (u : Fpu W F) where
  -- `async_io_start`: a request is pending from the start.
  unfoldable pub async_io_start : System W F → System W F
  async_io_start s =
      if not s.interface.runtime_config.enable_async_io
      then s
      else if joinable s.thread
      then s
      else record s {
        io = record (s.io) {
          stop = false;
          request_pending = true;
          in_flight = false;
          cycle_start = 0;
        };
        thread = Thread.waiting;
      }

  abbrev settle : System W F → System W F
  settle s = record s {
    io = record (s.io) { stop = false; request_pending = false; in_flight = false };
  }

  -- `async_io_stop_and_join` up to the join.
  unfoldable pub request_stop : System W F → System W F
  request_stop s =
      if not (joinable s.thread)
      then settle s
      else record s { io = record (s.io) { stop = true; request_pending = true } }

  -- The join and the rest: it waits until the worker has ended.
  unfoldable pub join : System W F → System W F
  join s = if is_finished s.thread then record (settle s) { thread = Thread.absent } else s

  -- The top of the loop: the worker waits, ends, or takes the latest command.
  unfoldable pub take_command : CycleInstants → System W F → System W F
  unfolding begin_cycle
  take_command at s =
      let taken = record (s.io) {
        request_pending = false;
        in_flight = true;
        cycle_start = at.start;
      } in
      if s.io.stop
      then record s { io = record (s.io) { in_flight = false }; thread = Thread.finished }
      else if s.io.request_pending
      then record s {
        io = taken;
        thread =
            Thread.reading s.io.latest_command (begin_cycle u s.interface.connected at.start taken);
      }
      else s

  -- The next step of the worker.
  unfoldable pub advance : Transport F → CycleInstants → Thread W F → System W F → System W F
  unfolding take_command read_phase write_phase publish_cycle
  advance t at Thread.absent s = s
  advance t at Thread.finished s = s
  advance t at Thread.waiting s = take_command at s
  advance t at (Thread.reading command work) s =
      let (interface, work', log) = read_phase u t at s.interface work s.log in
      record s { interface = interface; thread = Thread.writing command work'; log = log }
  advance t at (Thread.writing command work) s =
      let (interface, work', log) = write_phase u t at command s.interface work s.log in
      record s {
        interface = interface;
        io = publish_cycle work' s.io;
        thread = Thread.waiting;
        log = log;
      }

  -- What can happen next: a step of the worker; `read`; `write`; controllers assign commands and
  -- modes; the outputs are enabled or disabled; the two halves of `async_io_stop_and_join`; and the
  -- rest of the methods that call it, or that find no worker: a mode switch and the `async_io_start`
  -- after it, `on_activate`, `on_deactivate`, `on_cleanup` and `recover`, each with its own use of the
  -- transport. These wait for the join, so that they change nothing while there is a worker.
  pub data Event : Type 0 where
    working : Transport F → CycleInstants → Event
    reading : (now event diagnosis : ℕ) → Event
    writing : W → Event
    commanding : (JointContext W F → JointContext W F) → Event
    enabling : Bool → Event
    stopping joining starting cleaning recovering : Event
    switching deactivating : Transport F → Event
    activating : Transport F → (created : Bool) → (init_status : ℤ) → (now later : ℕ) → Event

  -- `on_activate` with its end: the worker is started if the transport is, no error is left, and the
  -- asynchronous mode is configured.
  unfoldable pub activate :
      Transport F → (created : Bool) → (init_status : ℤ) → (now later : ℕ) → System W F → System W F
  unfolding async_io_start async_io_init_buffers on_activate initialize_transport
  activate t created init_status now later s =
      let started = (initialize_transport u t created init_status now later s.interface s.log).0 in
      let (ok, interface, log) = on_activate u t created init_status now later s.interface s.log in
      let active : System W F = record s { interface = interface; log = log } in
      if started && ok && interface.runtime_config.enable_async_io
      then async_io_start (record active { io = async_io_init_buffers u interface s.io })
      else active

  unfoldable pub step : Event → System W F → System W F
  unfolding advance read_async write_async request_stop join async_io_start activate on_deactivate
      on_cleanup recover
  step (Event.working t at) s = advance t at s.thread s
  step (Event.reading now event diagnosis) s = record s {
    interface = read_async u now event diagnosis s.io s.interface;
  }
  step (Event.writing period) s = record s { io = write_async u period s.interface s.io }
  step (Event.commanding f) s = record s {
    interface = record (s.interface) { joints = map f s.interface.joints };
  }
  step (Event.enabling b) s = record s { interface = record (s.interface) { outputs_enabled = b } }
  step Event.stopping s = request_stop s
  step Event.joining s = join s
  step Event.starting s = async_io_start s
  step Event.cleaning s =
      if joinable s.thread then s else record s { interface = on_cleanup u s.interface }
  step Event.recovering s =
      if joinable s.thread then s else record s { interface = recover u s.interface }
  step (Event.activating t created init_status now later) s =
      if joinable s.thread then s else activate t created init_status now later s
  step (Event.deactivating t) s =
      if joinable s.thread
      then s
      else let (interface, log) = on_deactivate u t s.interface s.log in
        record s { interface = interface; log = log }
  step (Event.switching t) s =
      if joinable s.thread
      then s
      else let (r, interface, log) = perform_command_mode_switch u t s.interface s.log in
        record s { interface = interface; log = log }

  unfoldable pub run : List Event → System W F → System W F
  unfolding step
  run [] s = s
  run (e ∷ events) s = run events (step e s)
