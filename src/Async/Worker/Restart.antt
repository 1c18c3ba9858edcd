-- ===== src/Async/Worker/Restart.antt =====
-- The worker around a mode switch: `perform_command_mode_switch` stops it and starts it again.
use odrive_ros2_control.Prelude.{
  true, ◌≡◌, refl, ◌∙◌, inl, inr, Option, none, some, List, [], ◌∷◌, Bool-cases,
}
use odrive_ros2_control.Fpu.{Fpu}
use odrive_ros2_control.Transport.{Log, Transport}
use odrive_ros2_control.Interface.{Interface}
use odrive_ros2_control.Interface.ModeSwitch.{perform_command_mode_switch}
use odrive_ros2_control.Async.{AsyncCommandSnapshot, CycleInstants}
use odrive_ros2_control.Async.Worker.{
  Thread, System, Event, step, run, advance, take_command, request_stop, join, async_io_start,
}

-- The command of the cycle that the worker is in.
abbrev pub taken_command : {W F : Type 0} → Thread W F → Option (AsyncCommandSnapshot W)
taken_command (Thread.reading command work) = some command
taken_command (Thread.writing command work) = some command
taken_command _ = none

module _ {W F : Type 0} (u : Fpu W F) where
  enable_async_io-perform_command_mode_switch :
      (t : Transport F) (s : Interface W F) (log : Log F)
      → (perform_command_mode_switch u t s log).1.runtime_config.enable_async_io
        ≡ s.runtime_config.enable_async_io
  unfolding perform_command_mode_switch
  enable_async_io-perform_command_mode_switch t s log = elim (Bool-cases s.connected) [
    | inl e ↦ rw e refl
    | inr e ↦ rw e refl
  ]

  -- A mode switch in the asynchronous mode, while the worker waits: the worker ends and is joined,
  -- the modes are switched, and the worker is started and takes a command.
  abbrev pub switch_with_worker :
      Transport F → Transport F → CycleInstants → CycleInstants → List (Event u)
  switch_with_worker t t' at at' =
      Event.stopping
      ∷ Event.working t at
      ∷ Event.joining
      ∷ Event.switching t'
      ∷ Event.starting
      ∷ Event.working t at'
      ∷ []

  -- A mode switch in the asynchronous mode, while the worker waits, ends with the worker in a cycle
  -- on the command that was the latest before the switch, with the modes and the setpoints from
  -- before it: `write` has not been called since, whatever the mode switch made of the joints.
  pub mode_switch_replays :
      (t t' : Transport F) (at at' : CycleInstants) (s : System W F)
      → s.thread ≡ Thread.waiting
      → s.interface.runtime_config.enable_async_io ≡ true
      → let s' = run u (switch_with_worker t t' at at') s in
        (taken_command s'.thread ≡ some s.io.latest_command)
        × (s'.interface ≡ (perform_command_mode_switch u t' s.interface s.log).1)
        × (s'.log ≡ (perform_command_mode_switch u t' s.interface s.log).2)
  unfolding run step request_stop join advance take_command async_io_start
  mode_switch_replays t t' at at' s waiting enabled =
      let on = enable_async_io-perform_command_mode_switch t' s.interface s.log ∙ enabled in
      rw (waiting, on) (refl, refl, refl)
