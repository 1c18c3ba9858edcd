-- ===== src/Interface/Session.antt =====
-- A session of the interface: the calls of its methods by ros2_control in any order, with any
-- transport and any times, and what controllers and `prepare_command_mode_switch` do to the joints
-- between them.
pub mod Lengths
pub mod Shape
use odrive_ros2_control.Prelude.{ℕ, Bool, List, map}
use odrive_ros2_control.Prelude.Int.{ℤ}
use odrive_ros2_control.Fpu.{Fpu}
use odrive_ros2_control.Transport.{Log, Transport}
use odrive_ros2_control.Interface.{JointContext, Interface, Instants}
use odrive_ros2_control.Interface.Read.{read_sync}
use odrive_ros2_control.Interface.Write.{write_sync}
use odrive_ros2_control.Interface.ModeSwitch.{perform_command_mode_switch}
use odrive_ros2_control.Interface.Lifecycle.{on_activate, on_deactivate, on_cleanup, recover}

module _ {W F : Type 0} (u : Fpu W F) where
  pub data Step (s : Interface W F) (log : Log F) : Interface W F → Log F → Type 0 where
    reading :
        (t : Transport F) (at : Instants)
        → Step s log (read_sync u t at s log).0 (read_sync u t at s log).1
    writing :
        (t : Transport F) (at : Instants) (period : W)
        → Step s log (write_sync u t at period s log).0 (write_sync u t at period s log).1
    switching :
        (t : Transport F)
        → Step s log
            (perform_command_mode_switch u t s log).1
            (perform_command_mode_switch u t s log).2
    activating :
        (t : Transport F) (created : Bool) (init_status : ℤ) (now later : ℕ)
        → Step s log
            (on_activate u t created init_status now later s log).1
            (on_activate u t created init_status now later s log).2
    deactivating :
        (t : Transport F) → Step s log (on_deactivate u t s log).0 (on_deactivate u t s log).1
    cleaning : Step s log (on_cleanup u s) log
    recovering : Step s log (recover u s) log
    -- The command interfaces and the modes are assigned, joint by joint.
    commanding :
        (f : JointContext W F → JointContext W F)
        → Step s log (record s { joints = map f s.joints }) log

  -- What a session can reach.
  pub data Reachable (s : Interface W F) (log : Log F) : Interface W F → Log F → Type 0 where
    start : Reachable s log s log
    then_step :
        (s1 : Interface W F) (log1 : Log F) {s2 : Interface W F} {log2 : Log F}
        → Reachable s log s1 log1
        → Step s1 log1 s2 log2
        → Reachable s log s2 log2
