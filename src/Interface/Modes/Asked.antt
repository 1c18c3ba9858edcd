-- ===== src/Interface/Modes/Asked.antt =====
-- The mode that `prepare_command_mode_switch` gives to each joint.
use odrive_ros2_control.Prelude.{Bool, false, ◌&&◌, ◌||◌, String, List, [], ◌∷◌, if◌then◌else◌}
use text.Mathlib.Text.{◌==◌}
use odrive_ros2_control.AxisControl.{AxisControlLevel}
use odrive_ros2_control.Interface.{JointContext, Interface}
use odrive_ros2_control.Interface.Modes.{parse_interface_key, RequestedModes, set_level}

-- A key asks for something of the joint `name`, and for this interface of it.
abbrev pub is_of : String → String → Bool
is_of name key = name == (parse_interface_key key).0

abbrev pub any : (String → Bool) → List String → Bool
any p [] = false
any p (key ∷ keys) = p key || any p keys

abbrev pub asks_for : String → String → List String → Bool
asks_for name interface = any (λ key. is_of name key && (parse_interface_key key).1 == interface)

-- The mode of a joint after the switch is prepared.
abbrev pub prepared_level :
    (start_interfaces stop_interfaces : List String) → String → AxisControlLevel → AxisControlLevel
prepared_level starts stops name level =
    if asks_for name "position" starts
    then AxisControlLevel.position
    else if asks_for name "velocity" starts
    then AxisControlLevel.velocity
    else if asks_for name "effort" starts
    then AxisControlLevel.effort
    else if any (is_of name) stops
    then AxisControlLevel.undefined
    else level

-- What the keys add to a joint's requests.
abbrev collect : List String → String → RequestedModes → RequestedModes
collect starts name r = record {
  effort = r.effort || asks_for name "effort" starts;
  velocity = r.velocity || asks_for name "velocity" starts;
  position = r.position || asks_for name "position" starts;
}

module _ {W F : Type 0} where
  abbrev stop_if : List String → String → JointContext W F → JointContext W F
  stop_if stops name j =
      if any (is_of name) stops then set_level AxisControlLevel.undefined j else j

  -- The joint with the mode that is asked of it.
  abbrev pub with_prepared_level :
      List String → List String → String → JointContext W F → JointContext W F
  with_prepared_level starts stops name j =
      set_level (prepared_level starts stops name j.control_level) j
