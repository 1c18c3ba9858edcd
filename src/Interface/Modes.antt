-- ===== src/Interface/Modes.antt =====
-- `prepare_command_mode_switch`: the modes that the interfaces ask for.
pub mod Named
pub mod Asked
use odrive_ros2_control.Prelude.{
  ℕ, Bool, true, false, String, Option, none, some, List, [], ◌∷◌, map, if◌then◌else◌, ◌==◌ as ◌=ℕ◌,
}
use Prim.Native.Char.{code}
use text.Mathlib.Text.{◌==◌}
use odrive_ros2_control.AxisControl.{AxisControlLevel}
use odrive_ros2_control.Interface.{JointContext, Interface}

-- A key at its first `/`, if there is one.
abbrev pub split_key : String → Option (String × String)
split_key String.[] = none
split_key (String.◌∷◌ c s) = elim (split_key s) [
  | none ↦ if code c =ℕ 47 then some (String.[], s) else none
  | some (name, interface) ↦
      if code c =ℕ 47 then some (String.[], s) else some (String.◌∷◌ c name, interface)
]

unfoldable pub parse_interface_key : String → String × String
parse_interface_key key = elim (split_key key) [ none ↦ ("", "") | some pair ↦ pair ]

-- The change of the element whose joint has the name: `find_joint_index` takes the first. A name that
-- no joint has changes nothing, since there is a joint for each name of `info_.joints`.
abbrev pub update_named {ℓ} :
    {A : Type ℓ} → String → (A → A) → (names : List String) → List A → List A
update_named name f (n ∷ names) (x ∷ xs) =
    if n == name then f x ∷ xs else x ∷ update_named name f names xs
update_named name f _ xs = xs

pub record RequestedModes : Type 0 where
  pub effort : Bool
  pub velocity : Bool
  pub position : Bool

abbrev pub no_request : RequestedModes
no_request = record { effort = false; velocity = false; position = false }

-- The interface names are those of ros2_control.
unfoldable pub add_request : String → RequestedModes → RequestedModes
add_request interface r =
    if interface == "position"
    then record r { position = true }
    else if interface == "velocity"
    then record r { velocity = true }
    else if interface == "effort"
    then record r { effort = true }
    else r

unfoldable pub requested_level : RequestedModes → AxisControlLevel → AxisControlLevel
requested_level r level =
    if r.position
    then AxisControlLevel.position
    else if r.velocity
    then AxisControlLevel.velocity
    else if r.effort
    then AxisControlLevel.effort
    else level

-- The loop over the keys that are requested.
unfoldable pub request_modes :
    (names : List String)
    → (start_interfaces : List String) → List RequestedModes
    → List RequestedModes
unfolding parse_interface_key add_request
request_modes names [] modes = modes
request_modes names (key ∷ keys) modes =
    let (name, interface) = parse_interface_key key in
    request_modes names keys (update_named name (add_request interface) names modes)

module _ {W F : Type 0} where
  abbrev pub set_level : AxisControlLevel → JointContext W F → JointContext W F
  set_level level j = record j { control_level = level }

  -- The loop over the keys that are stopped.
  unfoldable pub stop_joints :
      (names : List String)
      → (stop_interfaces : List String) → List (JointContext W F)
      → List (JointContext W F)
  unfolding parse_interface_key
  stop_joints names [] joints = joints
  stop_joints names (key ∷ keys) joints =
      stop_joints names keys (
        update_named (parse_interface_key key).0 (set_level AxisControlLevel.undefined) names
          joints)

  -- The loop over the joints.
  unfoldable pub apply_requests :
      List RequestedModes → List (JointContext W F) → List (JointContext W F)
  unfolding requested_level
  apply_requests (r ∷ requests) (j ∷ joints) =
      set_level (requested_level r j.control_level) j ∷ apply_requests requests joints
  apply_requests _ joints = joints

  -- It always returns `OK`.
  unfoldable pub prepare_command_mode_switch :
      (start_interfaces stop_interfaces : List String) → Interface W F → Interface W F
  unfolding stop_joints request_modes apply_requests
  prepare_command_mode_switch start_interfaces stop_interfaces s =
      let stopped = stop_joints s.joint_names stop_interfaces s.joints in
      let modes =
        request_modes s.joint_names start_interfaces
          (map (λ (j : JointContext W F). no_request) s.joints) in
      record s { joints = apply_requests modes stopped }
