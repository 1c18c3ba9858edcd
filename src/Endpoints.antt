-- ===== src/Endpoints.antt =====
-- odrive_hardware_interface/include/odrive_hardware_interface/{odrive_endpoints,axis_utils}.hpp:
-- the endpoint numbers that the driver uses, and the two axes' offset.
use odrive_ros2_control.Prelude.{ℕ}
use odrive_ros2_control.Prelude.Int.{ℤ, pos, ◌+ℤ◌, ◌*ℤ◌, to_int16}

abbrev pub per_axis_offset : ℕ
per_axis_offset = 229

-- `std::int16_t axis_endpoint(std::int16_t base, int axis)`
unfoldable pub axis_endpoint : ℕ → ℤ → ℤ
unfolding to_int16 ◌+ℤ◌ ◌*ℤ◌
axis_endpoint base axis = to_int16 (pos base +ℤ pos per_axis_offset *ℤ axis)

abbrev pub vbus_voltage : ℕ
vbus_voltage = 1

abbrev pub serial_number : ℕ
serial_number = 4

abbrev pub axis__error : ℕ
axis__error = 71

abbrev pub axis__requested_state : ℕ
axis__requested_state = 74

abbrev pub axis__config__watchdog_timeout : ℕ
axis__config__watchdog_timeout = 87

abbrev pub axis__config__enable_watchdog : ℕ
axis__config__enable_watchdog = 88

abbrev pub axis__fet_thermistor__temperature : ℕ
axis__fet_thermistor__temperature = 118

abbrev pub axis__motor_thermistor__temperature : ℕ
axis__motor_thermistor__temperature = 123

abbrev pub axis__motor__error : ℕ
axis__motor__error = 132

abbrev pub axis__motor__current_control__iq_measured : ℕ
axis__motor__current_control__iq_measured = 150

abbrev pub axis__motor__config__torque_constant : ℕ
axis__motor__config__torque_constant = 177

abbrev pub axis__controller__error : ℕ
axis__controller__error = 193

abbrev pub axis__controller__input_pos : ℕ
axis__controller__input_pos = 194

abbrev pub axis__controller__input_vel : ℕ
axis__controller__input_vel = 195

abbrev pub axis__controller__input_torque : ℕ
axis__controller__input_torque = 196

abbrev pub axis__controller__config__control_mode : ℕ
axis__controller__config__control_mode = 208

abbrev pub axis__encoder__error : ℕ
axis__encoder__error = 236

abbrev pub axis__encoder__pos_estimate : ℕ
axis__encoder__pos_estimate = 243

abbrev pub axis__encoder__vel_estimate : ℕ
axis__encoder__vel_estimate = 249

abbrev pub axis__watchdog_feed : ℕ
axis__watchdog_feed = 298

abbrev pub axis__clear_errors : ℕ
axis__clear_errors = 299

abbrev pub can__error : ℕ
can__error = 529
