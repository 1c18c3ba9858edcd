-- ===== src/TransportError.antt =====
-- odrive_hardware_interface/include/odrive_hardware_interface/transport_error.hpp: the classes of
-- transport errors, and libusb's own codes as the USB transport returns them.
pub mod Classes
use odrive_ros2_control.Prelude.{Bool, true, false, String, if◌then◌else◌}
use odrive_ros2_control.Prelude.Int.{ℤ, pos, negsuc, eq_ℤ}

pub data TransportError : Type 0 where
  success device_not_found permission_denied invalid_parameter timeout busy : TransportError
  io_error protocol_error endpoint_not_supported unknown : TransportError

-- The value of the C++ enumerator.
pub to_error_code : TransportError → ℤ
to_error_code TransportError.success = pos 0
to_error_code TransportError.device_not_found = negsuc 18
to_error_code TransportError.permission_denied = negsuc 0
to_error_code TransportError.invalid_parameter = negsuc 21
to_error_code TransportError.timeout = negsuc 109
to_error_code TransportError.busy = negsuc 15
to_error_code TransportError.io_error = negsuc 4
to_error_code TransportError.protocol_error = negsuc 70
to_error_code TransportError.endpoint_not_supported = negsuc 94
to_error_code TransportError.unknown = negsuc 998

-- The `errno` values are Linux's: ENODEV 19, EPERM 1, EINVAL 22, ETIMEDOUT 110, EBUSY 16, EIO 5,
-- EPROTO 71, EOPNOTSUPP 95.
unfoldable pub errno_to_transport_error : ℤ → TransportError
errno_to_transport_error err_code =
    if eq_ℤ err_code (pos 0)
    then TransportError.success
    else if eq_ℤ err_code (negsuc 18)
    then TransportError.device_not_found
    else if eq_ℤ err_code (negsuc 0)
    then TransportError.permission_denied
    else if eq_ℤ err_code (negsuc 21)
    then TransportError.invalid_parameter
    else if eq_ℤ err_code (negsuc 109)
    then TransportError.timeout
    else if eq_ℤ err_code (negsuc 15)
    then TransportError.busy
    else if eq_ℤ err_code (negsuc 4)
    then TransportError.io_error
    else if eq_ℤ err_code (negsuc 70)
    then TransportError.protocol_error
    else if eq_ℤ err_code (negsuc 94)
    then TransportError.endpoint_not_supported
    else TransportError.unknown

pub to_string : TransportError → String
to_string TransportError.success = "Success"
to_string TransportError.device_not_found = "Device not found or disconnected"
to_string TransportError.permission_denied = "Permission denied (check USB permissions)"
to_string TransportError.invalid_parameter = "Invalid parameter or endpoint"
to_string TransportError.timeout = "Operation timed out"
to_string TransportError.busy = "Device or resource busy"
to_string TransportError.io_error = "I/O error during communication"
to_string TransportError.protocol_error = "Protocol error (data corruption or CRC mismatch)"
to_string TransportError.endpoint_not_supported = "Endpoint not supported by firmware"
to_string TransportError.unknown = "Unknown error"

unfoldable pub is_retryable : TransportError → Bool
is_retryable TransportError.timeout = true
is_retryable TransportError.busy = true
is_retryable TransportError.io_error = true
is_retryable _ = false

unfoldable pub is_fatal : TransportError → Bool
is_fatal TransportError.device_not_found = true
is_fatal TransportError.permission_denied = true
is_fatal TransportError.invalid_parameter = true
is_fatal _ = false

-- libusb's codes, by their documented values.
abbrev pub libusb_error_io : ℤ
libusb_error_io = negsuc 0

abbrev pub libusb_error_no_device : ℤ
libusb_error_no_device = negsuc 3

abbrev pub libusb_error_busy : ℤ
libusb_error_busy = negsuc 5

abbrev pub libusb_error_timeout : ℤ
libusb_error_timeout = negsuc 6

-- The lambda of this name in `read`, `write` and `async_io_thread_main`.
unfoldable pub is_fail_fast_transport_error : ℤ → Bool
is_fail_fast_transport_error status =
    if eq_ℤ status libusb_error_timeout then true else eq_ℤ status libusb_error_no_device
