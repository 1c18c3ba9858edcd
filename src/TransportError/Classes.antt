-- ===== src/TransportError/Classes.antt =====
-- The error classes against the codes that go in.
use odrive_ros2_control.Prelude.{◌≡◌, refl, false, ◌&&◌, arith}
use odrive_ros2_control.Prelude.Int.{ℤ}
use odrive_ros2_control.TransportError.{
  TransportError, to_error_code, errno_to_transport_error, is_retryable, is_fatal,
}

-- `errno_to_transport_error` inverts `to_error_code` on every error.
pub errno_to_transport_error-to_error_code :
    (e : TransportError) → errno_to_transport_error (to_error_code e) ≡ e
unfolding errno_to_transport_error to_error_code
errno_to_transport_error-to_error_code TransportError.success = refl
errno_to_transport_error-to_error_code _ = refl

-- No code is taken for an error that is both retried and fatal.
pub classes_disjoint :
    (code : ℤ)
    → (is_retryable (errno_to_transport_error code) && is_fatal (errno_to_transport_error code)
        ≡ false)
unfolding errno_to_transport_error is_retryable is_fatal
classes_disjoint code = ground arith
