-- ===== src/Retry.antt =====
-- `read_with_retry` and `write_with_retry` of odrive_hardware_interface/src/
-- odrive_hardware_interface.cpp. The pause between two attempts only takes time, so it is left out.
pub mod Attempts
use odrive_ros2_control.Prelude.{ℕ, zero, suc, ◌+◌, ◌-◌, ◌%◌, ◌^◌, Bool, ◌&&◌, if◌then◌else◌, ltb}
use odrive_ros2_control.Prelude.Int.{ℤ, pos, eq_ℤ}
use odrive_ros2_control.Transport.{Op, Payload, Log, Transport, write, perform, read_float}
use odrive_ros2_control.TransportError.{errno_to_transport_error, is_fatal, is_retryable}

-- Status, value, retry counter and history.
abbrev pub Retried : Type 0 → Type 0 → Type 0
Retried F A = ℤ × A × ℕ × Log F

-- `size_t` addition.
abbrev pub add_size : ℕ → ℕ → ℕ
add_size a b = (a + b) % 2 ^ 64

module _ {F A : Type 0} (try : A → Log F → ℤ × A × Log F) (max_attempts : ℕ) where
  -- The loop, with `left` rounds to go: `attempt + left` is `max_attempts`.
  pub retry_loop :
      ℕ → (attempt : ℕ) → (last_error : ℤ) → A → (retry_count : ℕ) → Log F → Retried F A
  retry_loop zero attempt last_error value count log = (last_error, value, count, log)
  retry_loop (suc left) attempt last_error value count log =
      let (status, value', log') = try value log in
      let err = errno_to_transport_error status in
      let rest = retry_loop left (attempt + 1) status value' count log' in
      let stop : Retried F A = (status, value', count, log') in
      if eq_ℤ status (pos 0)
      then (pos 0, value', (if ltb 0 attempt then add_size count attempt else count), log')
      else if is_fatal err
      then stop
      else if is_retryable err && ltb attempt (max_attempts - 1)
      then rest
      else stop

  unfoldable pub with_retry : A → ℕ → Log F → Retried F A
  unfolding retry_loop
  with_retry value count log = retry_loop max_attempts 0 (pos 0) value count log

module _ {F : Type 0} (t : Transport F) where
  -- One round of `read_with_retry`: the value is stored if the read succeeds.
  abbrev pub try_read : ℤ → ℤ → F → Log F → ℤ × F × Log F
  try_read serial endpoint value log =
      let (status, x, log') = read_float t serial endpoint log in
      (status, (if eq_ℤ status (pos 0) then x else value), log')

  abbrev pub try_write : ℤ → ℤ → Payload F → Unit {0} → Log F → ℤ × Unit {0} × Log F
  try_write serial endpoint payload value log =
      let (status, log') = perform t (write serial endpoint payload) log in (status, tt, log')

  unfoldable pub read_with_retry : ℤ → ℤ → F → ℕ → ℕ → Log F → Retried F F
  unfolding with_retry read_float
  read_with_retry serial endpoint value max_attempts count log =
      with_retry (try_read serial endpoint) max_attempts value count log

  unfoldable pub write_with_retry : ℤ → ℤ → Payload F → ℕ → ℕ → Log F → Retried F (Unit {0})
  unfolding with_retry perform
  write_with_retry serial endpoint payload max_attempts count log =
      with_retry (try_write serial endpoint payload) max_attempts tt count log
