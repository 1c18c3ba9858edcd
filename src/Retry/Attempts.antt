-- ===== src/Retry/Attempts.antt =====
-- How often an operation is attempted, and what the retry counter counts.
use odrive_ros2_control.Prelude.{
  ℕ, zero, suc, ◌+◌, ◌-◌, ◌≤◌, ◌<◌, ◌≡◌, ◌≢◌, false, arith, length, Bool-cases, inl, inr, ◌&&◌, ltb,
  if◌then◌else◌, ap, ◌∙◌, refl, [], ◌∷◌, ◌++◌, length-append,
}
use odrive_ros2_control.Prelude.Int.{ℤ, pos, eq_ℤ, eq_ℤ_iff}
use odrive_ros2_control.Transport.{Payload, Log, Transport, read, write}
use odrive_ros2_control.TransportError.{
  errno_to_transport_error, is_fatal, is_retryable, libusb_error_io, libusb_error_no_device,
  libusb_error_busy, libusb_error_timeout,
}
use odrive_ros2_control.Retry.{
  Retried, retry_loop, with_retry, add_size, read_with_retry, write_with_retry, try_read, try_write,
}

-- The retry counter after a success that took `retries` repetitions.
abbrev pub counted : ℕ → ℕ → ℕ
counted count retries = if ltb 0 retries then add_size count retries else count

-- `n` attempts, one operation each, and what the counter holds after a success and a failure.
abbrev pub Attempts : {F A : Type 0} → (max_attempts n count : ℕ) → Log F → Retried F A → Type 0
Attempts max_attempts n count log (status, value, count', log') =
    (1 ≤ n)
    × (n ≤ max_attempts)
    × (length log' ≡ length log + n)
    × (count' ≡ (if eq_ℤ status (pos 0) then counted count (n - 1) else count))

module _ {F A : Type 0} (try : A → Log F → ℤ × A × Log F) (max_attempts : ℕ) where
  -- `n` more attempts after `attempt` earlier ones.
  abbrev Attempted : (n attempt count : ℕ) (log : Log F) → Retried F A → Type 0
  Attempted n attempt count log (status, value, count', log') =
      (1 ≤ n)
      × (attempt + n ≤ max_attempts)
      × (length log' ≡ length log + n)
      × (status ≡ pos 0 → count' ≡ counted count (attempt + n - 1))
      × (status ≢ pos 0 → count' ≡ count)

  Attempted-shift :
      (n attempt count : ℕ) (log log' : Log F) (r : Retried F A)
      → length log' ≡ length log + 1
      → Attempted n (attempt + 1) count log' r
      → Attempted (suc n) attempt count log r
  Attempted-shift n attempt count log log' r grown (some, fits, length', success, failure) = (
    omega arith,
    omega arith,
    omega arith,
    λ z.
        success z
        ∙ ap (counted count) (let e : attempt + 1 + n - 1 ≡ attempt + suc n - 1 = omega arith in e),
    failure,
  )

  module _ (one_op : (value : A) (log : Log F) → length (try value log).2 ≡ length log + 1) where
    retry_loop-Attempted :
        (left attempt : ℕ) (last_error : ℤ) (value : A) (count : ℕ) (log : Log F)
        → attempt + suc left ≡ max_attempts
        → (n : ℕ) × Attempted n attempt count log
            (retry_loop try max_attempts (suc left) attempt last_error value count log)
    unfolding retry_loop
    retry_loop-Attempted zero attempt last_error value count log e =
        (1, ground (arith, one_op value log, eq_ℤ_iff (try value log).0 (pos 0)))
    retry_loop-Attempted (suc left) attempt last_error value count log e =
        let (status, value', log') = try value log in
        let ih = retry_loop-Attempted left (attempt + 1) status value' count log' (omega arith) in
        elim (Bool-cases (eq_ℤ status (pos 0))) [
          | inl ok ↦ rw ok (1, ground (arith, one_op value log))
          | inr failed ↦ elim (Bool-cases (is_fatal (errno_to_transport_error status))) [
            | inl fatal ↦
                rw (failed, fatal) (1, ground (arith, one_op value log, eq_ℤ_iff status (pos 0)))
            | inr again ↦
                elim (Bool-cases (
                  is_retryable (errno_to_transport_error status)
                  && ltb attempt (max_attempts - 1))) [
                    | inl retried ↦
                        rw (failed, again, retried)
                          (
                            suc ih.0,
                            Attempted-shift ih.0 attempt count log log'
                                (retry_loop try max_attempts (suc left) (attempt + 1) status value'
                                  count log')
                                (one_op value log) ih.1,
                          )
                    | inr ended ↦
                        rw (failed, again, ended)
                          (1, ground (arith, one_op value log, eq_ℤ_iff status (pos 0)))
                  ]
          ]
        ]

    started :
        (left : ℕ) (value : A) (count : ℕ) (log : Log F)
        → 0 < left
        → left ≡ max_attempts
        → (n : ℕ) × Attempted n 0 count log
            (retry_loop try max_attempts left 0 (pos 0) value count log)
    started zero value count log h e = absurd (omega arith)
    started (suc left) value count log h e =
        retry_loop-Attempted left 0 (pos 0) value count log (omega arith)

    with_retry-Attempted :
        (value : A) (count : ℕ) (log : Log F)
        → 0 < max_attempts
        → (n : ℕ) × Attempts max_attempts n count log (with_retry try max_attempts value count log)
    unfolding with_retry
    with_retry-Attempted value count log h =
        let (n, r) = started max_attempts value count log h refl in
        let (some, fits, grown, success, failure) = r in
        let e : 0 + n - 1 ≡ n - 1 = omega arith in
        let status = (with_retry try max_attempts value count log).0 in
        elim (Bool-cases (eq_ℤ status (pos 0))) [
          | inl ok ↦
              let z = (eq_ℤ_iff status (pos 0)).0 ok in
              (n, (some, omega arith, grown, rw ok (success z ∙ ap (counted count) e)))
          | inr bad ↦ (
            n,
            (
              some,
              omega arith,
              grown,
              rw bad (failure λ z. absurd (ground (arith, z, eq_ℤ_iff status (pos 0)))),
            ),
          )
        ]

  -- A first failure that is not retryable is the last attempt.
  once :
      (left : ℕ) (value : A) (count : ℕ) (log : Log F)
      → 0 < left
      → (try value log).0 ≢ pos 0
      → is_retryable (errno_to_transport_error (try value log).0) ≡ false
      → retry_loop try max_attempts left 0 (pos 0) value count log
        ≡ ((try value log).0, (try value log).1, count, (try value log).2)
  unfolding retry_loop
  once zero value count log h bad no_retry = absurd (omega arith)
  once (suc left) value count log h bad no_retry =
      ground (arith, eq_ℤ_iff (try value log).0 (pos 0))

-- libusb's codes for what goes wrong in a transfer. IO is -1, NO_DEVICE -4, BUSY -6, TIMEOUT -7.
pub data TransferFault : ℤ → Type 0 where
  io : TransferFault libusb_error_io
  no_device : TransferFault libusb_error_no_device
  busy : TransferFault libusb_error_busy
  timeout : TransferFault libusb_error_timeout

TransferFault-not_retryable :
    {code : ℤ}
    → TransferFault code
    → (code ≢ pos 0) × (is_retryable (errno_to_transport_error code) ≡ false)
unfolding errno_to_transport_error is_retryable
TransferFault-not_retryable io = (cc, refl)
TransferFault-not_retryable _ = (cc, refl)

module _ {F : Type 0} (t : Transport F) (serial endpoint : ℤ) (max_attempts : ℕ) where
  -- With at least one attempt allowed, `read_with_retry` makes between one and `max_attempts` reads;
  -- a success adds the number of repeated reads to the retry counter, if there were any, and a failure leaves it alone.
  pub read_with_retry-Attempts :
      (value : F) (count : ℕ) (log : Log F)
      → 0 < max_attempts
      → (n : ℕ) × Attempts max_attempts n count log
          (read_with_retry t serial endpoint value max_attempts count log)
  unfolding read_with_retry
  read_with_retry-Attempts value count log h =
      with_retry-Attempted (try_read t serial endpoint) max_attempts
        (λ _ l. length-append l (read serial endpoint ∷ [])) value count log h

  -- `write_with_retry` makes between one and `max_attempts` writes, if one is allowed, with the same
  -- account of the retry counter.
  pub write_with_retry-Attempts :
      (payload : Payload F) (count : ℕ) (log : Log F)
      → 0 < max_attempts
      → (n : ℕ) × Attempts max_attempts n count log
          (write_with_retry t serial endpoint payload max_attempts count log)
  unfolding write_with_retry
  write_with_retry-Attempts payload count log h =
      with_retry-Attempted (try_write t serial endpoint payload) max_attempts
        (λ _ l. length-append l (write serial endpoint payload ∷ [])) tt count log h

  -- A read that fails with libusb's code for a time-out, a busy device, an I/O error or a device that
  -- is gone is not repeated, however many attempts are allowed: the first status is returned after
  -- one read, and the retry counter and the value stay.
  pub read_with_retry_libusb_fault :
      (value : F) (count : ℕ) (log : Log F)
      → 0 < max_attempts
      → TransferFault (t.status log (read serial endpoint))
      → read_with_retry t serial endpoint value max_attempts count log
        ≡ (t.status log (read serial endpoint), value, count, log ++ (read serial endpoint ∷ []))
  unfolding read_with_retry
  read_with_retry_libusb_fault value count log h fault =
      let (bad, no_retry) = TransferFault-not_retryable fault in
      once (try_read t serial endpoint) max_attempts max_attempts value count log h bad no_retry
      ∙ ground (arith, eq_ℤ_iff (t.status log (read serial endpoint)) (pos 0))
