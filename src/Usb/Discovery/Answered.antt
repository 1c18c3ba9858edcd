-- ===== src/Usb/Discovery/Answered.antt =====
-- The devices in the map have answered with their serial numbers.
use odrive_ros2_control.Prelude.{
  ℕ, suc, Bool, true, false, not, ◌&&◌, ◌==◌, ◌≡◌, refl, sym, ap, ◌∙◌, ◌⊎◌, inl, inr, Bool-cases,
  Option-cases, some, List, [], ◌∷◌, ◌++◌, All, arith, if◌then◌else◌,
}
use mathlib.Core.Path.{subst}
use odrive_ros2_control.Prelude.Int.{ℤ, pos, negsuc, neg, eq_ℤ, eq_ℤ_iff, ltb_ℤ, to_int64}
use odrive_ros2_control.Endpoints.{serial_number}
use odrive_ros2_control.TransportError.{is_fail_fast_transport_error}
use odrive_ros2_control.Usb.{UsbOp, UsbLog, Descriptor, Libusb, ODriveUsb}
use odrive_ros2_control.Usb.Operation.{find, read_handle, endpoint_operation, remember_error}
use odrive_ros2_control.Usb.Discovery.Handles.{some_injective}
use odrive_ros2_control.Usb.Discovery.{
  insert, erase, number_of_bytes, succeeds, discover_device, discover, match_serials,
}

neg-neg : (n : ℤ) → neg (neg n) ≡ n
neg-neg (pos n) = ground arith
neg-neg (negsuc n) = ground arith

module _ (l : Libusb) where
  -- The device with this handle answers, after some history, that this is its serial number.
  abbrev pub Answers : ℕ → ℤ → Type 0
  Answers h serial =
      (s : ODriveUsb) × (log : UsbLog) × ((read_handle l h (pos serial_number) 8 s log).0 ≡ pos 0)
      × (to_int64 (number_of_bytes (read_handle l h (pos serial_number) 8 s log).1) ≡ serial)

  -- An entry stands under the serial number that the device answers, or under its negative.
  abbrev pub IsEntered : ℤ × ℕ → Type 0
  IsEntered (key, h) = (n : ℤ) × Answers h n × ((key ≡ neg n) ⊎ (key ≡ n))

  insert-IsEntered :
      (key : ℤ) (h : ℕ) (entries : List (ℤ × ℕ))
      → IsEntered (key, h)
      → All IsEntered entries
      → All IsEntered (insert key h entries)
  insert-IsEntered key h [] e es = (e, tt)
  insert-IsEntered key h ((k, g) ∷ entries) e es = elim (Bool-cases (eq_ℤ k key)) [
    | inl c ↦ rw c es
    | inr c ↦ elim (Bool-cases (ltb_ℤ key k)) [
      | inl d ↦ rw (c, d) (e, es)
      | inr d ↦ rw (c, d) (es.0, insert-IsEntered key h entries e es.1)
    ]
  ]

  erase-IsEntered :
      (key : ℤ) (entries : List (ℤ × ℕ)) → All IsEntered entries → All IsEntered (erase key entries)
  erase-IsEntered key [] es = tt
  erase-IsEntered key ((k, g) ∷ entries) es = elim (Bool-cases (eq_ℤ k key)) [
    | inl c ↦ rw c es.1
    | inr c ↦ rw c (es.0, erase-IsEntered key entries es.1)
  ]

  pub find-IsEntered :
      (key : ℤ) (h : ℕ) (entries : List (ℤ × ℕ))
      → All IsEntered entries
      → find key entries ≡ some h
      → IsEntered (key, h)
  find-IsEntered key h [] es = λ f. absurd (ground (arith, f))
  find-IsEntered key h ((k, g) ∷ entries) es = elim (Bool-cases (eq_ℤ k key)) [
    | inr c ↦ rw c (find-IsEntered key h entries es.1)
    | inl c ↦ rw c (λ f.
        subst (λ i. IsEntered (key, i)) (some_injective g h f)
          (subst (λ i. IsEntered (i, g)) ((eq_ℤ_iff k key).0 c) es.0))
  ]

  negated : (key : ℤ) (h : ℕ) → IsEntered (neg key, h) → IsEntered (key, h)
  negated key h (n, answers, inl e) = (n, answers, inr (sym (neg-neg key) ∙ ap neg e ∙ neg-neg n))
  negated key h (n, answers, inr e) = (n, answers, inl (sym (neg-neg key) ∙ ap neg e))

  pub match_serials-IsEntered :
      (serials : List ℤ) (entries : List (ℤ × ℕ))
      → All IsEntered entries
      → All IsEntered (match_serials serials entries).1
  unfolding match_serials
  match_serials-IsEntered [] entries es = es
  match_serials-IsEntered (serial ∷ serials) entries es =
      elim (Option-cases (find serial entries)) [
        | inr (g, e) ↦ rw (match_serials, e) (match_serials-IsEntered serials entries es)
        | inl e ↦ elim (Option-cases (find (neg serial) entries)) [
          | inl f ↦ rw (match_serials, e, f) es
          | inr (g, f) ↦
              rw (match_serials, e, f)
                (match_serials-IsEntered serials _ (
                  erase-IsEntered (neg serial) (insert serial g entries) (
                    insert-IsEntered serial g entries
                      (negated serial g (find-IsEntered (neg serial) g entries es f)) es)))
        ]
      ]

  remember_error-map :
      (status : ℤ) (s : ODriveUsb) → (remember_error status s).odrive_map ≡ s.odrive_map
  unfolding remember_error
  remember_error-map status s = elim (Bool-cases (is_fail_fast_transport_error status)) [
    | inl e ↦ rw e refl
    | inr e ↦ rw e refl
  ]

  -- An operation leaves the map.
  endpoint_operation-map :
      (handle : ℕ) (endpoint : ℤ) (size : ℕ) (payload : List ℕ) (expect : Bool) (s : ODriveUsb)
      (log : UsbLog)
      → (endpoint_operation l handle endpoint size payload expect s log).2.odrive_map ≡ s.odrive_map
  unfolding endpoint_operation remember_error
  endpoint_operation-map handle endpoint size payload expect s log = ground arith

  read_handle-map :
      (handle : ℕ) (endpoint : ℤ) (size : ℕ) (s : ODriveUsb) (log : UsbLog)
      → (read_handle l handle endpoint size s log).2.odrive_map ≡ s.odrive_map
  unfolding read_handle
  read_handle-map handle endpoint size s log =
      ground (arith, endpoint_operation-map handle endpoint size [] true s log)

  record Entered (r : ODriveUsb × UsbLog) : Type 0 where
    all_entered : All IsEntered r.0.odrive_map

  entered : (r : ODriveUsb × UsbLog) → All IsEntered r.0.odrive_map → Entered r
  entered r es = record { all_entered = es }

  either :
      (b : Bool) (x y : ODriveUsb × UsbLog) → Entered x → Entered y → Entered (if b then x else y)
  either true x y hx hy = hx
  either false x y hx hy = hy

  either_not :
      (b : Bool) (x y : ODriveUsb × UsbLog)
      → Entered x
      → (b ≡ true → Entered y)
      → Entered (if not b then x else y)
  either_not true x y hx hy = hy refl
  either_not false x y hx hy = hx

  discover_device-Entered :
      (i : ℕ) (d : Descriptor) (s : ODriveUsb) (log : UsbLog)
      → All IsEntered s.odrive_map
      → Entered (discover_device l i d s log)
  unfolding discover_device
  discover_device-Entered i d s log es =
      let log1 = log ++ (UsbOp.get_device_descriptor i ∷ []) in
      let log2 = log1 ++ (UsbOp.open_device i ∷ []) in
      let log3 = log2 ++ (UsbOp.kernel_driver_active i ∷ []) in
      let log4 =
        if eq_ℤ (l.status log2 (UsbOp.kernel_driver_active i)) (pos 0)
        then log3
        else log3 ++ (UsbOp.detach_kernel_driver i ∷ []) in
      let log5 = log4 ++ (UsbOp.claim_interface i ∷ []) in
      let r = read_handle l i (pos serial_number) 8 s log5 in
      let kept : All IsEntered r.2.odrive_map =
        subst (All IsEntered) (sym (read_handle-map i (pos serial_number) 8 s log5)) es in
      let inactive = succeeds l log2 (UsbOp.kernel_driver_active i) in
      either (not (succeeds l log (UsbOp.get_device_descriptor i))) _ _ (entered _ es) (
        either (not (d.id_vendor == 0x1209 && d.id_product == 0x0d32)) _ _ (entered _ es) (
          either (not (succeeds l log1 (UsbOp.open_device i))) _ _ (entered _ es) (
            either (not inactive && not (succeeds l log3 (UsbOp.detach_kernel_driver i))) _ _
              (entered _ es)
              (either (not (succeeds l log4 (UsbOp.claim_interface i))) _ _ (entered _ es) (
                either_not (eq_ℤ r.0 (pos 0)) _ _ (entered _ kept) (λ good. entered _ (
                  insert-IsEntered _ i r.2.odrive_map
                    (
                      to_int64 (number_of_bytes r.1),
                      (s, log5, (eq_ℤ_iff _ _).0 good, refl),
                      inl refl,
                    )
                    kept)))))))

  pub discover-IsEntered :
      (i : ℕ) (devices : List Descriptor) (s : ODriveUsb) (log : UsbLog)
      → All IsEntered s.odrive_map
      → All IsEntered (discover l i devices s log).0.odrive_map
  unfolding discover
  discover-IsEntered i [] s log es = es
  discover-IsEntered i (d ∷ devices) s log es =
      let (s', log') = discover_device l i d s log in
      discover-IsEntered (suc i) devices s' log' (discover_device-Entered i d s log es).all_entered
