-- ===== src/Usb/Discovery/Requested.antt =====
-- The devices that are requested, after `initialize`.
use odrive_ros2_control.Prelude.{
  ℕ, Bool, true, false, ◌≡◌, refl, sym, ◌⊎◌, inl, inr, Option-cases, Bool-cases, some, has_value,
  List, [], ◌∷◌, ◌++◌, All, arith, if◌then◌else◌,
}
use mathlib.Core.Path.{subst}
use odrive_ros2_control.Prelude.Int.{ℤ, pos, neg, eq_ℤ, ltb_ℤ}
use odrive_ros2_control.TransportError.{libusb_error_no_device}
use odrive_ros2_control.Usb.{UsbOp, UsbLog, Libusb, ODriveUsb}
use odrive_ros2_control.Usb.Operation.{find}
use odrive_ros2_control.Usb.Discovery.{
  match_serials, match_single, release_unmatched, is_single, discover, match_devices, initialize,
  let_go,
}
use odrive_ros2_control.Usb.Discovery.Handles.{HasHandle, match_serials-HasHandle}
use odrive_ros2_control.Usb.Discovery.Answered.{
  Answers, IsEntered, find-IsEntered, match_serials-IsEntered, discover-IsEntered,
}
use odrive_ros2_control.Usb.Discovery.Matching.{
  IsPositive, IsFound, negative_differs, Matches, match_serials-Matches,
}

-- A key that is not negative is not released.
release_unmatched-IsFound :
    (q : ℤ) (entries : List (ℤ × ℕ)) (log : UsbLog)
    → IsPositive q
    → IsFound entries q
    → IsFound (release_unmatched entries log).0 q
unfolding release_unmatched
release_unmatched-IsFound q [] log hq f = f
release_unmatched-IsFound q ((k, handle) ∷ entries) log hq f = elim (Bool-cases (ltb_ℤ k (pos 0))) [
  | inl n ↦
      let other : eq_ℤ k q ≡ false = negative_differs k q n hq in
      rw (release_unmatched, n)
        (release_unmatched-IsFound q entries (let_go handle log) hq
          (subst (λ b. has_value (if b then some handle else find q entries) ≡ true) other f))
  | inr n ↦ elim (Bool-cases (eq_ℤ k q)) [
    | inl i ↦ rw (release_unmatched, n, i) refl
    | inr i ↦
        rw (release_unmatched, n, i)
          (release_unmatched-IsFound q entries log hq
            (subst (λ b. has_value (if b then some handle else find q entries) ≡ true) i f))
  ]
]

-- No negative key is left.
abbrev pub IsNatural : ℤ × ℕ → Type 0
IsNatural e = ltb_ℤ e.0 (pos 0) ≡ false

release_unmatched-IsNatural :
    (entries : List (ℤ × ℕ)) (log : UsbLog) → All IsNatural (release_unmatched entries log).0
unfolding release_unmatched
release_unmatched-IsNatural [] log = tt
release_unmatched-IsNatural ((k, handle) ∷ entries) log = elim (Bool-cases (ltb_ℤ k (pos 0))) [
  | inl n ↦ rw (release_unmatched, n) (release_unmatched-IsNatural entries (let_go handle log))
  | inr n ↦ rw (release_unmatched, n) (n, release_unmatched-IsNatural entries log)
]

All-map-IsFound :
    (serials : List ℤ) (a b : List (ℤ × ℕ))
    → ((q : ℤ) → IsPositive q → IsFound a q → IsFound b q)
    → All IsPositive serials
    → All (IsFound a) serials
    → All (IsFound b) serials
All-map-IsFound [] a b h hs f = tt
All-map-IsFound (q ∷ serials) a b h hs f = (h q hs.0 f.0, All-map-IsFound serials a b h hs.1 f.1)

-- An operation is in the history.
abbrev pub Has : UsbOp → UsbLog → Type 0
Has o [] = ⊥
Has o (p ∷ log) = (p ≡ o) ⊎ Has o log

Has-append : (o : UsbOp) (log more : UsbLog) → Has o log → Has o (log ++ more)
Has-append o [] more m = absurd m
Has-append o (p ∷ log) more (inl e) = inl e
Has-append o (p ∷ log) more (inr m) = inr (Has-append o log more m)

let_go-Has : (h : ℕ) (log : UsbLog) → Has (UsbOp.close h) (let_go h log)
let_go-Has h [] = inr (inl refl)
let_go-Has h (p ∷ log) = inr (let_go-Has h log)

release_unmatched-Has :
    (o : UsbOp) (entries : List (ℤ × ℕ)) (log : UsbLog)
    → Has o log
    → Has o (release_unmatched entries log).1
unfolding release_unmatched
release_unmatched-Has o [] log m = m
release_unmatched-Has o ((k, g) ∷ entries) log m = elim (Bool-cases (ltb_ℤ k (pos 0))) [
  | inl n ↦
      rw (release_unmatched, n)
        (release_unmatched-Has o entries (let_go g log) (Has-append o log _ m))
  | inr n ↦ rw (release_unmatched, n) (release_unmatched-Has o entries log m)
]

-- A handle that was in the map is in it still, or has been closed.
abbrev pub IsSettled : ℕ → List (ℤ × ℕ) → UsbLog → Type 0
IsSettled h entries log = HasHandle h entries ⊎ Has (UsbOp.close h) log

release_unmatched-IsSettled :
    (h : ℕ) (entries : List (ℤ × ℕ)) (log : UsbLog)
    → HasHandle h entries
    → IsSettled h (release_unmatched entries log).0 (release_unmatched entries log).1
unfolding release_unmatched
release_unmatched-IsSettled h [] log m = absurd m
release_unmatched-IsSettled h ((k, g) ∷ entries) log m = elim (Bool-cases (ltb_ℤ k (pos 0))) [
  | inl n ↦
      rw (release_unmatched, n)
        (elim m [
          | inl same ↦ inr (
              release_unmatched-Has (UsbOp.close h) entries (let_go g log)
                (subst (λ i. Has (UsbOp.close i) (let_go g log)) same (let_go-Has g log)))
          | inr r ↦ release_unmatched-IsSettled h entries (let_go g log) r
        ])
  | inr n ↦
      rw (release_unmatched, n)
        (elim m [
          | inl same ↦ inl (inl same)
          | inr r ↦ elim (release_unmatched-IsSettled h entries log r) [
            | inl kept ↦ inl (inr kept)
            | inr closed ↦ inr closed
          ]
        ])
]

module _ (l : Libusb) where
  release_unmatched-IsEntered :
      (entries : List (ℤ × ℕ)) (log : UsbLog)
      → All (IsEntered l) entries
      → All (IsEntered l) (release_unmatched entries log).0
  unfolding release_unmatched
  release_unmatched-IsEntered [] log es = tt
  release_unmatched-IsEntered ((k, g) ∷ entries) log es = elim (Bool-cases (ltb_ℤ k (pos 0))) [
    | inl n ↦ rw (release_unmatched, n) (release_unmatched-IsEntered entries (let_go g log) es.1)
    | inr n ↦ rw (release_unmatched, n) (es.0, release_unmatched-IsEntered entries log es.1)
  ]

  -- The map has a handle for the serial number, of a device that answers it, or its negative.
  abbrev pub HasDevice : List (ℤ × ℕ) → ℤ → Type 0
  HasDevice entries serial =
      (h : ℕ) × (find serial entries ≡ some h)
      × (n : ℤ) × Answers l h n
      × ((serial ≡ neg n) ⊎ (serial ≡ n))

  with_devices :
      (entries : List (ℤ × ℕ)) (serials : List ℤ)
      → All (IsEntered l) entries
      → All (IsFound entries) serials
      → All (HasDevice entries) serials
  with_devices entries [] es f = tt
  with_devices entries (serial ∷ serials) es f = (
    elim (Option-cases (find serial entries)) [
      | inl e ↦ absurd (ground (arith, e, f.0))
      | inr (h, e) ↦
          let (n, answers, sign) = find-IsEntered l serial h entries es e in
          (h, e, n, answers, sign)
    ],
    with_devices entries serials es f.1,
  )

  -- What `match_devices` promises of a success, of a handle that was in the map before.
  Settled : List ℤ → ℕ → ℤ × ODriveUsb × UsbLog → Type 0
  Settled serials h r =
      r.0 ≡ pos 0
      → All (HasDevice r.1.odrive_map) serials
        × All IsNatural r.1.odrive_map
        × IsSettled h r.1.odrive_map r.2

  -- The end of `match_devices`, for any result of the matching.
  abbrev conclude : Bool × List (ℤ × ℕ) → List (ℤ × ℕ) → ODriveUsb → UsbLog → ℤ × ODriveUsb × UsbLog
  conclude (matched, entries) before s log =
      let (kept, log') = release_unmatched entries log in
      elim before [
        | [] ↦ (libusb_error_no_device, s, log)
        | _ ∷ _ ↦
            if matched
            then (pos 0, record s { odrive_map = kept }, log')
            else (libusb_error_no_device, record s { odrive_map = entries }, log)
      ]

  conclude-Settled :
      (serials : List ℤ) (h : ℕ) (r : Bool × List (ℤ × ℕ)) (before : List (ℤ × ℕ)) (s : ODriveUsb)
      (log : UsbLog)
      → All IsPositive serials
      → Matches serials r
      → All (IsEntered l) r.1
      → HasHandle h r.1
      → Settled serials h (conclude r before s log)
  unfolding Settled Matches
  conclude-Settled serials h r [] s log hs found es m = λ z. absurd (ground (arith, z))
  conclude-Settled serials h (false, entries) (e ∷ before) s log hs found es m =
      λ z. absurd (ground (arith, z))
  conclude-Settled serials h (true, entries) (e ∷ before) s log hs found es m = λ z.
      let kept = (release_unmatched entries log).0 in
      (
        with_devices kept serials (release_unmatched-IsEntered entries log es) (
            All-map-IsFound serials entries kept
              (λ q hq f. release_unmatched-IsFound q entries log hq f) hs (found refl)),
        release_unmatched-IsNatural entries log,
        release_unmatched-IsSettled h entries log m,
      )

  match_devices-Settled :
      (serials : List ℤ) (h : ℕ) (s : ODriveUsb) (log : UsbLog)
      → All IsPositive serials
      → is_single s.odrive_map ≡ false
      → All (IsEntered l) s.odrive_map
      → HasHandle h s.odrive_map
      → Settled serials h (match_devices serials s log)
  unfolding match_devices
  match_devices-Settled serials h s log hs several es m =
      let r = match_serials serials s.odrive_map in
      subst
        (λ b.
          Settled serials h
            (conclude (if b then (true, match_single s.odrive_map) else r) s.odrive_map s log))
        (sym several)
        (conclude-Settled serials h r s.odrive_map s log hs
          (match_serials-Matches serials s.odrive_map hs)
          (match_serials-IsEntered l serials s.odrive_map es)
          (match_serials-HasHandle serials s.odrive_map h hs m))

  -- The transport when the devices are in its map, and the history.
  abbrev pub discovered : ODriveUsb → UsbLog → ODriveUsb × UsbLog
  discovered s log =
      let log1 = log ++ (UsbOp.init ∷ []) in
      discover l 0 (l.devices log1)
        (record s { sequence_number = 0; sticky_error = pos 0; context = true }) log1

  initialize-match_devices :
      (serials : List ℤ) (s : ODriveUsb) (log : UsbLog)
      → eq_ℤ (l.status log UsbOp.init) (pos 0) ≡ true
      → ltb_ℤ (pos 0) (l.device_count (log ++ (UsbOp.init ∷ []))) ≡ true
      → initialize l serials s log ≡ match_devices serials (discovered s log).0 (discovered s log).1
  unfolding initialize
  initialize-match_devices serials s log started counted = rw (started, counted) refl

  -- On a transport with no device yet, if libusb starts and reports devices, and several of them are
  -- entered: if `initialize` succeeds, every serial number that was requested has a handle, of a
  -- device that answered with this serial number, or with its negative; every key that is left is a
  -- serial number that is not negative; and each handle that was entered is in the map still, or has
  -- been closed. The requested serial numbers must be greater than 0.
  pub initialize-IsSettled :
      (serials : List ℤ) (s : ODriveUsb) (log : UsbLog) (h : ℕ)
      → s.odrive_map ≡ []
      → All IsPositive serials
      → eq_ℤ (l.status log UsbOp.init) (pos 0) ≡ true
      → ltb_ℤ (pos 0) (l.device_count (log ++ (UsbOp.init ∷ []))) ≡ true
      → is_single (discovered s log).0.odrive_map ≡ false
      → HasHandle h (discovered s log).0.odrive_map
      → (initialize l serials s log).0 ≡ pos 0
      → let (_, s', log') = initialize l serials s log in
        All (HasDevice s'.odrive_map) serials
        × All IsNatural s'.odrive_map
        × IsSettled h s'.odrive_map log'
  unfolding Settled
  initialize-IsSettled serials s log h new hs started counted several m =
      let log1 = log ++ (UsbOp.init ∷ []) in
      let es =
        discover-IsEntered l 0 (l.devices log1)
          (record s { sequence_number = 0; sticky_error = pos 0; context = true }) log1
          (subst (All (IsEntered l)) (sym new) tt) in
      subst (Settled serials h) (sym (initialize-match_devices serials s log started counted))
        (match_devices-Settled serials h (discovered s log).0 (discovered s log).1 hs several es m)
