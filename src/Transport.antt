-- ===== src/Transport.antt =====
-- odrive_hardware_interface/include/odrive_hardware_interface/odrive_transport.hpp, seen from its
-- callers: each operation is recorded, and its answer may depend on all that was asked before.
use odrive_ros2_control.Prelude.{ℕ, Bool, List, [], ◌∷◌, ◌++◌}
use odrive_ros2_control.Prelude.Int.{ℤ}

-- The value that a write sends, by its C++ type.
pub data Payload (F : Type 0) : Type 0 where
  float : F → Payload F
  int32 : ℤ → Payload F
  boolean : Bool → Payload F

-- An operation on the transport: the device's serial number and the endpoint.
pub data Op (F : Type 0) : Type 0 where
  read : ℤ → ℤ → Op F
  write : ℤ → ℤ → Payload F → Op F
  call : ℤ → ℤ → Op F

-- The operations so far, oldest first.
abbrev pub Log : Type 0 → Type 0
Log F = List (Op F)

-- A transport and the drives behind it: the status of an operation after a history, and the value
-- that a read delivers where its status is 0.
pub record Transport (F : Type 0) : Type 0 where
  pub status : Log F → Op F → ℤ
  pub float_at : Log F → Op F → F
  pub int32_at : Log F → Op F → ℤ
  pub uint32_at : Log F → Op F → ℕ

module _ {F : Type 0} (t : Transport F) where
  unfoldable pub perform : Op F → Log F → ℤ × Log F
  perform o log = (t.status log o, log ++ (o ∷ []))

  -- A read also delivers a value, of no use unless the status is 0.
  unfoldable pub read_float : ℤ → ℤ → Log F → ℤ × F × Log F
  read_float serial endpoint log = (
    t.status log (read serial endpoint),
    t.float_at log (read serial endpoint),
    log ++ (read serial endpoint ∷ []),
  )

  unfoldable pub read_int32 : ℤ → ℤ → Log F → ℤ × ℤ × Log F
  read_int32 serial endpoint log = (
    t.status log (read serial endpoint),
    t.int32_at log (read serial endpoint),
    log ++ (read serial endpoint ∷ []),
  )

  unfoldable pub read_uint32 : ℤ → ℤ → Log F → ℤ × ℕ × Log F
  read_uint32 serial endpoint log = (
    t.status log (read serial endpoint),
    t.uint32_at log (read serial endpoint),
    log ++ (read serial endpoint ∷ []),
  )
