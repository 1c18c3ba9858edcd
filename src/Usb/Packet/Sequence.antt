-- ===== src/Usb/Packet/Sequence.antt =====
-- The sequence numbers of successive operations.
use odrive_ros2_control.Prelude.{
  ℕ, zero, suc, ◌+◌, ◌*◌, ◌/◌, ◌%◌, ◌<◌, ◌≡◌, ◌≢◌, sym, ap, ◌∙◌, arith,
}
use odrive_ros2_control.Usb.Packet.{next_sequence}

-- The numbers with bit 7 set, below 32768, in order.
abbrev pub nth_sequence : ℕ → ℕ
nth_sequence i = i / 128 * 256 + 128 + i % 128

-- The sequence number after `n` operations more.
abbrev pub sequence_after : ℕ → ℕ → ℕ
sequence_after zero s = s
sequence_after (suc n) s = sequence_after n (next_sequence s)

next_sequence-nth_sequence :
    (i : ℕ) → i < 16384 → next_sequence (nth_sequence i) ≡ nth_sequence ((i + 1) % 16384)
unfolding next_sequence
next_sequence-nth_sequence i h = ground arith

sequence_after-nth_sequence :
    (n i : ℕ) → i < 16384 → sequence_after n (nth_sequence i) ≡ nth_sequence ((i + n) % 16384)
sequence_after-nth_sequence zero i h = ap nth_sequence (omega arith)
sequence_after-nth_sequence (suc n) i h =
    ap (sequence_after n) (next_sequence-nth_sequence i h)
    ∙ sequence_after-nth_sequence n ((i + 1) % 16384) (omega arith)
    ∙ ap nth_sequence (omega arith)

-- Once an operation was made, the sequence number is one of `nth_sequence`.
nth_of_next : (s : ℕ) → (i : ℕ) × (i < 16384) × (next_sequence s ≡ nth_sequence i)
unfolding next_sequence
nth_of_next s = ((s + 1) % 32768 / 256 * 128 + (s + 1) % 128, omega arith, ground arith)

-- Two operations that are at most 16383 apart have different sequence numbers, whatever the number
-- was before them; and every number that is sent has bit 7 set, as libusb's direction bit is in the
-- source, and bit 15 clear.
pub sequence_numbers_differ :
    (s n : ℕ)
    → 0 < n
    → n < 16384
    → (sequence_after n (next_sequence s) ≢ next_sequence s)
      × (next_sequence s < 32768)
      × (next_sequence s / 128 % 2 ≡ 1)
sequence_numbers_differ s n h k =
    let (i, below, e) = nth_of_next s in
    let later = ap (sequence_after n) e ∙ sequence_after-nth_sequence n i below in
    (λ same. absurd (omega (arith, sym later ∙ same ∙ e)), omega (arith, e), omega (arith, e))
