-- ===== src/Usb/Packet/Receiver.antt =====
-- A receiver of packets, as a device is one, and what it makes of a packet that was encoded.
use odrive_ros2_control.Prelude.{
  ℕ, ◌+◌, ◌*◌, ◌/◌, ◌%◌, ◌<◌, ◌≡◌, refl, ap, ◌∙◌, arith, Option, none, some, List, [], ◌∷◌, ◌++◌,
  length, length-append, ◌==◌, if◌then◌else◌,
}
use odrive_ros2_control.Usb.Packet.{crc_of, encode_packet, low_byte, high_byte}

pub record Request : Type 0 where
  pub sequence : ℕ
  pub endpoint : ℕ
  pub response_size : ℕ
  pub payload : List ℕ
  pub crc : ℕ

-- A list without its last two elements, and these as a number, the lower byte first.
abbrev pub split_last : List ℕ → Option (List ℕ × ℕ)
split_last [] = none
split_last (a ∷ []) = none
split_last (a ∷ b ∷ []) = some ([], a + 256 * b)
split_last (a ∷ b ∷ c ∷ rest) = elim (split_last (b ∷ c ∷ rest)) [
  | none ↦ none
  | some (bytes, n) ↦ some (a ∷ bytes, n)
]

abbrev pub request_of : ℕ → ℕ → ℕ → Option (List ℕ × ℕ) → Option Request
request_of sequence endpoint response_size none = none
request_of sequence endpoint response_size (some (payload, crc)) = some (record {
  sequence = sequence;
  endpoint = endpoint;
  response_size = response_size;
  payload = payload;
  crc = crc;
})

abbrev pub receive : List ℕ → Option Request
receive (s0 ∷ s1 ∷ e0 ∷ e1 ∷ r0 ∷ r1 ∷ rest) =
    request_of (s0 + 256 * s1) (e0 + 256 * e1) (r0 + 256 * r1) (split_last rest)
receive _ = none

split_last-append :
    (bytes : List ℕ) (a b : ℕ) → split_last (bytes ++ (a ∷ b ∷ [])) ≡ some (bytes, a + 256 * b)
split_last-append [] a b = refl
split_last-append (x ∷ []) a b = refl
split_last-append (x ∷ y ∷ []) a b = refl
split_last-append (x ∷ y ∷ z ∷ bytes) a b = rw (split_last-append (y ∷ z ∷ bytes) a b) refl

bytes_of_word : (x : ℕ) → x < 65536 → x % 256 + 256 * (x / 256 % 256) ≡ x
bytes_of_word x h = omega arith

crc_of-word : (endpoint : ℕ) → crc_of endpoint < 65536
unfolding crc_of
crc_of-word endpoint = ground arith

-- A receiver that takes the fields of a packet apart gets back what was encoded, if the numbers have
-- 16 bits: the sequence number, the endpoint, the size of the response, the payload, and at the end
-- the version of the protocol for endpoint 0 and the checksum of the endpoints' table for any other.
-- The packet is eight bytes longer than the payload, so one of up to eight bytes fits the buffer.
pub receive-encode_packet :
    (sequence endpoint response_size : ℕ) (payload : List ℕ)
    → sequence < 65536
    → endpoint < 65536
    → response_size < 65536
    → (receive (encode_packet sequence endpoint response_size payload)
        ≡ some (record {
          sequence = sequence;
          endpoint = endpoint;
          response_size = response_size;
          payload = payload;
          crc = if endpoint % 32768 == 0 then 1 else 0x9b40;
        }))
      × (length (encode_packet sequence endpoint response_size payload) ≡ length payload + 8)
unfolding encode_packet crc_of
receive-encode_packet sequence endpoint response_size payload hs he hr =
    let crc = crc_of endpoint in
    let last =
      split_last-append payload (low_byte crc) (high_byte crc)
      ∙ ap (λ n. some (payload, n)) (bytes_of_word crc (crc_of-word endpoint)) in
    (
      ap
            (request_of (low_byte sequence + 256 * high_byte sequence)
              (low_byte endpoint + 256 * high_byte endpoint)
              (low_byte response_size + 256 * high_byte response_size))
            last
          ∙ rw
              (bytes_of_word sequence hs, bytes_of_word endpoint he, bytes_of_word response_size hr)
              refl,
      omega (arith, length-append payload (low_byte crc ∷ high_byte crc ∷ [])),
    )
