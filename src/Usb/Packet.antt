-- ===== src/Usb/Packet.antt =====
-- `encodePacket`, `decodePacket` and the sequence numbers. A 16-bit integer is its bit pattern, a
-- number below 65536, and `&`, `|` and `>>` with the masks of the source are division and remainder.
pub mod Receiver
pub mod Sequence
use odrive_ros2_control.Prelude.{ℕ, ◌+◌, ◌/◌, ◌%◌, List, [], ◌∷◌, ◌++◌, ◌==◌, if◌then◌else◌}
use odrive_ros2_control.Prelude.Int.{ℤ, bits16}

abbrev pub protocol_version : ℕ
protocol_version = 1

-- `json_crc` of odrive_endpoints.hpp
abbrev pub json_crc : ℕ
json_crc = 0x9b40

abbrev pub max_packet_size : ℕ
max_packet_size = 16

abbrev pub low_byte : ℕ → ℕ
low_byte x = x % 256

abbrev pub high_byte : ℕ → ℕ
high_byte x = x / 256 % 256

-- The number at the end of a packet.
unfoldable pub crc_of : ℕ → ℕ
crc_of endpoint = if endpoint % 32768 == 0 then protocol_version else json_crc

unfoldable pub encode_packet : (sequence endpoint response_size : ℕ) → List ℕ → List ℕ
unfolding crc_of
encode_packet sequence endpoint response_size request_payload =
    low_byte sequence
      ∷ high_byte sequence
      ∷ low_byte endpoint
      ∷ high_byte endpoint
      ∷ low_byte response_size
      ∷ high_byte response_size
      ∷ request_payload
    ++ (low_byte (crc_of endpoint) ∷ high_byte (crc_of endpoint) ∷ [])

-- The bytes from the third on.
unfoldable pub decode_packet : List ℕ → List ℕ
decode_packet [] = []
decode_packet (a ∷ []) = []
decode_packet (a ∷ b ∷ payload) = payload

-- `endpoint_id | 0x8000`
unfoldable pub effective_endpoint : ℤ → ℕ
effective_endpoint endpoint = bits16 endpoint % 32768 + 32768

-- `((sequence_number_ + 1) & 0x7fff) | 0x80`
unfoldable pub next_sequence : ℕ → ℕ
next_sequence n = let s = (n + 1) % 32768 in if s / 128 % 2 == 0 then s + 128 else s
