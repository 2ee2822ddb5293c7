-- ===== src/Rcon/Tests.antt =====
-- Packets at concrete bytes.
use mc_gatekeeper.Prelude.{
  ℕ, ◌+◌, ◌≤◌, ◌<◌, some, List, [], ◌∷◌, ◌++◌, length, ◌≡◌, ◌↔◌, refl, arith,
}
use mc_gatekeeper.Rcon.{
  Payload, ok, err, panics, packet, frame, uint32, create_packet_from_payload,
  create_payload_from_packet, read_body, send_payload,
}
use mc_gatekeeper.Rcon.Codec.{
  create_packet_from_payload-length, create_payload_from_packet-packet,
  create_payload_from_packet-panics_iff, create_payload_from_packet-length,
}
use Prim.Native.Nat.{◌^◌}

-- The command "ab".
abbrev command : Payload
command = record { packet_id = 300; packet_type = 2; packet_body = 97 ∷ 98 ∷ [] }

abbrev bytes : List ℕ
bytes = 12 ∷ 0 ∷ 0 ∷ 0 ∷ 44 ∷ 1 ∷ 0 ∷ 0 ∷ 2 ∷ 0 ∷ 0 ∷ 0 ∷ 97 ∷ 98 ∷ 0 ∷ 0 ∷ []

running : Unit {0}
unfolding packet frame create_packet_from_payload create_payload_from_packet read_body send_payload
running = tt

command-bytes : create_packet_from_payload command ≡ ok bytes
unfolding running
command-bytes = refl

refused :
    send_payload command
      (some (10 ∷ 0 ∷ 0 ∷ 0 ∷ 255 ∷ 255 ∷ 255 ∷ 255 ∷ 2 ∷ 0 ∷ 0 ∷ 0 ∷ 0 ∷ 0 ∷ []))
    ≡ err "Authentication unsuccessful"
unfolding running
refused = refl

create_packet_from_payload-length_example :
    ((2 < 1446) ↔ (create_packet_from_payload command ≡ ok (packet command)))
    × (length (packet command) ≡ 16)
    × (2 < 1446 → uint32 (packet command) + 4 ≡ length (packet command))
create_packet_from_payload-length_example = create_packet_from_payload-length command

create_payload_from_packet-packet_example :
    create_payload_from_packet (bytes ++ 7 ∷ 7 ∷ []) ≡ ok (command, 7 ∷ 7 ∷ [])
create_payload_from_packet-packet_example =
    create_payload_from_packet-packet command bytes (7 ∷ 7 ∷ []) (omega arith) (omega arith)
      command-bytes

abbrev negative : List ℕ
negative = 255 ∷ 255 ∷ 255 ∷ 255 ∷ []

create_payload_from_packet-panics_iff_example :
    (create_payload_from_packet negative ≡ panics) ↔ ((4 ≤ 4) × (2 ^ 31 ≤ 4294967295))
create_payload_from_packet-panics_iff_example = create_payload_from_packet-panics_iff negative

create_payload_from_packet-length_example : 18 ≡ 2 + 14 + 2
create_payload_from_packet-length_example =
    create_payload_from_packet-length (bytes ++ 7 ∷ 7 ∷ []) (7 ∷ 7 ∷ []) command
      create_payload_from_packet-packet_example
