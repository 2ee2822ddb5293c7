-- ===== src/Rcon/Command/Tests.antt =====
-- A command whose connection is gone, to a server that is back at the third attempt.
use mc_gatekeeper.Prelude.{
  ℕ, zero, suc, String, nat_eq, if◌then◌else◌, Option, none, some, List, [], ◌∷◌, ◌++◌, length, ◌≡◌,
  refl, inr, arith,
}
use mc_gatekeeper.Result.{ok}
use mc_gatekeeper.Rcon.{
  Payload, packet, frame, create_packet_from_payload, create_payload_from_packet, read_body,
  send_payload,
}
use mc_gatekeeper.Rcon.Command.{Connection, connect_rcon, trim_left, trim_right, send_command}
use mc_gatekeeper.Rcon.Command.Answered.{connected, failed, IsReply, send_command-replied}

abbrev payload : ℕ → List ℕ → Payload
payload id body = record { packet_id = id; packet_type = 2; packet_body = body }

abbrev list : Payload
list = payload 300 (97 ∷ 98 ∷ [])

abbrev answer_bytes : List ℕ
answer_bytes = 14 ∷ 0 ∷ 0 ∷ 0 ∷ 7 ∷ 0 ∷ 0 ∷ 0 ∷ 2 ∷ 0 ∷ 0 ∷ 0 ∷ 0 ∷ 99 ∷ 100 ∷ 0 ∷ 0 ∷ 0 ∷ []

abbrev accepted_bytes : List ℕ
accepted_bytes = 10 ∷ 0 ∷ 0 ∷ 0 ∷ 5 ∷ 0 ∷ 0 ∷ 0 ∷ 2 ∷ 0 ∷ 0 ∷ 0 ∷ 0 ∷ 0 ∷ []

abbrev back : Connection
back = record {
  after_authentication = some accepted_bytes;
  after_command = λ rest. some (rest ++ answer_bytes);
}

abbrev dial : ℕ → Payload × Option Connection
dial zero = (payload 5 [], some back)
dial (suc n) = (payload 5 [], none)

-- The length of the body is what it says.
abbrev shown : List ℕ → String
shown bytes = if nat_eq (length bytes) 2 then "two" else "other"

running : Unit {0}
unfolding packet frame create_packet_from_payload create_payload_from_packet read_body send_payload
    connect_rcon trim_left trim_right
running = tt

answer-IsReply : IsReply (payload 7 (0 ∷ 99 ∷ 100 ∷ 0 ∷ [])) (some answer_bytes)
unfolding running
answer-IsReply = record {
  bytes = answer_bytes;
  more = [];
  made = refl;
  given = refl;
  id_bound = omega arith;
  type_bound = omega arith;
}

send_command-replied_example : send_command shown none dial list ≡ ok "two"
unfolding running
send_command-replied_example =
    send_command-replied shown dial list (payload 7 (0 ∷ 99 ∷ 100 ∷ 0 ∷ [])) (packet list) none refl
      (inr (
        "write",
        some answer_bytes,
        refl,
        failed "dial" refl (failed "dial" refl (connected [] refl)),
        answer-IsReply,
      ))
