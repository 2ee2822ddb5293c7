-- ===== src/Rcon/Codec.antt =====
-- Reading back what is written, and what a packet's length may be.
use mc_gatekeeper.Prelude.{
  lt→ltb, le→ltb, ltb_false→le, ltb→lt, ℕ, ◌+◌, ◌-◌, ◌*◌, ◌/◌, ◌%◌, ◌≤◌, ◌<◌, ltb, List, [], ◌∷◌,
  ◌++◌, length, take, drop, length-append, take-append, drop-append, length-take, length-drop, ◌≡◌,
  ◌↔◌, refl, sym, subst, ◌∙◌, arith, inl, inr, Bool-cases,
}
use mc_gatekeeper.Result.{err≢panics, ok≢panics, ok-injective, ok≢err}
use mc_gatekeeper.Rcon.{
  frame, Payload, ok, panics, packet, put32, uint32, calculate_packet_size,
  create_packet_from_payload, read_body, create_payload_from_packet,
}
use Prim.Native.Nat.{◌^◌}

uint32-put32 : (w : ℕ) (rest : List ℕ) → w < 2 ^ 32 → uint32 (put32 w ++ rest) ≡ w
uint32-put32 w rest h = omega arith

length-frame : (p : Payload) → length (frame p) ≡ length p.packet_body + 10
unfolding frame
length-frame p = omega (arith, length-append p.packet_body (0 ∷ 0 ∷ []))

length-packet : (p : Payload) → length (packet p) ≡ length p.packet_body + 14
unfolding packet
length-packet p = omega (arith, length-frame p)

-- A body that is short enough.
made-packet :
    (p : Payload) → length p.packet_body < 1446 → create_packet_from_payload p ≡ ok (packet p)
unfolding create_packet_from_payload
made-packet p h = rw (lt→ltb (length (packet p)) 1460 (omega (arith, length-packet p))) refl

made-short :
    (p : Payload) (bytes : List ℕ)
    → create_packet_from_payload p ≡ ok bytes
    → length p.packet_body < 1446
unfolding create_packet_from_payload
made-short p bytes e = elim (Bool-cases (ltb (length (packet p)) 1460)) [
  | inl t ↦ omega (arith, length-packet p, ltb→lt _ _ t)
  | inr f ↦ absurd (ok≢err (sym (rw f at e)))
]

uint32-packet :
    (p : Payload) → length p.packet_body < 1446 → uint32 (packet p) + 4 ≡ length (packet p)
unfolding packet
uint32-packet p h = omega (arith, length-frame p, h)

-- A payload becomes a packet exactly when its body is shorter than 1446 bytes; the packet is 14
-- bytes longer, and its first four bytes count the rest.
pub create_packet_from_payload-length :
    (p : Payload)
    → ((length p.packet_body < 1446) ↔ (create_packet_from_payload p ≡ ok (packet p)))
      × (length (packet p) ≡ length p.packet_body + 14)
      × (length p.packet_body < 1446 → uint32 (packet p) + 4 ≡ length (packet p))
create_packet_from_payload-length p =
    ((made-packet p, made-short p (packet p)), length-packet p, uint32-packet p)

id-frame : (p : Payload) → p.packet_id < 2 ^ 32 → uint32 (frame p) ≡ p.packet_id
unfolding frame
id-frame p h = omega arith

type-frame : (p : Payload) → p.packet_type < 2 ^ 32 → uint32 (drop 4 (frame p)) ≡ p.packet_type
unfolding frame
type-frame p h = omega arith

tail-frame : (p : Payload) → drop 8 (frame p) ≡ p.packet_body ++ 0 ∷ 0 ∷ []
unfolding frame
tail-frame p = refl

body-frame : (p : Payload) → take (length (frame p) - 2 - 8) (drop 8 (frame p)) ≡ p.packet_body
body-frame p =
    let n : length (frame p) - 2 - 8 ≡ length p.packet_body = omega (arith, length-frame p) in
    rw (n, tail-frame p) (take-append p.packet_body (0 ∷ 0 ∷ []))

read-frame :
    (p : Payload) (rest : List ℕ)
    → p.packet_id < 2 ^ 32
    → p.packet_type < 2 ^ 32
    → length p.packet_body < 1446
    → read_body (length (frame p)) (frame p ++ rest) ≡ ok (p, rest)
unfolding read_body
read-frame p rest i t short =
    let fits = lt→ltb (length (frame p)) (2 ^ 31) (omega (arith, length-frame p)) in
    let there =
      le→ltb (length (frame p ++ rest)) (length (frame p))
        (omega (arith, length-append (frame p) rest)) in
    let long = le→ltb (length (frame p)) 10 (omega (arith, length-frame p)) in
    rw
      (
        fits,
        there,
        long,
        take-append (frame p) rest,
        drop-append (frame p) rest,
        id-frame p i,
        type-frame p t,
        body-frame p,
      )
      refl

read-packet :
    (p : Payload) (rest : List ℕ)
    → p.packet_id < 2 ^ 32
    → p.packet_type < 2 ^ 32
    → length p.packet_body < 1446
    → create_payload_from_packet (packet p ++ rest) ≡ ok (p, rest)
unfolding create_payload_from_packet packet
read-packet p rest i t short =
    let n : calculate_packet_size p % 256
          + 256 * (calculate_packet_size p / 256 % 256)
          + 65536 * (calculate_packet_size p / 65536 % 256)
          + 16777216 * (calculate_packet_size p / 16777216 % 256)
        ≡ length (frame p) =
      omega (arith, length-frame p, short) in
    rw n (read-frame p rest i t short)

-- What is written for a payload is read back as that payload, whatever follows it, and only that
-- is taken from the input.
pub create_payload_from_packet-packet :
    (p : Payload) (bytes rest : List ℕ)
    → p.packet_id < 2 ^ 32
    → p.packet_type < 2 ^ 32
    → create_packet_from_payload p ≡ ok bytes
    → create_payload_from_packet (bytes ++ rest) ≡ ok (p, rest)
create_payload_from_packet-packet p bytes rest i t made =
    let short = made-short p bytes made in
    let same = ok-injective (sym made ∙ made-packet p short) in
    rw same (read-packet p rest i t short)

-- Which branch of `read_body` is taken.
read_body-panics : (n : ℕ) (input : List ℕ) → read_body n input ≡ panics → 2 ^ 31 ≤ n
unfolding read_body
read_body-panics n input e = elim (Bool-cases (ltb n (2 ^ 31))) [
  | inr f ↦ ltb_false→le n (2 ^ 31) f
  | inl t ↦ elim (Bool-cases (ltb (length input) n)) [
    | inl b ↦ absurd (err≢panics (rw (t, b) at e))
    | inr b ↦ elim (Bool-cases (ltb n 10)) [
      | inl c ↦ absurd (err≢panics (rw (t, b, c) at e))
      | inr c ↦ absurd (ok≢panics (rw (t, b, c) at e))
    ]
  ]
]

read_body-negative : (n : ℕ) (input : List ℕ) → 2 ^ 31 ≤ n → read_body n input ≡ panics
unfolding read_body
read_body-negative n input h = rw (le→ltb n (2 ^ 31) h) refl

taken :
    (n : ℕ) (input : List ℕ)
    → n ≤ length input
    → 10 ≤ n
    → length input ≡ length (take (n - 2 - 8) (drop 8 (take n input))) + 10 + length (drop n input)
taken n input fits long =
    let a = length-take n input fits in
    let b = length-drop 8 (take n input) (omega (arith, a)) in
    let c = length-take (n - 2 - 8) (drop 8 (take n input)) (omega (arith, a, b)) in
    omega (arith, a, b, c, length-drop n input fits)

read_body-length :
    (n : ℕ) (input rest : List ℕ) (p : Payload)
    → read_body n input ≡ ok (p, rest)
    → length input ≡ length p.packet_body + 10 + length rest
unfolding read_body
read_body-length n input rest p e = elim (Bool-cases (ltb n (2 ^ 31))) [
  | inr f ↦ absurd (ok≢panics (sym (rw f at e)))
  | inl t ↦ elim (Bool-cases (ltb (length input) n)) [
    | inl b ↦ absurd (ok≢err (sym (rw (t, b) at e)))
    | inr b ↦ elim (Bool-cases (ltb n 10)) [
      | inl c ↦ absurd (ok≢err (sym (rw (t, b, c) at e)))
      | inr c ↦
          let same = ok-injective (rw (t, b, c) at e) in
          subst (λ q. length input ≡ length q.0.packet_body + 10 + length q.1) same
            (taken n input (ltb_false→le (length input) n b) (ltb_false→le n 10 c))
    ]
  ]
]

-- The reader panics exactly where four bytes are there and the length that they hold is negative.
pub create_payload_from_packet-panics_iff :
    (input : List ℕ)
    → (create_payload_from_packet input ≡ panics) ↔ ((4 ≤ length input) × (2 ^ 31 ≤ uint32 input))
unfolding create_payload_from_packet
create_payload_from_packet-panics_iff [] = (λ e. absurd (err≢panics e), λ h. absurd (omega arith))
create_payload_from_packet-panics_iff (a ∷ []) =
    (λ e. absurd (err≢panics e), λ h. absurd (omega arith))
create_payload_from_packet-panics_iff (a ∷ b ∷ []) =
    (λ e. absurd (err≢panics e), λ h. absurd (omega arith))
create_payload_from_packet-panics_iff (a ∷ b ∷ c ∷ []) =
    (λ e. absurd (err≢panics e), λ h. absurd (omega arith))
create_payload_from_packet-panics_iff (a ∷ b ∷ c ∷ d ∷ input) =
    (λ e. (omega arith, read_body-panics _ input e), λ h. read_body-negative _ input h.1)

-- A payload that is read takes 14 bytes more than its body from the input, and leaves the rest.
pub create_payload_from_packet-length :
    (input rest : List ℕ) (p : Payload)
    → create_payload_from_packet input ≡ ok (p, rest)
    → length input ≡ length p.packet_body + 14 + length rest
unfolding create_payload_from_packet
create_payload_from_packet-length [] rest p e = absurd (ok≢err (sym e))
create_payload_from_packet-length (a ∷ []) rest p e = absurd (ok≢err (sym e))
create_payload_from_packet-length (a ∷ b ∷ []) rest p e = absurd (ok≢err (sym e))
create_payload_from_packet-length (a ∷ b ∷ c ∷ []) rest p e = absurd (ok≢err (sym e))
create_payload_from_packet-length (a ∷ b ∷ c ∷ d ∷ input) rest p e =
    omega (arith, read_body-length _ input rest p e)
