-- ===== src/Tokens.antt =====
-- server/utils/encrypt.go: the tokens in the links. Bytes are numbers; the ciphers and the encoding
-- are those of Go's library: `create_hash` the key of a passphrase, `seal` and `unseal` the two
-- operations of GCM, `nonce_size` its length of a nonce, `encode` and `decode` base64 for URLs,
-- `bytes` and `text` the conversions of a string. A call of `encrypt` carries the nonce that it
-- reads, none where that fails.
pub mod Laws
pub mod Sample
mod Tests
use mc_gatekeeper.Prelude.{
  ℕ, String, Bool, ltb, Option, none, some, List, [], ◌∷◌, ◌++◌, length, take, drop, if◌then◌else◌,
}
use mc_gatekeeper.Result.{Result, ok, err, panics}

pub record Crypto : Type 0 where
  pub create_hash : String → String
  pub nonce_size : ℕ
  pub seal : String → List ℕ → List ℕ → List ℕ
  pub unseal : String → List ℕ → List ℕ → Option (List ℕ)
  pub encode : List ℕ → String
  pub decode : String → Option (List ℕ)
  pub bytes : String → List ℕ
  pub text : List ℕ → String

module _ (g : Crypto) where
  -- `encrypt`: the nonce and the sealed data.
  unfoldable pub encrypt : Option (List ℕ) → List ℕ → String → Option (List ℕ)
  encrypt none content passphrase = none
  encrypt (some nonce) content passphrase =
      some (nonce ++ g.seal (g.create_hash passphrase) nonce content)

  -- `decrypt`: slicing data that is shorter than a nonce panics.
  unfoldable pub decrypt : List ℕ → String → Result (List ℕ)
  decrypt content passphrase =
      if ltb (length content) g.nonce_size
      then panics
      else elim (g.unseal (g.create_hash passphrase) (take g.nonce_size content)
          (drop g.nonce_size content)) [
            | none ↦ err "message authentication failed"
            | some d ↦ ok d
          ]

  -- `EncodeAndEncrypt`
  unfoldable pub encode_and_encrypt : Option (List ℕ) → String → String → Option String
  unfolding encrypt
  encode_and_encrypt nonce s passphrase = elim (encrypt nonce (g.bytes s) passphrase) [
    | none ↦ none
    | some content ↦ some (g.encode content)
  ]

  -- `DecodeAndDecrypt`
  unfoldable pub decode_and_decrypt : String → String → Result String
  unfolding decrypt
  decode_and_decrypt s passphrase = elim (g.decode s) [
    | none ↦ err "illegal base64 data"
    | some content ↦ elim (decrypt content passphrase) [
      | ok d ↦ ok (g.text d)
      | err e ↦ err e
      | panics ↦ panics
    ]
  ]
