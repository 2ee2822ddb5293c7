-- ===== src/Tokens/Laws.antt =====
-- A token is read back as the text that it was made of, and which texts make the reader panic.
use mc_gatekeeper.Prelude.{
  ℕ, ◌<◌, String, false, ltb, some, List, [], ◌++◌, length, take, drop, take-append, drop-append,
  length-append, ◌≡◌, ◌≢◌, ◌↔◌, refl, sym, ap, ◌∙◌, subst, inl, inr, arith, Bool-cases,
  Option-cases, le→ltb, ltb→lt, lt→ltb,
}
use mathlib.Core.Option.{some-injective, some-ne-none}
use mathlib.Core.Bool.{true≢false}
use mc_gatekeeper.Result.{ok, panics, err≢panics, ok≢panics}
use mc_gatekeeper.Tokens.{Crypto, encrypt, decrypt, encode_and_encrypt, decode_and_decrypt}

-- What is documented of the ciphers and the encodings.
pub record IsCrypto (g : Crypto) : Type 0 where
  pub unseal-seal :
      (key : String) (nonce content : List ℕ)
      → length nonce ≡ g.nonce_size
      → g.unseal key nonce (g.seal key nonce content) ≡ some content
  pub decode-encode : (content : List ℕ) → g.decode (g.encode content) ≡ some content
  pub decode-nil : g.decode "" ≡ some []
  pub nonce_size-pos : 0 < g.nonce_size
  pub text-bytes : (s : String) → g.text (g.bytes s) ≡ s

module _ (g : Crypto) where
  module _ (laws : IsCrypto g) where
    decrypt-sealed :
        (nonce content : List ℕ) (passphrase : String)
        → length nonce ≡ g.nonce_size
        → decrypt g (nonce ++ g.seal (g.create_hash passphrase) nonce content) passphrase
          ≡ ok content
    unfolding decrypt
    decrypt-sealed nonce content passphrase size =
        let sealed = g.seal (g.create_hash passphrase) nonce content in
        let enough =
          le→ltb (length (nonce ++ sealed)) g.nonce_size
            (omega (arith, length-append nonce sealed, size)) in
        let front = subst (λ n. take n (nonce ++ sealed) ≡ nonce) size (take-append nonce sealed) in
        let back = subst (λ n. drop n (nonce ++ sealed) ≡ sealed) size (drop-append nonce sealed) in
        simp
          (
            enough,
            front,
            back,
            laws.unseal-seal (g.create_hash passphrase) nonce content size,
            decrypt,
          )
          refl

    -- A token that was made with a nonce of the right length is read back as its text.
    pub decode_and_decrypt-encode_and_encrypt :
        (nonce : List ℕ) (s passphrase token : String)
        → length nonce ≡ g.nonce_size
        → encode_and_encrypt g (some nonce) s passphrase ≡ some token
        → decode_and_decrypt g token passphrase ≡ ok s
    unfolding encode_and_encrypt decode_and_decrypt encrypt
    decode_and_decrypt-encode_and_encrypt nonce s passphrase token size made =
        subst (λ x. decode_and_decrypt g x passphrase ≡ ok s) (some-injective _ _ made)
          (simp
            (
              laws.decode-encode (nonce ++ g.seal (g.create_hash passphrase) nonce (g.bytes s)),
              decode_and_decrypt,
              decrypt-sealed nonce (g.bytes s) passphrase size,
            )
            (ap ok (laws.text-bytes s)))

  long-ok :
      (s passphrase : String) (content : List ℕ)
      → g.decode s ≡ some content
      → ltb (length content) g.nonce_size ≡ false
      → decode_and_decrypt g s passphrase ≢ panics
  unfolding decode_and_decrypt decrypt
  long-ok s passphrase content found long e =
      elim (Option-cases (
        g.unseal (g.create_hash passphrase) (take g.nonce_size content)
          (drop g.nonce_size content))) [
            | inl u ↦ err≢panics (simp (found, long, u, decode_and_decrypt, decrypt) at e)
            | inr (d, u) ↦ ok≢panics (simp (found, long, u, decode_and_decrypt, decrypt) at e)
          ]

  -- The empty text is not a token.
  pub decode_and_decrypt-nil :
      (passphrase : String) → IsCrypto g → decode_and_decrypt g "" passphrase ≡ panics
  unfolding decode_and_decrypt decrypt
  decode_and_decrypt-nil passphrase laws =
      simp (laws.decode-nil, lt→ltb 0 g.nonce_size laws.nonce_size-pos, decode_and_decrypt, decrypt)
        refl

  -- Reading panics exactly where the text is base64 of fewer bytes than a nonce.
  pub decode_and_decrypt-panics_iff :
      (s passphrase : String)
      → (decode_and_decrypt g s passphrase ≡ panics)
        ↔ ((content : List ℕ) × (g.decode s ≡ some content) × (length content < g.nonce_size))
  unfolding decode_and_decrypt decrypt
  decode_and_decrypt-panics_iff s passphrase = elim (Option-cases (g.decode s)) [
    | inl n ↦ (
      λ e. absurd (err≢panics (rw (n, decode_and_decrypt) at e)),
      λ x. absurd (some-ne-none x.0 (sym x.1 ∙ n)),
    )
    | inr (content, found) ↦ elim (Bool-cases (ltb (length content) g.nonce_size)) [
      | inl short ↦ (
        λ e. (content, found, ltb→lt (length content) g.nonce_size short),
        λ x. simp (found, short, decode_and_decrypt, decrypt) refl,
      )
      | inr long ↦ (
        λ e. absurd (long-ok s passphrase content found long e),
        λ x. absurd (
            true≢false (
              sym (lt→ltb (length x.0) g.nonce_size x.2)
              ∙ ap (λ d. ltb (length d) g.nonce_size) (some-injective _ _ (sym x.1 ∙ found))
              ∙ long)),
      )
    ]
  ]
