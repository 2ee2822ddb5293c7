-- ===== src/Tokens/Tests.antt =====
-- The tokens with the sample cipher.
use mc_gatekeeper.Prelude.{some, [], ◌∷◌, ◌≡◌, refl, arith}
use mc_gatekeeper.Result.{ok, panics}
use mc_gatekeeper.Tokens.{decode_and_decrypt, encode_and_encrypt}
use mc_gatekeeper.Tokens.Laws.{decode_and_decrypt-encode_and_encrypt, decode_and_decrypt-panics_iff}
use mc_gatekeeper.Tokens.Sample.{sample, encode, parse, sample-IsCrypto}

-- A byte is as many strokes as it is large.
short_token : encode_and_encrypt sample (some (1 ∷ 2 ∷ [])) "" "key" ≡ some "abaab"
unfolding encode_and_encrypt encode
short_token = refl

decode_and_decrypt-encode_and_encrypt_example : decode_and_decrypt sample "abaab" "key" ≡ ok ""
decode_and_decrypt-encode_and_encrypt_example =
    decode_and_decrypt-encode_and_encrypt sample sample-IsCrypto (1 ∷ 2 ∷ []) "" "key" "abaab" refl
      short_token

-- A token of one byte.
decode_and_decrypt-panics_iff_example : decode_and_decrypt sample "ab" "key" ≡ panics
unfolding parse
decode_and_decrypt-panics_iff_example =
    (decode_and_decrypt-panics_iff sample "ab" "key").1 (1 ∷ [], refl, omega arith)
