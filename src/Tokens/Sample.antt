-- ===== src/Tokens/Sample.antt =====
-- A cipher and an encoding that have the laws: the data is sealed as it is, and a byte is written in
-- strokes.
use mc_gatekeeper.Prelude.{
  ℕ, zero, suc, String, Option, none, some, List, [], ◌∷◌, nat_eq, if◌then◌else◌, ◌≡◌, ◌≢◌, refl,
  ap, ◌∙◌, arith, inl, inr, Option-cases,
}
use Prim.Native.Nat.{Ordering, compare}
use Prim.Native.Char.{Char, char, code, IsLt, nul}
use text.Mathlib.TextEquality.{Char-path}
use mathlib.Core.Option.{some-ne-none}
use mc_gatekeeper.Tokens.{Crypto}
use mc_gatekeeper.Tokens.Laws.{IsCrypto}

abbrev codes : String → List ℕ
codes String.[] = []
codes (String.◌∷◌ c s) = code c ∷ codes s

-- The two helpers of `IsScalar`.
abbrev Both : Ordering → Ordering → Type 0
Both Ordering.lt o = IsLt o
Both Ordering.eq _ = ⊥
Both Ordering.gt _ = ⊥

abbrev Scalar : Ordering → Ordering → Ordering → Type 0
Scalar Ordering.lt _ _ = Unit
Scalar Ordering.eq o p = Both o p
Scalar Ordering.gt o p = Both o p

-- Either a proof, or that there is none.
decide_less : (o : Ordering) → Option (IsLt o)
decide_less Ordering.lt = some tt
decide_less Ordering.eq = none
decide_less Ordering.gt = none

decide_both : (o p : Ordering) → Option (Both o p)
decide_both Ordering.lt p = decide_less p
decide_both Ordering.eq _ = none
decide_both Ordering.gt _ = none

decide_scalar : (o p q : Ordering) → Option (Scalar o p q)
decide_scalar Ordering.lt _ _ = some tt
decide_scalar Ordering.eq p q = decide_both p q
decide_scalar Ordering.gt p q = decide_both p q

decided_less : (o : Ordering) → IsLt o → decide_less o ≢ none
unfolding decide_less
decided_less Ordering.lt _ e = some-ne-none _ e
decided_less Ordering.eq x e = absurd x
decided_less Ordering.gt x e = absurd x

decided_both : (o p : Ordering) → Both o p → decide_both o p ≢ none
unfolding decide_both
decided_both Ordering.lt p x e = decided_less p x e
decided_both Ordering.eq _ x e = absurd x
decided_both Ordering.gt _ x e = absurd x

decided : (o p q : Ordering) → Scalar o p q → decide_scalar o p q ≢ none
unfolding decide_scalar
decided Ordering.lt _ _ _ e = some-ne-none _ e
decided Ordering.eq p q x e = decided_both p q x e
decided Ordering.gt p q x e = decided_both p q x e

char_of : ℕ → Char
unfolding decide_scalar
char_of n = elim (decide_scalar (compare n 55296) (compare 57343 n) (compare n 1114112)) [
  | none ↦ nul
  | some p ↦ char n p
]

char_of-code : (c : Char) → char_of (code c) ≡ c
unfolding char_of
char_of-code (char n p) =
    elim (Option-cases (decide_scalar (compare n 55296) (compare 57343 n) (compare n 1114112))) [
      | inl e ↦ absurd (decided (compare n 55296) (compare 57343 n) (compare n 1114112) p e)
      | inr (q, e) ↦ rw (e, char_of) (Char-path (char n q) (char n p) refl)
    ]

pub string_of : List ℕ → String
string_of [] = String.[]
string_of (n ∷ ns) = String.◌∷◌ (char_of n) (string_of ns)

string_of-codes : (s : String) → string_of (codes s) ≡ s
unfolding string_of
string_of-codes String.[] = refl
string_of-codes (String.◌∷◌ c s) =
    ap (λ d. String.◌∷◌ d (string_of (codes s))) (char_of-code c)
    ∙ ap (String.◌∷◌ c) (string_of-codes s)

unfoldable pub strokes : ℕ → String → String
strokes zero rest = String.◌∷◌ "b" rest
strokes (suc n) rest = String.◌∷◌ "a" (strokes n rest)

unfoldable pub encode : List ℕ → String
unfolding strokes
encode [] = ""
encode (n ∷ ns) = strokes n (encode ns)

abbrev one_more : List ℕ → List ℕ
one_more [] = []
one_more (n ∷ ns) = suc n ∷ ns

unfoldable pub parse : String → List ℕ
parse String.[] = []
parse (String.◌∷◌ c s) =
    let rest = parse s in if nat_eq (code c) 97 then one_more rest else 0 ∷ rest

parse-strokes : (n : ℕ) (rest : String) → parse (strokes n rest) ≡ n ∷ parse rest
unfolding parse strokes
parse-strokes zero rest = refl
parse-strokes (suc n) rest = ap one_more (parse-strokes n rest)

parse-encode : (ns : List ℕ) → parse (encode ns) ≡ ns
unfolding parse encode
parse-encode [] = refl
parse-encode (n ∷ ns) = parse-strokes n (encode ns) ∙ ap (λ x. n ∷ x) (parse-encode ns)

abbrev pub sample : Crypto
sample = record {
  create_hash = λ s. s;
  nonce_size = 2;
  seal = λ key nonce content. content;
  unseal = λ key nonce content. some content;
  encode = encode;
  decode = λ s. some (parse s);
  bytes = codes;
  text = string_of;
}

pub sample-IsCrypto : IsCrypto sample
unfolding parse
sample-IsCrypto = record {
  unseal-seal = λ key nonce content size. refl;
  decode-encode = λ content. ap some (parse-encode content);
  decode-nil = refl;
  nonce_size-pos = omega arith;
  text-bytes = string_of-codes;
}
