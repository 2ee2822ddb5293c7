-- ===== src/Js/Text.antt =====
-- What the components use of JavaScript's texts: `trim`, `parseInt` and template literals.
use mc_gatekeeper.Prelude.{
  ℕ, zero, suc, ◌+◌, ◌-◌, ◌*◌, ◌/◌, ◌%◌, String, Char, code, Bool, true, false, ◌&&◌, ◌||◌, nat_eq,
  leb, ltb, Option, none, some, List, [], ◌∷◌, if◌then◌else◌,
}
use mc_gatekeeper.Prelude.Int.{ℤ, pos, negsuc}
use mc_gatekeeper.Js.{
  ◌>>=◌, Value, undefined, null, nan, bool, num, str, arr, obj, Elems, nil, cons,
}
use Prim.Native.String.{◌++◌}

-- `!s.trim()`: only white space and line ends.
abbrev is_space : Char → Bool
is_space c =
    let n = code c in
    leb 9 n && leb n 13
    || nat_eq n 32
    || nat_eq n 160
    || nat_eq n 5760
    || leb 8192 n && leb n 8202
    || nat_eq n 8232
    || nat_eq n 8233
    || nat_eq n 8239
    || nat_eq n 8287
    || nat_eq n 12288
    || nat_eq n 65279

unfoldable pub is_blank : String → Bool
is_blank String.[] = true
is_blank (String.◌∷◌ c s) = is_space c && is_blank s

abbrev codes : String → List ℕ
codes String.[] = []
codes (String.◌∷◌ c s) = code c ∷ codes s

skip_space : String → List ℕ
skip_space String.[] = []
skip_space (String.◌∷◌ c s) = if is_space c then skip_space s else code c ∷ codes s

-- The value of a digit, hexadecimal ones included; 99 for what is none.
abbrev digit_value : ℕ → ℕ
digit_value c =
    if leb b'0' c && leb c b'9'
    then c - b'0'
    else if leb b'a' c && leb c b'f'
    then c - 87
    else if leb b'A' c && leb c b'F'
    then c - 55
    else 99

-- The longest prefix of digits; `found` says whether there was one.
digits_from : ℕ → Bool → ℕ → List ℕ → Option ℕ
digits_from base found n [] = if found then some n else none
digits_from base found n (c ∷ cs) =
    let d = digit_value c in
    let rest = digits_from base true (n * base + d) cs in
    if ltb d base then rest else if found then some n else none

-- A leading `0x` makes the number hexadecimal.
abbrev unsigned : List ℕ → Option ℕ
unsigned (a ∷ b ∷ cs) =
    if nat_eq a b'0' && (nat_eq b b'x' || nat_eq b b'X')
    then digits_from 16 false 0 cs
    else digits_from 10 false 0 (a ∷ b ∷ cs)
unsigned cs = digits_from 10 false 0 cs

abbrev negate : ℕ → ℤ
negate zero = pos 0
negate (suc n) = negsuc n

abbrev number : (ℕ → ℤ) → Option ℕ → Value
number sign none = nan
number sign (some n) = num (sign n)

abbrev signed : List ℕ → Value
signed [] = nan
signed (c ∷ cs) =
    if nat_eq c b'-'
    then number negate (unsigned cs)
    else if nat_eq c b'+'
    then number pos (unsigned cs)
    else number pos (unsigned (c ∷ cs))

-- `parseInt(s)`. Numbers past 2^53 keep their digits, which a double does not.
unfoldable pub parse_int : String → Value
unfolding skip_space digits_from
parse_int s = signed (skip_space s)

abbrev digit : ℕ → String
digit d =
    if nat_eq d 0
    then "0"
    else if nat_eq d 1
    then "1"
    else if nat_eq d 2
    then "2"
    else if nat_eq d 3
    then "3"
    else if nat_eq d 4
    then "4"
    else if nat_eq d 5
    then "5"
    else if nat_eq d 6
    then "6"
    else if nat_eq d 7
    then "7"
    else if nat_eq d 8
    then "8"
    else "9"

-- The decimal digits of `n`, in front of `tail`; a number has fewer digits than itself and one.
decimal_from : ℕ → ℕ → String → String
decimal_from zero n tail = tail
decimal_from (suc fuel) n tail =
    let more = decimal_from fuel (n / 10) (digit (n % 10) ++ tail) in
    if ltb n 10 then digit n ++ tail else more

unfoldable pub decimal : ℕ → String
unfolding decimal_from
decimal n = decimal_from (suc n) n ""

abbrev pub show_int : ℤ → String
show_int (pos n) = decimal n
show_int (negsuc n) = "-" ++ decimal (suc n)

-- In a joined array `undefined` and `null` are left empty.
abbrev shown : Value → String → String
shown undefined s = ""
shown null s = ""
shown _ s = s

abbrev with_comma : Elems → String → String
with_comma nil s = ""
with_comma _ s = "," ++ s

-- `${v}`
unfoldable mutual
  unfolding decimal

  pub to_text : Value → String
  to_text undefined = "undefined"
  to_text null = "null"
  to_text nan = "NaN"
  to_text (bool true) = "true"
  to_text (bool false) = "false"
  to_text (num n) = show_int n
  to_text (str s) = s
  to_text (arr vs) = join vs
  to_text (obj fields) = "[object Object]"

  -- The elements of an array, with commas.
  pub join : Elems → String
  join nil = ""
  join (cons v vs) = shown v (to_text v) ++ with_comma vs (join vs)

-- `{v}` between tags: nothing for `undefined`, `null` and booleans, an array's elements one after
-- another; an object throws.
unfoldable mutual
  unfolding to_text

  pub child : Value → Option String
  child undefined = some ""
  child null = some ""
  child (bool b) = some ""
  child (obj fields) = none
  child (arr vs) = children vs
  child v = some (to_text v)

  children : Elems → Option String
  children nil = some ""
  children (cons v vs) = do s ← child v; rest ← children vs; some (s ++ rest)
