-- ===== src/Js.antt =====
-- The JavaScript values that reach the components: parsed JSON, URL parameters and the results of
-- property accesses. An access that throws a TypeError is `none`. Numbers are integers and NaN.
pub mod Text
use mc_gatekeeper.Prelude.{
  ℕ, zero, String, Bool, true, false, ◌==◌, Option, none, some, if◌then◌else◌,
}
use mc_gatekeeper.Prelude.Int.{ℤ, pos}

mutual
  pub data Value : Type 0 where
    undefined null nan : Value
    bool : Bool → Value
    num : ℤ → Value
    str : String → Value
    arr : Elems → Value
    obj : Fields → Value

  pub data Elems : Type 0 where
    nil : Elems
    cons : Value → Elems → Elems

  pub data Fields : Type 0 where
    end : Fields
    field : String → Value → Fields → Fields

-- A missing key reads as `undefined`.
abbrev pub lookup : String → Fields → Value
lookup key end = undefined
lookup key (field name v rest) = if name == key then v else lookup key rest

-- `v.key`: only `undefined` and `null` throw.
abbrev pub get : Value → String → Option Value
get undefined key = none
get null key = none
get (obj fields) key = some (lookup key fields)
get _ key = some undefined

-- `v[0]`
abbrev pub first : Value → Option Value
first undefined = none
first null = none
first (arr (cons v rest)) = some v
first (str (String.◌∷◌ c rest)) = some (str (String.◌∷◌ c String.[]))
first (obj fields) = some (lookup "0" fields)
first _ = some undefined

-- The truth of `if (v)`.
abbrev pub truthy : Value → Bool
truthy undefined = false
truthy null = false
truthy nan = false
truthy (bool b) = b
truthy (num (pos zero)) = false
truthy (str String.[]) = false
truthy _ = true

-- `v === "text"`
abbrev pub is_str : Value → String → Bool
is_str (str s) t = s == t
is_str _ t = false

infixl 5 ◌>>=◌
abbrev pub ◌>>=◌ {ℓ κ} : {A : Type ℓ} {B : Type κ} → Option A → (A → Option B) → Option B
none >>= f = none
some a >>= f = f a

-- How a promise of axios settles: with a status and the body, read as `A`, or with an error that carries the
-- status of the response, if there was one.
pub data Reply (A : Type 0) : Type 0 where
  fulfilled : ℕ → A → Reply A
  rejected : Option ℕ → Reply A

abbrev pub Outcome : Type 0
Outcome = Reply Value
