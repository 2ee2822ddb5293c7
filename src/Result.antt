-- ===== src/Result.antt =====
-- What a function of the server returns, or that the program panics.
use mc_gatekeeper.Prelude.{String, ◌≡◌, ◌⊎◌, inl, inr, refl, arith}

pub data Result (A : Type 0) : Type 0 where
  ok : A → Result A
  err : String → Result A
  panics : Result A

pub err≢panics : {A : Type 0} {e : String} → ◌≡◌ {A = Result A} (err e) panics → ⊥
err≢panics e = ground arith

pub ok≢panics : {A : Type 0} {a : A} → ok a ≡ panics → ⊥
ok≢panics e = ground arith

pub ok≢err : {A : Type 0} {a : A} {e : String} → ok a ≡ err e → ⊥
ok≢err e = ground arith

pub ok-injective : {A : Type 0} {a b : A} → ok a ≡ ok b → a ≡ b
ok-injective e = cc

pub Result-cases :
    {A : Type 0} (r : Result A)
    → ((a : A) × (r ≡ ok a)) ⊎ ((e : String) × (r ≡ err e)) ⊎ (r ≡ panics)
Result-cases (ok a) = inl (a, refl)
Result-cases (err e) = inr (inl (e, refl))
Result-cases panics = inr (inr refl)
