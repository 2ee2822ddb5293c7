-- ===== src/Types.antt =====
-- server/types/types.go: a whitelist request as the server keeps it. An instant is the number of
-- nanoseconds since Go's zero time.
use mc_gatekeeper.Prelude.{ℕ, String, List}
use mc_gatekeeper.Prelude.Int.{ℤ}
use mc_gatekeeper.Js.{Value}

pub record Request : Type 0 where
  pub id : String
  pub username : String
  pub email : String
  pub age : ℤ
  pub gender : String
  pub status : String
  pub timestamp : ℕ
  pub processed_timestamp : ℕ
  pub last_updated_timestamp : ℕ
  pub admin : String
  pub note : String
  pub info : Value
  pub assignees : List String
