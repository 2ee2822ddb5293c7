-- ===== src/Dashboard.antt =====
-- app/src/components/Dashboard: the drawer of Dashboard.js, and the records that the pages below it
-- show. The server sends the fields of types.WhitelistRequest (server/types/types.go); what the
-- table puts in their place are texts too.
pub mod Landing
mod Chart
mod Metrics
mod View
use mc_gatekeeper.Prelude.{String, Bool, true, false, ◌==◌, Option, none, some, List, if◌then◌else◌}
use mc_gatekeeper.Prelude.Int.{ℤ}
use mc_gatekeeper.Js.{Value}

pub record WhitelistRequest : Type 0 where
  pub id : String
  pub username : String
  pub email : String
  pub age : ℤ
  pub gender : String
  pub status : String
  pub timestamp : String
  pub processed_timestamp : String
  pub last_updated_timestamp : String
  pub admin : String
  pub note : String
  pub info : Value
  pub assignees : List String

pub record Drawer : Type 0 where
  pub open_drawer : Bool
  pub view : String

abbrev pub initial_drawer : Drawer
initial_drawer = record { open_drawer = true; view = "landing" }

unfoldable pub handle_drawer_open : Drawer → Drawer
handle_drawer_open d = record d { open_drawer = true }

unfoldable pub handle_drawer_close : Drawer → Drawer
handle_drawer_close d = record d { open_drawer = false }

unfoldable pub handle_switch_view : String → Drawer → Drawer
handle_switch_view v d = record d { view = v }

-- Which page is mounted.
pub data Mounted : Type 0 where
  landing metrics nothing : Mounted

unfoldable pub mounted : Drawer → Mounted
mounted d =
    if d.view == "landing" then landing else if d.view == "metrics" then metrics else nothing
