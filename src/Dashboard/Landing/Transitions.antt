-- ===== src/Dashboard/Landing/Transitions.antt =====
-- The life of a whitelist request, and the actions that the table offers in it.
use mc_gatekeeper.Prelude.{String, true, false, ◌==◌, ◌≡◌, sym, subst, arith, eq_iff}
use mc_gatekeeper.Dashboard.{WhitelistRequest}
use mc_gatekeeper.Dashboard.Landing.{Action, approve, deny, deactivate, ban, target, hidden}

-- The life of a whitelist request.
infix 40 ◌⟶◌
pub data ◌⟶◌ : String → String → Type 0 where
  approving : "Pending" ⟶ "Approved"
  denying : "Pending" ⟶ "Denied"
  deactivating : "Approved" ⟶ "Deactivated"
  banning : "Approved" ⟶ "Banned"

-- An offered action is a transition of its row.
from : (s t : String) {u : String} → (s == t) ≡ true → t ⟶ u → s ⟶ u
from s t {u} e move = subst (λ x. x ⟶ u) (sym ((eq_iff s t).0 e)) move

pub hidden-move :
    (a : Action) (row : WhitelistRequest) → hidden a row ≡ false → row.status ⟶ target a
unfolding hidden
hidden-move approve row h = from row.status "Pending" (ground arith) approving
hidden-move deny row h = from row.status "Pending" (ground arith) denying
hidden-move deactivate row h = from row.status "Approved" (ground arith) deactivating
hidden-move ban row h = from row.status "Approved" (ground arith) banning
