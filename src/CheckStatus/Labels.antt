-- ===== src/CheckStatus/Labels.antt =====
-- How the status of a request looks on the status page.
use mc_gatekeeper.Prelude.{String, false, ◌==◌, if◌then◌else◌, ◌≡◌, refl, sym, ◌∙◌, eq_iff}
use mathlib.Core.Bool.{true≢false}
use mc_gatekeeper.Js.{str}
use mc_gatekeeper.CheckStatus.{get_button_color, get_application_status_text}
use mc_gatekeeper.Dashboard.Landing.Transitions.{◌⟶◌, approving, denying, deactivating, banning}
use Prim.Native.String.{◌++◌}

apart : (s t : String) → (s == t) ≡ false → s ≡ t → ⊥
apart s t fails e = true≢false (sym ((eq_iff s t).1 e) ∙ fails)

module _ (t : String → String) where
  -- What the page shows for a status.
  abbrev pub shown : String → String × String
  shown s = (get_application_status_text t (str s), get_button_color (str s))

  abbrev pub color : String → String
  color s = if s == "Approved" then "success" else if s == "Denied" then "danger" else "info"

  lost : {s u : String} → s ⟶ u → s ≡ "Approved" → shown u ≡ ("", "info")
  unfolding get_application_status_text get_button_color
  lost approving e = absurd (apart "Pending" "Approved" refl e)
  lost denying e = absurd (apart "Pending" "Approved" refl e)
  lost deactivating e = refl
  lost banning e = refl

  kept : {s u : String} → s ⟶ u → s ≡ "Pending" → shown u ≡ (t ("Status." ++ u), color u)
  unfolding get_application_status_text get_button_color
  kept approving e = refl
  kept denying e = refl
  kept deactivating e = absurd (apart "Approved" "Pending" refl e)
  kept banning e = absurd (apart "Approved" "Pending" refl e)

  -- A pending request and one that was just decided are shown with the text of their status and a
  -- color of their own; one that was approved and then deactivated or banned has no text, and the
  -- color of a pending one.
  pub shown_life :
      (u : String)
      → (shown "Pending" ≡ (t "Status.Pending", "info"))
        × ("Pending" ⟶ u → shown u ≡ (t ("Status." ++ u), color u))
        × ("Approved" ⟶ u → shown u ≡ ("", "info"))
  unfolding get_application_status_text get_button_color
  shown_life u = (refl, λ m. kept m refl, λ m. lost m refl)
