-- ===== src/Dashboard/Landing/View.antt =====
-- `render` of app/src/components/Dashboard/landing/landing.js and Table.js. The table and the CSV
-- link are material-table's and react-csv's, elements with what they are given.
use mc_gatekeeper.Prelude.{
  String, Bool, true, false, not, ◌==◌, Option, none, some, List, [], ◌∷◌, ◌≡◌, ◌⊎◌, ◌↔◌, refl, inl,
  inr, sym, ap, ◌∙◌, Bool-cases, eq_iff, if◌then◌else◌,
}
use mathlib.Core.Bool.{true≢false}
use mathlib.Core.Option.{some-ne-none}
use mc_gatekeeper.Js.{Value, undefined, null, nan, bool, num, str, arr, obj, get}
use mc_gatekeeper.Js.Text.{to_text}
use mc_gatekeeper.Jsx.{Node, text, prop, flag, on, element, nil, leaf, ◌⊹◌}
use mc_gatekeeper.Dashboard.{WhitelistRequest}
use mc_gatekeeper.Dashboard.Landing.{
  State, Action, approve, deny, deactivate, ban, hidden, get_action_confirm_msg,
}

pub data Handler : Type 0 where
  dialog_close dialog_confirm : Handler

abbrev Tree : Type 0
Tree = Node Handler

-- `csvHeaders`: labels and keys
abbrev pub csv_headers : List (String × String)
csv_headers =
    ("ID", "_id")
    ∷ ("Username", "username")
    ∷ ("Email", "email")
    ∷ ("Age", "age")
    ∷ ("Application Submitted", "timestamp")
    ∷ ("Status", "status")
    ∷ ("Processed Time", "processedTimestamp")
    ∷ ("Last Status Update Time", "lastUpdatedTimestamp")
    ∷ ("Assignees", "assignees")
    ∷ ("Admin", "admin")
    ∷ ("Note", "note")
    ∷ ("Application Info", "info.applicationText`")
    ∷ []

-- The icon of an action's button.
abbrev pub icon : Action → String
icon approve = "check"
icon deny = "close"
icon deactivate = "cancel"
icon ban = "delete"

abbrev pub actions : List Action
actions = approve ∷ deny ∷ deactivate ∷ ban ∷ []

abbrev shown_of : WhitelistRequest → List Action → List String
shown_of row [] = []
shown_of row (a ∷ rest) =
    let others = shown_of row rest in if hidden a row then others else icon a ∷ others

-- The buttons of a row.
abbrev pub buttons : WhitelistRequest → List String
buttons row = shown_of row actions

abbrev is_nullish : Value → Bool
is_nullish undefined = true
is_nullish null = true
is_nullish _ = false

some_shown :
    (v : Value)
    → is_nullish v ≡ false
    → (tree : Tree) → (some tree ≡ none) ↔ ((v ≡ undefined) ⊎ (v ≡ null))
some_shown v solid tree = (
  λ e. absurd (some-ne-none _ e),
  λ x. elim x [
    | inl e ↦ absurd (true≢false (sym (ap is_nullish e) ∙ solid))
    | inr e ↦ absurd (true≢false (sym (ap is_nullish e) ∙ solid))
  ],
)

module _ (t : String → String) where
  abbrev pub tooltip : Action → String
  tooltip approve = t "Dashboard.Table.ApproveTooltip"
  tooltip deny = t "Dashboard.Table.DenyTooltip"
  tooltip deactivate = "Deactivate the user"
  tooltip ban = "Ban the user"

  -- `columns`: titles and fields
  abbrev pub columns : List (String × String)
  columns =
      (t "Dashboard.Table.ID", "_id")
      ∷ (t "Dashboard.Table.Username", "username")
      ∷ (t "Dashboard.Table.Email", "email")
      ∷ ("Gender", "gender")
      ∷ ("Age", "age")
      ∷ (t "Dashboard.Table.Submitted", "timestamp")
      ∷ (t "Dashboard.Table.Status", "status")
      ∷ (t "Dashboard.Table.Processed", "processedTimestamp")
      ∷ (t "Dashboard.Table.LastUpdatedTimestamp", "lastUpdatedTimestamp")
      ∷ (t "Dashboard.Table.Admin", "admin")
      ∷ (t "Dashboard.Table.Assignees", "assignees")
      ∷ []

  abbrev panel : String → Value → Tree
  panel note application_text = element "div" [] (
      element "List" (prop "component" "nav" ∷ prop "aria-label" "main mailbox folders" ∷ []) (
        element "ListItem" [] (
          element "ListItemIcon" [] (leaf "NotesIcon" [] ⊹ text " " ⊹ nil)
          ⊹ leaf "ListItemText" (prop "primary" (to_text application_text) ∷ [])
          ⊹ nil)
        ⊹ element "ListItem"
            (flag "button" true
              ∷ prop "style.display" (if not (note == "") then "" else "none")
              ∷ [])
            (element "ListItemIcon" [] (
                leaf "CommentIcon" []
                ⊹ text " "
                ⊹ element "stong" [] (text (t "Dashboard.Table.Note") ⊹ nil)
                ⊹ nil)
              ⊹ leaf "ListItemText" (prop "primary" note ∷ [])
              ⊹ nil)
        ⊹ nil)
      ⊹ nil)

  -- `detailPanel`, which throws for an `info` of `null`.
  unfoldable pub detail_panel : WhitelistRequest → Option Tree
  detail_panel row = elim (get row.info "applicationText") [
    | none ↦ none
    | some application_text ↦ some (panel row.note application_text)
  ]

  abbrev dialog : State → Tree
  dialog s =
      element "Dialog"
        (flag "open" s.dialog_open
          ∷ on "onClose" dialog_close
          ∷ prop "aria-labelledby" "alert-dialog-title"
          ∷ prop "aria-describedby" "alert-dialog-description"
          ∷ [])
        (element "DialogTitle" (prop "id" "alert-dialog-title" ∷ []) (text "Confirmation" ⊹ nil)
          ⊹ element "DialogContent" [] (
              element "DialogContentText" (prop "id" "alert-dialog-description" ∷ [])
                (text (get_action_confirm_msg s) ⊹ nil)
              ⊹ nil)
          ⊹ element "DialogActions" [] (
              element "Button" (on "onClick" dialog_close ∷ prop "color" "primary" ∷ [])
                (text "Cancel" ⊹ nil)
              ⊹ element "Button"
                  (on "onClick" dialog_confirm
                    ∷ prop "color" "primary"
                    ∷ flag "autoFocus" true
                    ∷ [])
                  (text "Confirm" ⊹ nil)
              ⊹ nil)
          ⊹ nil)

  abbrev material_table : Tree
  material_table = leaf "MaterialTable" (
      prop "title" (t "Dashboard.Table.AllRequests")
      ∷ prop "options.actionsColumnIndex" "-1"
      ∷ flag "options.exportButton" true
      ∷ flag "options.grouping" true
      ∷ [])

  -- `Table.render`
  unfoldable pub render_table : State → Tree
  render_table s = elim s.auth_header [
    | none ↦ element "div" [] (text "Loading..." ⊹ nil)
    | some config ↦ element "div" [] (
        element "div" [] (dialog s ⊹ nil)
        ⊹ leaf "CSVLink"
            (prop "filename" "data.csv" ∷ prop "className" "hidden" ∷ prop "target" "_blank" ∷ [])
        ⊹ material_table
        ⊹ nil)
  ]

  -- `Landing.render`
  unfoldable pub render : State → Tree
  unfolding render_table
  render s = elim s.requests [
    | none ↦ element "div" [] (text "Loading..." ⊹ nil)
    | some rows ↦ element "Container" (prop "maxWidth" "lg" ∷ prop "className" "container" ∷ []) (
        element "Grid" (flag "container" true ∷ prop "spacing" "3" ∷ []) (
          element "Grid" (flag "item" true ∷ prop "xs" "12" ∷ prop "md" "12" ∷ prop "lg" "12" ∷ [])
            (element "Paper" (prop "className" "paper" ∷ prop "className" "fixedHeight" ∷ [])
                (leaf "Chart" [] ⊹ nil)
              ⊹ nil)
          ⊹ element "Grid" (flag "item" true ∷ prop "xs" "12" ∷ [])
              (element "Paper" (prop "className" "paper" ∷ []) (render_table s ⊹ nil) ⊹ nil)
          ⊹ nil)
        ⊹ nil)
  ]

  -- Opening the details of a row throws exactly where its request has no information.
  pub detail_panel-throws_iff :
      (row : WhitelistRequest)
      → (detail_panel row ≡ none) ↔ ((row.info ≡ undefined) ⊎ (row.info ≡ null))
  unfolding detail_panel
  detail_panel-throws_iff row = go row.info
    where
      go :
          (v : Value)
          → (detail_panel (record row { info = v }) ≡ none) ↔ ((v ≡ undefined) ⊎ (v ≡ null))
      go undefined = (λ e. inl refl, λ x. refl)
      go null = (λ e. inr refl, λ x. refl)
      go nan = some_shown nan refl _
      go (bool b) = some_shown (bool b) refl _
      go (num n) = some_shown (num n) refl _
      go (str s) = some_shown (str s) refl _
      go (arr a) = some_shown (arr a) refl _
      go (obj a) = some_shown (obj a) refl _

-- The buttons of a row are those of the next steps in the life of its request.
pub buttons_lem :
    (row : WhitelistRequest)
    → buttons row ≡ (
        if row.status == "Pending"
        then "check" ∷ "close" ∷ []
        else if row.status == "Approved"
        then "cancel" ∷ "delete" ∷ []
        else [])
unfolding hidden
buttons_lem row = elim (Bool-cases (row.status == "Pending")) [
  | inl e ↦ rw (e, ap (λ u. u == "Approved") ((eq_iff row.status "Pending").0 e)) refl
  | inr e ↦ elim (Bool-cases (row.status == "Approved")) [
    | inl a ↦ rw (e, a) refl
    | inr a ↦ rw (e, a) refl
  ]
]
