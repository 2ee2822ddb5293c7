-- ===== src/AdminAction/View.antt =====
-- `render` of app/src/components/AdminAction.js. A TypeError, or an object where React wants text,
-- is `none`.
use mc_gatekeeper.Prelude.{
  String, Bool, true, false, not, ◌&&◌, ◌||◌, Option, none, some, List, [], ◌∷◌, if◌then◌else◌, ◌≡◌,
  arith,
}
use mc_gatekeeper.Js.{Value, get, ◌>>=◌}
use mc_gatekeeper.Js.Text.{child}
use mc_gatekeeper.Jsx.{Node, text, prop, flag, on, element, nil, leaf, ◌⊹◌, live}
use mc_gatekeeper.AdminAction.{State, status_is}

pub data Handler : Type 0 where
  change_note approve deny : Handler

abbrev Tree : Type 0
Tree = Node Handler

-- The request's fields that the details show.
pub record Details : Type 0 where
  pub gender : String
  pub age : String
  pub application_text : String
  pub submitted : Value

-- Reading them throws where `info` is missing, and where a field is an object.
unfoldable pub read_details : Value → Option Details
unfolding child
read_details request = do
  gender ← (get request "gender" >>= child)
  age ← (get request "age" >>= child)
  info ← get request "info"
  application ← (get info "applicationText" >>= child)
  timestamp ← get request "timestamp"
  some
      (record { gender = gender; age = age; application_text = application; submitted = timestamp })

module _ (t : String → String) (from_now : Value → String) where
  abbrev button : String → Handler → String → Tree
  button color h label =
      element "Button"
        (prop "className" "actionButton"
          ∷ on "onClick" h
          ∷ prop "color" color
          ∷ flag "outline" true
          ∷ prop "size" "lg"
          ∷ prop "type" "button"
          ∷ [])
        (text (t label) ⊹ nil)

  abbrev item : String → Tree → Tree
  item label content =
      element "ListGroupItem" (flag "action" true ∷ [])
        (element "strong" [] (text (t label) ⊹ nil) ⊹ content ⊹ nil)

  -- The details of a pending request, with the form for the decision.
  unfoldable pub details : Details → String → Tree
  details d note = element "Container" [] (
      element "ListGroup" [] (
        element "ListGroupItem" (flag "active" true ∷ flag "action" true ∷ [])
          (text (t "Action.Title") ⊹ nil)
        ⊹ item "Action.Gender" (text d.gender)
        ⊹ item "Action.Age" (text d.age)
        ⊹ item "Action.ApplicationText"
            (element "Jumbotron" [] (element "p" [] (text d.application_text ⊹ nil) ⊹ nil))
        ⊹ element "ListGroupItem" (flag "disabled" true ∷ flag "action" true ∷ [])
            (text (t "Action.Submitted") ⊹ text (from_now d.submitted) ⊹ nil)
        ⊹ nil)
      ⊹ element "Form" [] (
          element "FormGroup" [] (
            leaf "Input" (
              prop "type" "textarea"
              ∷ prop "name" "note"
              ∷ prop "placeholder" (t "Action.NotePlaceHolder")
              ∷ prop "value" note
              ∷ on "onChange" change_note
              ∷ [])
            ⊹ nil)
          ⊹ nil)
      ⊹ button "success" approve "Action.Approve"
      ⊹ button "danger" deny "Action.Deny"
      ⊹ element "Jumbotron" (flag "fluid" true ∷ []) (
          element "Container" (flag "fluid" true ∷ []) (
            element "h3" [] (text (t "Action.NoteTitle") ⊹ nil)
            ⊹ element "p" (prop "className" "lead" ∷ []) (text (t "Action.NoteContent") ⊹ nil)
            ⊹ nil)
          ⊹ nil)
      ⊹ nil)

  unfoldable pub render : State → Option Tree
  render s =
      if not s.invalid && status_is "Pending" s.current_request
      then (read_details s.current_request >>= λ d.
          some (element "div" [] (details d s.note ⊹ nil)))
      else if status_is "Approved" s.current_request || status_is "Denied" s.current_request
      then some (
          element "div" [] (
            element "div" [] (
              element "Alert" (prop "color" "info" ∷ []) (text (t "Action.FulfilledMsg") ⊹ nil)
              ⊹ nil)
            ⊹ nil))
      else if s.invalid
      then some (element "div" [] (element "p" [] (text "Invalid route" ⊹ nil) ⊹ nil))
      else some (element "div" [] nil)

-- The handlers of a page, none where `render` throws.
abbrev pub reach : Option Tree → List Handler
reach none = []
reach (some tree) = live tree

-- Does the page show the details?
unfoldable pub shows_details : State → Bool
shows_details s =
    not s.invalid
    && status_is "Pending" s.current_request
    && (elim (read_details s.current_request) [ none ↦ false | some d ↦ true ])

-- The note's input and the two buttons are in reach exactly when the details are shown.
pub reach-render :
    (t : String → String) (from_now : Value → String) (s : State)
    → reach (render t from_now s)
      ≡ (if shows_details s then change_note ∷ approve ∷ deny ∷ [] else [])
unfolding live render shows_details details
reach-render t from_now s = ground arith
