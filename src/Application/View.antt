-- ===== src/Application/View.antt =====
-- `render` of app/src/components/Application.js, with `getUsernameVerificationBadge`.
use mc_gatekeeper.Prelude.{
  String, Bool, true, false, not, ◌||◌, ◌==◌, ◌≡◌, arith, Bool-cases, inl, inr, ◌∙◌, List, [], ◌∷◌,
  ◌++◌, if◌then◌else◌,
}
use mathlib.Core.List.{append-nil}
use mc_gatekeeper.Jsx.{Node, Nodes, text, prop, flag, on, element, nil, leaf, ◌⊹◌, live}
use mc_gatekeeper.Application.{
  State, Name, email, username, gender, age, application_text, verification_qrcode_content,
}

-- The handlers that the elements name; `handleInputChange` with the input's `name`.
pub data Handler : Type 0 where
  change : Name → Handler
  download_qr verify_username submit : Handler

abbrev Tree : Type 0
Tree = Node Handler

-- Which handlers are reachable, by the two flags of the state.
abbrev pub reachable : Bool → Bool → List Handler
reachable verified loading =
    (if verified then submit ∷ [] else [])
    ++ change email ∷ (if verified || loading then [] else change username ∷ [])
    ++ download_qr ∷ (if loading || verified then [] else verify_username ∷ [])
    ++ change gender ∷ change age ∷ change application_text ∷ []

module _ (t : String → String) where
  -- `getUsernameVerificationBadge`
  unfoldable pub get_username_verification_badge : State → Tree
  get_username_verification_badge s =
      if s.verified
      then element "Badge" (prop "color" "success" ∷ flag "pill" true ∷ [])
          (text (t "Splash.Verified") ⊹ nil)
      else element "Badge" (prop "color" "danger" ∷ flag "pill" true ∷ [])
          (text (t "Splash.NotVerified") ⊹ nil)

  abbrev alert_block : String → Nodes Handler → Tree
  alert_block color kids =
      element "UncontrolledAlert" (prop "color" color ∷ flag "fade" false ∷ []) (
        element "span" (prop "className" "alert-inner--icon" ∷ [])
          (leaf "i" (prop "className" "ni ni-like-2" ∷ []) ⊹ nil)
        ⊹ element "span" (prop "className" "alert-inner--text" ∷ []) kids
        ⊹ nil)

  -- `messageBlock`; `undefined` renders as nothing.
  unfoldable pub message_block : State → Nodes Handler
  message_block s =
      if not (s.error_msg == "")
      then alert_block "danger" (element "strong" [] (text "Error" ⊹ nil) ⊹ text s.error_msg ⊹ nil)
        ⊹ nil
      else if s.success
      then alert_block "success" (
          element "strong" [] (text (t "Splash.Success") ⊹ nil)
          ⊹ text (t "Splash.SuccessMsg")
          ⊹ nil)
        ⊹ nil
      else nil

  -- The card with the steps of the verification.
  unfoldable pub verification_card : State → Tree
  verification_card s = element "Card" [] (
      element "CardBody" [] (
        text (t "Splash.VefiryInstruction")
        ⊹ element "ol" [] (
            element "li" [] (text (t "Splash.VerifyStep1") ⊹ nil)
            ⊹ element "div" [] (
                leaf "QRCode" (
                  prop "style.display" "none"
                  ∷ prop "id" "qrcode"
                  ∷ prop "value" verification_qrcode_content
                  ∷ prop "size" "32"
                  ∷ prop "level" "H"
                  ∷ flag "includeMargin" false
                  ∷ [])
                ⊹ element "Button"
                    (flag "outline" true
                      ∷ prop "size" "sm"
                      ∷ prop "color" "info"
                      ∷ on "onClick" download_qr
                      ∷ [])
                    (text (t "Splash.DownloadButton") ⊹ nil)
                ⊹ nil)
            ⊹ element "li" [] (
                text (t "Splash.VerifyStep2-1")
                ⊹ element "a"
                    (prop "href" "https://my.minecraft.net/en-us/profile/skin"
                      ∷ prop "target" "_blank"
                      ∷ [])
                    (text "https://my.minecraft.net/en-us/profile/skin" ⊹ nil)
                ⊹ text (t "Splash.VerifyStep2-2")
                ⊹ nil)
            ⊹ element "li" [] (text (t "Splash.VerifyStep3") ⊹ nil)
            ⊹ element "li" [] (
                text (t "Splash.VerifyStep4")
                ⊹ leaf "br" []
                ⊹ element "Button"
                    (prop "size" "sm"
                      ∷ flag "outline" true
                      ∷ prop "style.display" (if s.loading then "none" else "")
                      ∷ flag "disabled" s.verified
                      ∷ on "onClick" verify_username
                      ∷ prop "color" "primary"
                      ∷ [])
                    (text (t "Splash.VerifyButton") ⊹ nil)
                ⊹ leaf "Spinner" (
                    prop "style.display" (if s.loading then "" else "none")
                    ∷ prop "color" "primary"
                    ∷ [])
                ⊹ nil)
            ⊹ element "li" [] (text (t "Splash.VerifyStep5") ⊹ nil)
            ⊹ nil)
        ⊹ nil)
      ⊹ nil)

  abbrev option : String → Tree
  option label = element "option" [] (text label ⊹ nil)

  -- The form, and below it the whole page.
  unfoldable pub form : State → Tree
  unfolding get_username_verification_badge verification_card
  form s = element "Form" (prop "role" "form" ∷ on "onSubmit" submit ∷ []) (
      element "FormGroup" [] (
        element "Label" [] (text (t "Splash.Email") ⊹ nil)
        ⊹ leaf "Input" (
            prop "type" "email"
            ∷ prop "name" "email"
            ∷ flag "required" true
            ∷ prop "placeholder" "example@gmail.com"
            ∷ prop "value" s.email
            ∷ on "onChange" (change email)
            ∷ [])
        ⊹ nil)
      ⊹ element "FormGroup" [] (
          element "Label" [] (text (t "Splash.Username") ⊹ get_username_verification_badge s ⊹ nil)
          ⊹ leaf "Input" (
              prop "type" "text"
              ∷ prop "name" "username"
              ∷ flag "disabled" (s.verified || s.loading)
              ∷ flag "required" true
              ∷ prop "placeholder" "username"
              ∷ prop "value" s.username
              ∷ on "onChange" (change username)
              ∷ [])
          ⊹ nil)
      ⊹ verification_card s
      ⊹ element "FormGroup" [] (
          element "Label" [] (text (t "Splash.Gender") ⊹ nil)
          ⊹ element "Input"
              (prop "type" "select"
                ∷ prop "name" "gender"
                ∷ flag "required" true
                ∷ prop "value" s.gender
                ∷ on "onChange" (change gender)
                ∷ [])
              (option (t "Splash.Gender_Male")
                ⊹ option (t "Splash.Gender_Female")
                ⊹ option (t "Splash.Gender_Other")
                ⊹ nil)
          ⊹ nil)
      ⊹ element "FormGroup" [] (
          element "Label" [] (text (t "Splash.Age") ⊹ nil)
          ⊹ leaf "Input" (
              prop "type" "number"
              ∷ prop "name" "age"
              ∷ flag "required" true
              ∷ prop "value" s.age
              ∷ on "onChange" (change age)
              ∷ [])
          ⊹ nil)
      ⊹ element "FormGroup" [] (
          element "Label" [] (text (t "Splash.ApplicationText") ⊹ nil)
          ⊹ leaf "Input" (
              prop "type" "textarea"
              ∷ prop "rows" "8"
              ∷ prop "cols" "60"
              ∷ prop "minLength" "100"
              ∷ flag "required" true
              ∷ prop "name" "applicationText"
              ∷ prop "placeholder" (t "Splash.ApplicationTextPlaceholder")
              ∷ prop "value" s.application_text
              ∷ on "onChange" (change application_text)
              ∷ [])
          ⊹ nil)
      ⊹ element "FormGroup" (flag "check" true ∷ []) (
          element "Label" (flag "check" true ∷ []) (
            leaf "Input" (prop "type" "checkbox" ∷ flag "required" true ∷ [])
            ⊹ text (t "Splash.RadioboxDescription")
            ⊹ nil)
          ⊹ nil)
      ⊹ leaf "Recaptcha" []
      ⊹ element "Button"
          (flag "disabled" (not s.verified)
            ∷ prop "color" "primary"
            ∷ prop "type" "submit"
            ∷ prop "size" "lg"
            ∷ [])
          (text (t "Splash.SubmitButton") ⊹ nil)
      ⊹ nil)

  unfoldable pub render : State → Tree
  render s = element "Container" (prop "maxWidth" "md" ∷ []) (
      element "div" [] (
        element "Jumbotron" (prop "className" "application-jumbotron" ∷ []) (
          element "h1" (prop "className" "display-4" ∷ []) (text "Hey," ⊹ nil)
          ⊹ element "p" (prop "className" "lead" ∷ []) (text (t "Splash.Welcome") ⊹ nil)
          ⊹ nil)
        ⊹ nil)
      ⊹ element "Fragment" [] (message_block s)
      ⊹ form s
      ⊹ nil)

  pub live-message_block : (s : State) → live (element "Fragment" [] (message_block s)) ≡ []
  unfolding live message_block
  live-message_block s = ground arith

  live-form : (s : State) → live (form s) ≡ reachable s.verified s.loading
  unfolding live form
  live-form s = elim (Bool-cases s.verified) [
    | inl v ↦ elim (Bool-cases s.loading) [ inl l ↦ rw (v, l) | inr l ↦ rw (v, l) ]
    | inr v ↦ elim (Bool-cases s.loading) [ inl l ↦ rw (v, l) | inr l ↦ rw (v, l) ]
  ]

  pub live-render : (s : State) → live (render s) ≡ reachable s.verified s.loading
  unfolding live render
  live-render s = rw (live-message_block s) (append-nil _ ∙ live-form s)
