-- ===== src/Dashboard/View.antt =====
-- `render` of app/src/components/Dashboard/Dashboard.js, and the runs of the shell.
mod Tests
use mc_gatekeeper.Prelude.{
  String, Bool, true, false, not, ◌||◌, ◌==◌, List, [], ◌∷◌, ◌++◌, ◌≡◌, ◌⊎◌, refl, inl, inr, sym,
  ap, subst, any, if◌then◌else◌, Memᴰ, All, All-mem,
}
use mc_gatekeeper.Jsx.{Node, Nodes, Attr, text, prop, flag, on, element, nil, leaf, ◌⊹◌, live}
use mc_gatekeeper.Dashboard.{
  Drawer, initial_drawer, handle_drawer_open, handle_drawer_close, handle_switch_view, Mounted,
  landing, metrics, nothing, mounted,
}

pub data Handler : Type 0 where
  drawer_open drawer_close : Handler
  switch_view : String → Handler

abbrev Tree : Type 0
Tree = Node Handler

-- A class of the style sheet; `menuButtonHidden` is `display: none`.
abbrev class_name : String → List (Attr Handler)
class_name c =
    if c == "menuButtonHidden"
    then prop "className" c ∷ prop "style.display" "none" ∷ []
    else prop "className" c ∷ []

-- `clsx(c, test && d)`
abbrev clsx : String → Bool → String → List (Attr Handler)
clsx c test d = class_name c ++ (if test then class_name d else [])

-- `view`; `undefined` renders as nothing.
abbrev with_page : Mounted → Nodes Handler → Nodes Handler
with_page landing rest = leaf "Landing" [] ⊹ rest
with_page metrics rest = leaf "Metrics" [] ⊹ rest
with_page nothing rest = rest

-- The handlers in reach.
abbrev pub reachable : Bool → List Handler
reachable is_open =
    (if is_open then [] else drawer_open ∷ [])
    ++ drawer_close ∷ switch_view "landing" ∷ switch_view "metrics" ∷ []

module _ (t : String → String) (year : String) where
  unfoldable app_bar : Bool → Tree
  app_bar is_open =
      element "AppBar" (prop "position" "absolute" ∷ clsx "appBar" is_open "appBarShift") (
        element "Toolbar" (class_name "toolbar") (
          element "IconButton"
            (prop "edge" "start"
              ∷ prop "color" "inherit"
              ∷ prop "aria-label" "open drawer"
              ∷ on "onClick" drawer_open
              ∷ clsx "menuButton" is_open "menuButtonHidden")
            (leaf "MenuIcon" [] ⊹ nil)
          ⊹ element "Typography"
              (prop "component" "h1"
                ∷ prop "variant" "h6"
                ∷ prop "color" "inherit"
                ∷ flag "noWrap" true
                ∷ class_name "title")
              (text (t "Dashboard.Title") ⊹ nil)
          ⊹ nil)
        ⊹ nil)

  abbrev item : String → String → String → Tree
  item view icon label =
      element "ListItem" (flag "button" true ∷ on "onClick" (switch_view view) ∷ []) (
        element "ListItemIcon" [] (leaf icon [] ⊹ nil)
        ⊹ leaf "ListItemText" (prop "primary" label ∷ [])
        ⊹ nil)

  unfoldable drawer : Bool → Tree
  drawer is_open =
      element "Drawer"
        (prop "variant" "permanent"
          ∷ flag "open" is_open
          ∷ clsx "drawerPaper" (not is_open) "drawerPaperClose")
        (element "div" (class_name "toolbarIcon") (
            element "IconButton" (on "onClick" drawer_close ∷ []) (leaf "ChevronLeftIcon" [] ⊹ nil)
            ⊹ nil)
          ⊹ leaf "Divider" []
          ⊹ element "List" [] (
              element "div" [] (
                item "landing" "DashboardIcon" "Dashboard"
                ⊹ item "metrics" "EqualizerIcon" "Real-Time Metrics"
                ⊹ nil)
              ⊹ nil)
          ⊹ nil)

  abbrev copyright : Tree
  copyright =
      element "Typography"
        (prop "variant" "body2"
          ∷ prop "color" "textSecondary"
          ∷ prop "align" "center"
          ∷ prop "style.paddingTop" "3%"
          ∷ [])
        (text "Copyright © "
          ⊹ element "Link" (prop "color" "inherit" ∷ []) (text "Your Website" ⊹ nil)
          ⊹ text " "
          ⊹ text year
          ⊹ text "."
          ⊹ nil)

  unfoldable tree : Bool → Mounted → Tree
  unfolding app_bar drawer
  tree is_open m = element "ThemeProvider" [] (
      element "div" (class_name "root") (
        leaf "CssBaseline" []
        ⊹ app_bar is_open
        ⊹ drawer is_open
        ⊹ element "main" (class_name "content")
            (leaf "div" (class_name "appBarSpacer") ⊹ with_page m (copyright ⊹ nil))
        ⊹ nil)
      ⊹ nil)

  unfoldable pub render : Drawer → Tree
  unfolding tree
  render d = tree d.open_drawer (mounted d)

  live-tree : (is_open : Bool) (m : Mounted) → live (tree is_open m) ≡ reachable is_open
  unfolding tree live app_bar drawer
  live-tree true landing = refl
  live-tree true metrics = refl
  live-tree true nothing = refl
  live-tree false landing = refl
  live-tree false metrics = refl
  live-tree false nothing = refl

  pub live-render : (d : Drawer) → live (render d) ≡ reachable d.open_drawer
  unfolding render
  live-render d = live-tree d.open_drawer (mounted d)

abbrev pub fire : Handler → Drawer → Drawer
fire drawer_open d = handle_drawer_open d
fire drawer_close d = handle_drawer_close d
fire (switch_view v) d = handle_switch_view v d

-- What the user does, with handlers that are in reach.
pub data Run (t : String → String) (year : String) : Drawer → Drawer → Type 0 where
  stay : (d : Drawer) → Run t year d d
  use_handler :
      (d q : Drawer) (h : Handler)
      → Memᴰ h (live (render t year d))
      → Run t year (fire h d) q
      → Run t year d q

-- The views that have a page.
abbrev IsView : String → Type 0
IsView v = (v ≡ "landing") ⊎ (v ≡ "metrics")

abbrev IsOffer : Handler → Type 0
IsOffer (switch_view v) = IsView v
IsOffer drawer_open = Unit
IsOffer drawer_close = Unit

reachable-offers : (is_open : Bool) → All IsOffer (reachable is_open)
reachable-offers true = (tt, (inl refl, (inr refl, tt)))
reachable-offers false = (tt, (tt, (inl refl, (inr refl, tt))))

fire-IsView : (h : Handler) (d : Drawer) → IsOffer h → IsView d.view → IsView (fire h d).view
unfolding handle_drawer_open handle_drawer_close handle_switch_view
fire-IsView drawer_open d o v = v
fire-IsView drawer_close d o v = v
fire-IsView (switch_view w) d o v = o

Run-IsView :
    {t : String → String} {year : String} (d q : Drawer)
    → Run t year d q
    → IsView d.view
    → IsView q.view
Run-IsView d _ (stay _) v = v
Run-IsView {t} {year} d q (use_handler _ _ h there rest) v = Run-IsView (fire h d) q rest (
    fire-IsView h d
      (All-mem IsOffer _ (reachable-offers d.open_drawer) (rw (live-render t year d) at there)) v)

view-mounted : (d : Drawer) → IsView d.view → (mounted d ≡ landing) ⊎ (mounted d ≡ metrics)
unfolding mounted
view-mounted d (inl e) = inl (rw e refl)
view-mounted d (inr e) = inr (rw e refl)

-- In every run of the shell, with the handlers that are in reach, one of the two pages is mounted.
pub Run-mounted_page :
    (t : String → String) (year : String) (q : Drawer)
    → Run t year initial_drawer q
    → (mounted q ≡ landing) ⊎ (mounted q ≡ metrics)
Run-mounted_page t year q r = view-mounted q (Run-IsView initial_drawer q r (inl refl))
