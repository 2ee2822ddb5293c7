-- ===== src/Jsx.antt =====
-- The element trees that `render` returns, and the handlers that a user can reach in one.
-- `H` names the handlers. A boolean attribute is a flag, a style is an attribute of its own.
use mc_gatekeeper.Prelude.{
  String, Bool, false, not, ◌&&◌, ◌||◌, ◌==◌, List, [], ◌∷◌, ◌++◌, any, if◌then◌else◌,
}

pub data Attr (H : Type 0) : Type 0 where
  prop : String → String → Attr H
  flag : String → Bool → Attr H
  on : String → H → Attr H

mutual
  pub data Node (H : Type 0) : Type 0 where
    text : String → Node H
    element : String → List (Attr H) → Nodes H → Node H

  pub data Nodes (H : Type 0) : Type 0 where
    nil : Nodes H
    cons : Node H → Nodes H → Nodes H

module _ {H : Type 0} where
  infixr 66 ◌⊹◌
  abbrev pub ◌⊹◌ : Node H → Nodes H → Nodes H
  x ⊹ xs = cons x xs

  -- An element without children.
  abbrev pub leaf : String → List (Attr H) → Node H
  leaf tag attrs = element tag attrs nil

  abbrev is_disabling : Attr H → Bool
  is_disabling (flag name b) = name == "disabled" && b
  is_disabling _ = false

  abbrev is_hiding : Attr H → Bool
  is_hiding (prop name v) = name == "style.display" && v == "none"
  is_hiding (flag name b) = name == "hidden" && b
  is_hiding _ = false

  abbrev is_submit : Attr H → Bool
  is_submit (prop name v) = name == "type" && v == "submit"
  is_submit _ = false

  -- The handlers of an element's own attributes; that of a form only runs if `submits`.
  abbrev own : Bool → List (Attr H) → List H
  own submits [] = []
  own submits (on name h ∷ rest) =
      if not (name == "onSubmit") || submits then h ∷ own submits rest else own submits rest
  own submits (_ ∷ rest) = own submits rest

  abbrev enabled : Bool → List (Attr H) → List H
  enabled submits attrs = if any is_disabling attrs then [] else own submits attrs

-- Is there a button of type "submit" in the tree that is not disabled?
unfoldable mutual
  pub submits : {H : Type 0} → Node H → Bool
  submits (text _) = false
  submits (element tag attrs kids) =
      any is_submit attrs && not (any is_disabling attrs) || submits_any kids

  pub submits_any : {H : Type 0} → Nodes H → Bool
  submits_any nil = false
  submits_any (cons x xs) = submits x || submits_any xs

-- The handlers that a user can reach: those of elements that are shown and not disabled, and that
-- of a form whose submit button is not disabled.
unfoldable mutual
  unfolding submits

  pub live : {H : Type 0} → Node H → List H
  live (text _) = []
  live (element tag attrs kids) =
      if any is_hiding attrs then [] else enabled (submits_any kids) attrs ++ live_all kids

  pub live_all : {H : Type 0} → Nodes H → List H
  live_all nil = []
  live_all (cons x xs) = live x ++ live_all xs
