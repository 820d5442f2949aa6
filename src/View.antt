-- ===== src/View.antt =====
-- The pages as trees of elements. Styles, icons and the variable part of a class are left out. A click or a change of an input
-- comes to an action.
pub mod Offered
use collaborative_ide.PositionUtils.{Proposal}
use collaborative_ide.Prelude.{Text, String, List, [], ◌∷◌, Bool, ◌≡◌, ◌⊎◌, if◌then◌else◌, false}

pub data Action : Type 0 where
  -- Landing.jsx
  enter_name enter_code : Text → Action
  create join : Action
  -- IDE.jsx and ShareModal.jsx
  run show_share close_share copy_code : Action
  -- Sidebar.jsx
  set_role : String → String → Action
  accept : Proposal → Action
  reject : String → Action
  open_propose close_propose submit : Action

pub data Html : Type 0 where
  nothing : Html
  both : Html → Html → Html
  text : Text → Html
  -- a tag with its class
  element : String → String → Html → Html
  -- an element with `onClick` for itself alone
  backdrop : String → Action → Html → Html
  -- a class, whether it is disabled, `onClick`
  button : String → Bool → Action → Html → Html
  -- a `select` with its value and what each option does
  choice : String → String → List (String × Action) → Html
  -- a value, `onChange`, and the key Enter
  input : Text → (Text → Action) → Action → Html

abbrev pub all_of : List Html → Html
all_of [] = nothing
all_of (h ∷ hs) = both h (all_of hs)

abbrev pub shown_if : Bool → Html → Html
shown_if b h = if b then h else nothing

abbrev pub OffersOption : Action → List (String × Action) → Type 0
OffersOption a [] = ⊥
OffersOption a ((_, b) ∷ options) = (a ≡ b) ⊎ OffersOption a options

-- The user can do that on the page.
abbrev pub Offers : Action → Html → Type 0
Offers a nothing = ⊥
Offers a (both h k) = Offers a h ⊎ Offers a k
Offers a (text t) = ⊥
Offers a (element tag class h) = Offers a h
Offers a (backdrop class b h) = (a ≡ b) ⊎ Offers a h
Offers a (button class disabled b h) = (disabled ≡ false) × (a ≡ b)
Offers a (choice class value options) = OffersOption a options
Offers a (input value change enter) = ((t : Text) × (a ≡ change t)) ⊎ (a ≡ enter)
