-- ===== src/Landing/View.antt =====
-- components/Landing.jsx: what the landing page shows.

use collaborative_ide.View.{
  Html, text, element, button, input, all_of, shown_if, enter_name, enter_code, create, join,
  Action,
}
use collaborative_ide.Landing.{Request, handle_create, handle_join, Landing}
use collaborative_ide.Ide.{is_empty}
use collaborative_ide.Prelude.{not, utf16, Text, ◌∷◌, [], if◌then◌else◌, Option, none}

unfoldable pub landing_view : Landing → Html
unfolding utf16
landing_view l = element "div" "landing" (
    element "div" "landing-card" (
      all_of (
        element "div" "landing-logo" (
          all_of (
            element "div" "landing-logo-icon" (text (utf16 "Go"))
            ∷ element "span" "landing-logo-text" (text (utf16 "GoCollab IDE"))
            ∷ []))
        ∷ element "label" "field-label" (text (utf16 "Your display name"))
        ∷ input l.user_id enter_name join
        ∷ shown_if (not (is_empty l.error)) (element "div" "error-msg" (text l.error))
        ∷ button "primary-btn" l.loading create
            (text (if l.loading then utf16 "Creating…" else utf16 "Create new session"))
        ∷ element "div" "divider" (text (utf16 "or join existing"))
        ∷ element "label" "field-label" (text (utf16 "Invite code"))
        ∷ input l.join_code enter_code join
        ∷ button "primary-btn" l.loading join
            (text (if l.loading then utf16 "Joining…" else utf16 "Join session"))
        ∷ [])))

-- What an action on the page comes to, with the request that it makes: `onChange`, `onClick`, and
-- `onKey` for the key Enter in both inputs, which tests no flag.
module _ (to_upper : Text → Text) where
  unfoldable pub perform : Action → Landing → Landing × Option Request
  unfolding handle_create handle_join
  perform (enter_name t) l = (record l { user_id = t }, none)
  perform (enter_code t) l = (record l { join_code = t }, none)
  perform create l = handle_create l
  perform join l = handle_join to_upper l
  perform _ l = (l, none)
