-- ===== src/ShareModal.antt =====
-- components/ShareModal.jsx: the dialog with the invite code.
use collaborative_ide.View.{Html, text, element, backdrop, button, all_of, close_share, copy_code}
use collaborative_ide.Prelude.{true, false, Bool, utf16, String, ◌∷◌, if◌then◌else◌, []}

-- What happens to `copied`: the clipboard took the code, and 1.5 seconds later. The latter is set by
-- each copy, and a copy in the meantime does not stop it.
pub data ShareEvent : Type 0 where
  written timed_out : ShareEvent

unfoldable pub copied_after : Bool → ShareEvent → Bool
copied_after copied written = true
copied_after copied timed_out = false

unfoldable pub share_view : String → Bool → Html
unfolding utf16
share_view code copied = backdrop "modal-overlay" close_share (
    element "div" "modal" (
      all_of (
        element "div" "modal-title" (text (utf16 "Share Session"))
        ∷ element "div" "modal-sub" (text (utf16 "Invite collaborators with this code."))
        ∷ element "div" "invite-code" (text (utf16 code))
        ∷ button "copy-btn" false copy_code
            (text (if copied then utf16 "Copied!" else utf16 "Copy Invite Code"))
        ∷ button "modal-close" false close_share (text (utf16 "✕"))
        ∷ [])))
