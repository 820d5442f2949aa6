-- ===== src/Ide/View.antt =====
-- components/IDE.jsx: what the page of a session shows, and what its actions come to.
pub mod Allowed
pub mod People
pub mod Proposals
pub mod Total
pub mod Offers
use collaborative_ide.Platform.{Platform}
use collaborative_ide.View.{
  run, Html, nothing, both, text, element, button, backdrop, all_of, shown_if, show_share,
}
use collaborative_ide.Sidebar.View.{sidebar_view}
use collaborative_ide.OutputPanel.View.{panel_view}
use collaborative_ide.ShareModal.{share_view}
use collaborative_ide.Client.{Client}
use collaborative_ide.Sidebar.{Dialog}
use collaborative_ide.Prelude.{
  ◌>>=◌, [], not, some, Bool, ℕ, Text, utf16, Option, str_eq, ◌∷◌, if◌then◌else◌,
}

-- The state of the dialogs, and `lastIndex` of KEYWORD_RE.
pub record Overlays : Type 0 where
  pub dialog : Dialog
  pub show_share : Bool
  pub copied : Bool
  pub last_index : ℕ

module _ (p : Platform) (to_upper : Text → Text) (shown : ℕ → Text) where
  unfoldable pub run_button : Client p → Html
  unfolding utf16
  run_button c =
      shown_if (not (str_eq c.my_role "viewer")) (
        button "run-btn" c.running run (text (if c.running then utf16 "Running…" else utf16 "Run")))

  unfoldable pub titlebar : Client p → Html
  unfolding run_button utf16
  titlebar c = element "header" "titlebar" (
      all_of (
        element "div" "logo" (text (utf16 "GoGoCollab"))
        ∷ element "div" "file-tab" (text (utf16 "main.go"))
        ∷ element "div" "titlebar-right" (
            all_of (
              backdrop "session-badge" show_share (text (utf16 c.code))
              ∷ element "div" "role-badge" (text (utf16 c.my_role))
              ∷ run_button c
              ∷ []))
        ∷ []))

  -- The editor pane is CodeMirror's.
  unfoldable pub main_area : Client p → Html → Html
  unfolding utf16
  main_area c output = element "div" "main-area" (
      both
        (if c.doc_ready
          then element "div" "editor-wrap" nothing
          else element "div" "editor-loading" (text (utf16 "Connecting…")))
        output)

  unfoldable pub page_view : Client p → Overlays → Option (Html × ℕ)
  unfolding titlebar main_area sidebar_view panel_view share_view
  page_view c o = do
    sidebar ← sidebar_view to_upper shown c.my_role c.participants c.proposals c.stale_ids o.dialog
    (output, next) ← panel_view o.last_index c.output_lines c.output_status c.running
    some (
      element "div" "app" (
          all_of (
            titlebar c
            ∷ sidebar
            ∷ main_area c output
            ∷ shown_if o.show_share (share_view c.code o.copied)
            ∷ [])),
      next,
    )
