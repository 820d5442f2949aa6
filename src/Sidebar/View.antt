-- ===== src/Sidebar/View.antt =====
-- components/Sidebar.jsx: what the sidebar and its dialog show. An exception is `none`: a participant
-- with an empty name has no first letter.
use collaborative_ide.Sidebar.{Dialog, Selection}
use collaborative_ide.PositionUtils.{Proposal}
use collaborative_ide.View.{
  Html, nothing, both, text, element, backdrop, button, choice, all_of, shown_if, accept, reject,
  set_role, open_propose, close_propose, submit,
}
use collaborative_ide.Client.{Participant}
use collaborative_ide.Prelude.{
  false, none, some, [], ◌>>=◌, Text, ℕ, utf16, String, List, Option, if◌then◌else◌, Bool, str_eq,
  ◌∷◌, ◌&&◌, ◌==◌, truthy, ◌||◌, not, ◌++◌, length,
}

-- `p.id[0].toUpperCase()` and `String(n)` are the browser's.
module _ (to_upper : Text → Text) (shown : ℕ → Text) where
  unfoldable pub initial : String → Option Text
  unfolding utf16
  initial id = elim (utf16 id) [ [] ↦ none | c ∷ _ ↦ some (to_upper (c ∷ [])) ]

  -- The role of a participant: a choice for an editor, a badge otherwise.
  unfoldable pub role_view : String → Participant → Html
  role_view my_role q =
      if str_eq my_role "editor" && not q.is_me
      then choice "role-select" q.role (
          ("editor", set_role q.id "editor")
          ∷ ("proposer", set_role q.id "proposer")
          ∷ ("viewer", set_role q.id "viewer")
          ∷ [])
      else element "span" ("participant-role") (text (utf16 q.role))

  unfoldable pub participant_view : String → Participant → Option Html
  unfolding initial role_view utf16
  participant_view my_role q = do
    letter ← initial q.id
    some (
        element "div" "participant" (
          all_of (
            element "div" "avatar" (text letter)
            ∷ element "span" "participant-name"
                (text (utf16 q.id ++ (if q.is_me then utf16 " (you)" else [])))
            ∷ role_view my_role q
            ∷ [])))

  unfoldable pub participants_view : String → List Participant → Option Html
  unfolding participant_view
  participants_view my_role [] = some nothing
  participants_view my_role (q ∷ qs) = do
    h ← participant_view my_role q
    rest ← participants_view my_role qs
    some (both h rest)

  -- A missing number is `undefined`, in a text too; a zero is shown as it is.
  unfoldable pub lines_view : Option ℕ → Option ℕ → Html
  unfolding utf16
  lines_view none end_line = nothing
  lines_view (some start) end_line =
      if start == 0
      then text (shown start)
      else element "span" "proposal-lines" (
          text (
            utf16 "L"
            ++ (shown start ++ elim end_line [
              | none ↦ utf16 "–undefined"
              | some end ↦ if end == start then [] else utf16 "–" ++ shown end
            ])))

  unfoldable pub author_view : Option String → Html
  unfolding utf16
  author_view none = element "span" "proposal-author" nothing
  author_view (some author) = element "span" "proposal-author" (text (utf16 author))

  unfoldable pub diff_view : Option Text → Text → Html
  unfolding utf16
  diff_view original replacement = element "div" "proposal-diff" (
      all_of (
        elim (truthy original) [
          | none ↦ nothing
          | some t ↦ element "span" "diff-del" (text (utf16 "- " ++ t))
        ]
        ∷ element "span" "diff-add" (text (utf16 "+ " ++ replacement))
        ∷ []))

  unfoldable pub actions_view : Proposal → Html
  unfolding utf16
  actions_view q = element "div" "proposal-actions" (
      all_of (
        button "prop-btn prop-accept" false (accept q) (text (utf16 "✓ Accept"))
        ∷ button "prop-btn prop-reject" false (reject q.id) (text (utf16 "✕ Reject"))
        ∷ []))

  -- `staleIds.has(p.id)`
  unfoldable pub is_marked : List String → String → Bool
  is_marked [] id = false
  is_marked (i ∷ ids) id = str_eq i id || is_marked ids id

  unfoldable pub proposal_view : String → List String → Proposal → Html
  unfolding lines_view author_view diff_view actions_view is_marked utf16
  proposal_view my_role stale_ids q =
      let stale = is_marked stale_ids q.id in
      element "div" (if stale then "proposal-card proposal-stale" else "proposal-card") (
        all_of (
          element "div" "proposal-header" (
            all_of (
              element "span" "participant-role pr-proposer" (text (utf16 "proposer"))
              ∷ author_view q.author
              ∷ lines_view q.start_line q.end_line
              ∷ shown_if stale (element "span" "stale-badge" (text (utf16 "stale")))
              ∷ []))
          ∷ diff_view q.original_text q.replacement
          ∷ shown_if stale (
              element "div" "stale-note"
                (text (utf16 "Target was modified — accept will be rejected.")))
          ∷ shown_if (str_eq my_role "editor") (actions_view q)
          ∷ []))

  unfoldable pub proposals_view : String → List String → List Proposal → Html
  unfolding proposal_view
  proposals_view my_role stale_ids [] = nothing
  proposals_view my_role stale_ids (q ∷ qs) =
      both (proposal_view my_role stale_ids q) (proposals_view my_role stale_ids qs)

  unfoldable pub proposals_area : String → List String → List Proposal → Html
  unfolding proposals_view utf16
  proposals_area my_role stale_ids [] =
      element "div" "empty-proposals" (text (utf16 "No pending proposals."))
  proposals_area my_role stale_ids (q ∷ qs) = proposals_view my_role stale_ids (q ∷ qs)

  unfoldable pub propose_button : String → Html
  unfolding utf16
  propose_button my_role =
      shown_if (str_eq my_role "proposer" || str_eq my_role "editor")
        (button "propose-btn" false open_propose (text (utf16 "+ Submit proposal")))

  -- The dialog. The small editor is CodeMirror's.
  unfoldable pub edit_dialog : Html
  unfolding utf16
  edit_dialog = all_of (
      element "div" "modal-sub"
        (text (utf16 "Edit the selected code below. The diff will be shown to editors."))
      ∷ element "div" "propose-modal-actions" (
          all_of (
            button "cancel-btn" false close_propose (text (utf16 "Cancel"))
            ∷ button "primary-btn" false submit (text (utf16 "Submit"))
            ∷ []))
      ∷ [])

  unfoldable pub empty_dialog : Html
  unfolding utf16
  empty_dialog = all_of (
      element "div" "modal-sub" (
        text
          (utf16 "Select the code you want to change in the editor, then click Submit proposal."))
      ∷ button "cancel-btn" false close_propose (text (utf16 "Close"))
      ∷ [])

  unfoldable pub dialog_body : Option Selection → Html
  unfolding edit_dialog empty_dialog
  dialog_body none = empty_dialog
  dialog_body (some s) = if s.from == s.to then empty_dialog else edit_dialog

  unfoldable pub dialog_view : Dialog → Html
  unfolding dialog_body utf16
  dialog_view m = shown_if m.show_propose_modal (
      backdrop "modal-overlay" close_propose (
        element "div" "propose-modal" (
          all_of (
            element "div" "modal-title" (text (utf16 "Propose a change"))
            ∷ dialog_body m.selection
            ∷ button "modal-close" false close_propose (text (utf16 "✕"))
            ∷ []))))

  unfoldable pub proposals_label : List Proposal → Html
  unfolding utf16
  proposals_label qs = element "div" "sidebar-label" (
      text (
        utf16 "Proposals " ++ (elim qs [
          | [] ↦ []
          | q ∷ rest ↦ utf16 "(" ++ (shown (length (q ∷ rest)) ++ utf16 ")")
        ])))

  -- The whole component, of its role, participants, proposals and stale proposals.
  unfoldable pub sidebar_view :
      String → List Participant → List Proposal → List String → Dialog → Option Html
  unfolding participants_view proposals_label proposals_area propose_button dialog_view utf16
  sidebar_view my_role people qs stale_ids m = do
    rows ← participants_view my_role people
    some (
        all_of (
          element "aside" "sidebar" (
            all_of (
              element "div" "sidebar-section"
                (both (element "div" "sidebar-label" (text (utf16 "Participants"))) rows)
              ∷ element "div" "sidebar-section" (proposals_label qs)
              ∷ element "div" "proposals-area"
                  (both (proposals_area my_role stale_ids qs) (propose_button my_role))
              ∷ []))
          ∷ dialog_view m
          ∷ []))
