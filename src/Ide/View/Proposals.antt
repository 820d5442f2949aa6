-- ===== src/Ide/View/Proposals.antt =====
-- What the proposals of components/Sidebar.jsx and its dialog offer.
use collaborative_ide.View.Offered.{shown_text-Offers, shown_if-Offers}
use collaborative_ide.Ide.View.Allowed.{
  Page, IsAllowed, offered, may_open, may_close, may_submit, may_accept, may_reject,
}
use collaborative_ide.View.{Action, Offers}
use collaborative_ide.Sidebar.View.{
  proposals_view, proposals_area, propose_button, dialog_body, dialog_view, edit_dialog,
  empty_dialog, lines_view, author_view, diff_view, proposal_view, actions_view, is_marked,
}
use collaborative_ide.Sidebar.{Selection}
use collaborative_ide.PositionUtils.{Proposal}
use collaborative_ide.Prelude.{
  IsIn, none, refl, inl, inr, true, some, [], String, List, ◌≡◌, Text, ◌∷◌, ℕ, ◌≢◌, Bool-cases,
  str_eq, arith, eq_iff, Option, ◌==◌, Option-cases, truthy, ◌||◌, ==_iff, utf16,
}

module _ (g : Page) (to_upper : Text → Text) (shown : ℕ → Text) where
  lines_view-Offers :
      (a : Action) (start end : Option ℕ) → Offers a (lines_view to_upper shown start end) → ⊥
  unfolding lines_view
  lines_view-Offers a none end x = x
  lines_view-Offers a (some n) end x = elim (Bool-cases (n == 0)) [
    | inl e ↦ rw (e) at x
    | inr e ↦ rw (e) at x
  ]

  author_view-Offers :
      (a : Action) (author : Option String) → Offers a (author_view to_upper shown author) → ⊥
  unfolding author_view
  author_view-Offers a none x = x
  author_view-Offers a (some author) x = x

  diff_view-Offers :
      (a : Action) (original : Option Text) (replacement : Text)
      → Offers a (diff_view to_upper shown original replacement)
      → ⊥
  unfolding diff_view
  diff_view-Offers a original replacement x = elim (Option-cases (truthy original)) [
    | inl e ↦ elim (rw (diff_view, e) at x) [ inl k ↦ k | inr (inl k) ↦ k | inr (inr k) ↦ k ]
    | inr (t, e) ↦ elim (rw (diff_view, e) at x) [ inl k ↦ k | inr (inl k) ↦ k | inr (inr k) ↦ k ]
  ]

  proposal_view-Offers :
      (a : Action) (ids : List String) (q : Proposal)
      → IsIn q g.proposals
      → Offers a (proposal_view to_upper shown g.role ids q)
      → IsAllowed g a
  unfolding proposal_view actions_view
  proposal_view-Offers a ids q there (inl (inl k)) = elim k [ ]
  proposal_view-Offers a ids q there (inl (inr (inl k))) = absurd (author_view-Offers a q.author k)
  proposal_view-Offers a ids q there (inl (inr (inr (inl k)))) =
      absurd (lines_view-Offers a q.start_line q.end_line k)
  proposal_view-Offers a ids q there (inl (inr (inr (inr (inl k))))) = absurd (
      shown_text-Offers a (is_marked to_upper shown ids q.id) "span" "stale-badge" (utf16 "stale")
        k)
  proposal_view-Offers a ids q there (inl (inr (inr (inr (inr k))))) = elim k [ ]
  proposal_view-Offers a ids q there (inr (inl k)) =
      absurd (diff_view-Offers a q.original_text q.replacement k)
  proposal_view-Offers a ids q there (inr (inr (inl k))) = absurd (
      shown_text-Offers a (is_marked to_upper shown ids q.id) "div" "stale-note"
        (utf16 "Target was modified — accept will be rejected.") k)
  proposal_view-Offers a ids q there (inr (inr (inr (inl k)))) =
      let (editor, offers) = shown_if-Offers a (str_eq g.role "editor") _ k in
      let role = (eq_iff g.role "editor").0 editor in
      elim offers [
        | inl (_, e) ↦ offered g _ e (may_accept q role there)
        | inr (inl (_, e)) ↦ offered g _ e (may_reject q role there)
        | inr (inr e) ↦ elim e [ ]
      ]
  proposal_view-Offers a ids q there (inr (inr (inr (inr k)))) = elim k [ ]

  proposals_view-Offers :
      (a : Action) (ids : List String) (qs : List Proposal)
      → ((q : Proposal) → IsIn q qs → IsIn q g.proposals)
      → Offers a (proposals_view to_upper shown g.role ids qs)
      → IsAllowed g a
  unfolding proposals_view
  proposals_view-Offers a ids [] there x = elim x [ ]
  proposals_view-Offers a ids (q ∷ qs) there (inl k) =
      proposal_view-Offers a ids q (there q (inl refl)) k
  proposals_view-Offers a ids (q ∷ qs) there (inr k) =
      proposals_view-Offers a ids qs (λ q' i. there q' (inr i)) k

  pub proposals_area-Offers :
      (a : Action) (ids : List String) (qs : List Proposal)
      → ((q : Proposal) → IsIn q qs → IsIn q g.proposals)
      → Offers a (proposals_area to_upper shown g.role ids qs)
      → IsAllowed g a
  unfolding proposals_area
  proposals_area-Offers a ids [] there x = elim x [ ]
  proposals_area-Offers a ids (q ∷ qs) there x = proposals_view-Offers a ids (q ∷ qs) there x

  pub propose_button-Offers :
      (a : Action) → Offers a (propose_button to_upper shown g.role) → IsAllowed g a
  unfolding propose_button
  propose_button-Offers a x =
      let (who, (_, e)) =
        shown_if-Offers a (str_eq g.role "proposer" || str_eq g.role "editor") _ x in
      offered g _ e (may_open (ground (arith, eq_iff g.role "proposer", eq_iff g.role "editor")))

  edit_dialog-Offers :
      (a : Action) (s : Selection)
      → g.dialog.show_propose_modal ≡ true
      → g.dialog.selection ≡ some s
      → s.from ≢ s.to
      → Offers a (edit_dialog to_upper shown)
      → IsAllowed g a
  unfolding edit_dialog
  edit_dialog-Offers a s visible there ne (inl k) = elim k [ ]
  edit_dialog-Offers a s visible there ne (inr (inl (inl (_, e)))) =
      offered g _ e (may_close visible)
  edit_dialog-Offers a s visible there ne (inr (inl (inr (inl (_, e))))) =
      offered g _ e (may_submit s visible there ne)
  edit_dialog-Offers a s visible there ne (inr (inl (inr (inr k)))) = elim k [ ]
  edit_dialog-Offers a s visible there ne (inr (inr k)) = elim k [ ]

  empty_dialog-Offers :
      (a : Action)
      → g.dialog.show_propose_modal ≡ true
      → Offers a (empty_dialog to_upper shown)
      → IsAllowed g a
  unfolding empty_dialog
  empty_dialog-Offers a visible (inl k) = elim k [ ]
  empty_dialog-Offers a visible (inr (inl (_, e))) = offered g _ e (may_close visible)
  empty_dialog-Offers a visible (inr (inr k)) = elim k [ ]

  dialog_body-Offers :
      (a : Action) (selection : Option Selection)
      → g.dialog.show_propose_modal ≡ true
      → g.dialog.selection ≡ selection
      → Offers a (dialog_body to_upper shown selection)
      → IsAllowed g a
  unfolding dialog_body
  dialog_body-Offers a none visible there x = empty_dialog-Offers a visible x
  dialog_body-Offers a (some s) visible there x = elim (Bool-cases (s.from == s.to)) [
    | inl e ↦ empty_dialog-Offers a visible (rw (dialog_body, e) at x)
    | inr e ↦
        edit_dialog-Offers a s visible there (ground (arith, ==_iff s.from s.to))
          (rw (dialog_body, e) at x)
  ]

  pub dialog_view-Offers :
      (a : Action) → Offers a (dialog_view to_upper shown g.dialog) → IsAllowed g a
  unfolding dialog_view
  dialog_view-Offers a x =
      let (visible, y) = shown_if-Offers a g.dialog.show_propose_modal _ x in
      elim y [
        | inl e ↦ offered g _ e (may_close visible)
        | inr (inl k) ↦ elim k [ ]
        | inr (inr (inl k)) ↦ dialog_body-Offers a g.dialog.selection visible refl k
        | inr (inr (inr (inl (_, e)))) ↦ offered g _ e (may_close visible)
        | inr (inr (inr (inr k))) ↦ elim k [ ]
      ]
