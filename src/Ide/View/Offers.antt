-- ===== src/Ide/View/Offers.antt =====
-- What the page of a session offers, by role and dialog.
use collaborative_ide.OutputPanel.Silent.{panel_view-Offers}
use collaborative_ide.OutputPanel.View.{panel_view}
use collaborative_ide.ShareModal.{share_view}
use collaborative_ide.Ide.View.{Overlays, run_button, titlebar, main_area, page_view}
use collaborative_ide.Platform.{Platform}
use collaborative_ide.View.{Action, shown_if}
use collaborative_ide.Client.{Client}
use collaborative_ide.View.Offered.{shown_if-Offers}
use collaborative_ide.Prelude.{inl, inr, some, not, Bool-cases, str_eq, ap, arith, eq_iff}
use collaborative_ide.Ide.View.Proposals.{
  proposals_area-Offers, propose_button-Offers, dialog_view-Offers,
}
use collaborative_ide.Ide.View.People.{participants_view-Offers}
use collaborative_ide.Ide.View.Allowed.{
  Page, IsAllowed, offered, may_share, may_close_share, may_run, may_copy,
}
use mathlib.Core.Path.{subst}
use collaborative_ide.View.{Action, Html, Offers}
use collaborative_ide.Sidebar.View.{proposals_label, sidebar_view, participants_view}
use collaborative_ide.Prelude.{inl, inr, some, String, List, ◌≡◌, Text, sym, ℕ, bind_inv, some_inj}

module _ (g : Page) (to_upper : Text → Text) (shown : ℕ → Text) where
  pub sidebar_view-IsAllowed :
      (a : Action) (ids : List String) (h : Html)
      → sidebar_view to_upper shown g.role g.people g.proposals ids g.dialog ≡ some h
      → Offers a h
      → IsAllowed g a
  unfolding sidebar_view proposals_label
  sidebar_view-IsAllowed a ids h e x =
      let (rows, e₁, k₁) = bind_inv (participants_view to_upper shown g.role g.people) _ h e in
      elim (subst (Offers a) (sym (some_inj _ h k₁)) x) [
        | inl (inl (inl k)) ↦ elim k [ ]
        | inl (inl (inr k)) ↦
            participants_view-Offers g to_upper shown a g.people rows (λ q i. i) e₁ k
        | inl (inr (inl k)) ↦ elim k [ ]
        | inl (inr (inr (inl (inl k)))) ↦
            proposals_area-Offers g to_upper shown a ids g.proposals (λ q i. i) k
        | inl (inr (inr (inl (inr k)))) ↦ propose_button-Offers g to_upper shown a k
        | inl (inr (inr (inr k))) ↦ elim k [ ]
        | inr (inl k) ↦ dialog_view-Offers g to_upper shown a k
        | inr (inr k) ↦ elim k [ ]
      ]

-- What the page offers of a client with these overlays, as the conditions see them.
abbrev pub page_of : (p : Platform) → Client p → Overlays → Page
page_of p c o = record {
  role = c.my_role;
  people = c.participants;
  proposals = c.proposals;
  dialog = o.dialog;
  running = c.running;
  sharing = o.show_share;
}

module _ (p : Platform) (to_upper : Text → Text) (shown : ℕ → Text) where
  run_button-Offers :
      (a : Action) (c : Client p) (o : Overlays)
      → Offers a (run_button p to_upper shown c)
      → IsAllowed (page_of p c o) a
  unfolding run_button
  run_button-Offers a c o x =
      let (writes, (idle, e)) = shown_if-Offers a (not (str_eq c.my_role "viewer")) _ x in
      offered (page_of p c o) _ e (may_run (ground (arith, eq_iff c.my_role "viewer")) idle)

  titlebar-Offers :
      (a : Action) (c : Client p) (o : Overlays)
      → Offers a (titlebar p to_upper shown c)
      → IsAllowed (page_of p c o) a
  unfolding titlebar
  titlebar-Offers a c o (inl k) = elim k [ ]
  titlebar-Offers a c o (inr (inl k)) = elim k [ ]
  titlebar-Offers a c o (inr (inr (inl (inl (inl e))))) = offered (page_of p c o) _ e may_share
  titlebar-Offers a c o (inr (inr (inl (inl (inr k))))) = elim k [ ]
  titlebar-Offers a c o (inr (inr (inl (inr (inl k))))) = elim k [ ]
  titlebar-Offers a c o (inr (inr (inl (inr (inr (inl k)))))) = run_button-Offers a c o k
  titlebar-Offers a c o (inr (inr (inl (inr (inr (inr k)))))) = elim k [ ]
  titlebar-Offers a c o (inr (inr (inr k))) = elim k [ ]

  share_view-Offers :
      (a : Action) (c : Client p) (o : Overlays)
      → Offers a (shown_if o.show_share (share_view c.code o.copied))
      → IsAllowed (page_of p c o) a
  unfolding share_view
  share_view-Offers a c o x =
      let (sharing, y) = shown_if-Offers a o.show_share _ x in
      elim y [
        | inl e ↦ offered (page_of p c o) _ e (may_close_share sharing)
        | inr (inl k) ↦ elim k [ ]
        | inr (inr (inl k)) ↦ elim k [ ]
        | inr (inr (inr (inl k))) ↦ elim k [ ]
        | inr (inr (inr (inr (inl (_, e))))) ↦ offered (page_of p c o) _ e (may_copy sharing)
        | inr (inr (inr (inr (inr (inl (_, e)))))) ↦
            offered (page_of p c o) _ e (may_close_share sharing)
        | inr (inr (inr (inr (inr (inr k))))) ↦ elim k [ ]
      ]

  main_area-Offers :
      (a : Action) (c : Client p) (output : Html)
      → Offers a (main_area p to_upper shown c output)
      → Offers a output
  unfolding main_area
  main_area-Offers a c output (inr k) = k
  main_area-Offers a c output (inl k) = elim (Bool-cases c.doc_ready) [
    | inl e ↦ absurd (rw (e) at k)
    | inr e ↦ absurd (rw (e) at k)
  ]

  -- Whatever the page of a session offers is allowed by what it shows: only an editor may set the
  -- role of another participant, to one of the three roles, and accept or reject a proposal of the
  -- list; only a proposer or an editor may open the dialog, and submit from it only a selection that
  -- is not empty; only one who is no viewer may run the code, and not while it runs; the share dialog
  -- is closed or its code copied only while it is shown.
  pub page_view-IsAllowed :
      (c : Client p) (o : Overlays) (h : Html) (next : ℕ) (a : Action)
      → page_view p to_upper shown c o ≡ some (h, next)
      → Offers a h
      → IsAllowed (page_of p c o) a
  unfolding page_view
  page_view-IsAllowed c o h next a e x =
      let g = page_of p c o in
      let (sidebar, e₁, k₁) =
        bind_inv (sidebar_view to_upper shown g.role g.people g.proposals c.stale_ids o.dialog) _
          (h, next) e in
      let ((output, n₁), e₂, k₂) =
        bind_inv (panel_view o.last_index c.output_lines c.output_status c.running) _ (h, next)
          k₁ in
      elim (subst (Offers a) (sym (ap (λ r. r.0) (some_inj _ _ k₂))) x) [
        | inl k ↦ titlebar-Offers a c o k
        | inr (inl k) ↦ sidebar_view-IsAllowed g to_upper shown a c.stale_ids sidebar e₁ k
        | inr (inr (inl k)) ↦ absurd (
            panel_view-Offers a o.last_index n₁ c.output_lines c.output_status c.running output e₂
              (main_area-Offers a c output k))
        | inr (inr (inr (inl k))) ↦ share_view-Offers a c o k
        | inr (inr (inr (inr k))) ↦ elim k [ ]
      ]
