-- ===== src/Ide/View/People.antt =====
-- What the list of participants of components/Sidebar.jsx offers.
use collaborative_ide.Ide.View.Allowed.{Page, IsAllowed, offered, may_set_role}
use mathlib.Core.Path.{subst}
use collaborative_ide.View.{Action, Html, Offers}
use collaborative_ide.Sidebar.View.{role_view, participant_view, participants_view, initial}
use collaborative_ide.Client.{Participant}
use collaborative_ide.Prelude.{
  IsIn, refl, inl, inr, false, some, [], List, ◌≡◌, Text, ◌∷◌, sym, ℕ, Bool-cases, str_eq, ◌&&◌,
  not, arith, eq_iff, bind_inv, some_inj,
}

module _ (g : Page) (to_upper : Text → Text) (shown : ℕ → Text) where
  role_view-Offers :
      (a : Action) (q : Participant)
      → IsIn q g.people
      → Offers a (role_view to_upper shown g.role q)
      → IsAllowed g a
  unfolding role_view
  role_view-Offers a q there x = elim (Bool-cases (str_eq g.role "editor" && not q.is_me)) [
    | inr e ↦ absurd (rw (role_view, e) at x)
    | inl e ↦
        let editor : g.role ≡ "editor" = ground (arith, eq_iff g.role "editor") in
        let other : q.is_me ≡ false = ground arith in
        elim (rw (role_view, e) at x) [
          | inl k ↦ offered g _ k (may_set_role q "editor" editor there other (inl refl))
          | inr (inl k) ↦
              offered g _ k (may_set_role q "proposer" editor there other (inr (inl refl)))
          | inr (inr (inl k)) ↦
              offered g _ k (may_set_role q "viewer" editor there other (inr (inr refl)))
          | inr (inr (inr k)) ↦ elim k [ ]
        ]
  ]

  participant_view-Offers :
      (a : Action) (q : Participant) (h : Html)
      → IsIn q g.people
      → participant_view to_upper shown g.role q ≡ some h
      → Offers a h
      → IsAllowed g a
  unfolding participant_view
  participant_view-Offers a q h there e x =
      let (letter, first, rest) = bind_inv (initial to_upper shown q.id) _ h e in
      elim (subst (Offers a) (sym (some_inj _ h rest)) x) [
        | inl k ↦ elim k [ ]
        | inr (inl k) ↦ elim k [ ]
        | inr (inr (inl k)) ↦ role_view-Offers a q there k
        | inr (inr (inr k)) ↦ elim k [ ]
      ]

  pub participants_view-Offers :
      (a : Action) (qs : List Participant) (h : Html)
      → ((q : Participant) → IsIn q qs → IsIn q g.people)
      → participants_view to_upper shown g.role qs ≡ some h
      → Offers a h
      → IsAllowed g a
  unfolding participants_view
  participants_view-Offers a [] h there e x = absurd (subst (Offers a) (sym (some_inj _ h e)) x)
  participants_view-Offers a (q ∷ qs) h there e x =
      let (row, e₁, k₁) = bind_inv (participant_view to_upper shown g.role q) _ h e in
      let (rows, e₂, k₂) = bind_inv (participants_view to_upper shown g.role qs) _ h k₁ in
      elim (subst (Offers a) (sym (some_inj _ h k₂)) x) [
        | inl k ↦ participant_view-Offers a q row (there q (inl refl)) e₁ k
        | inr k ↦ participants_view-Offers a qs rows (λ q' i. there q' (inr i)) e₂ k
      ]
