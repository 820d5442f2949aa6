-- ===== src/OutputPanel/Silent.antt =====
-- components/OutputPanel.jsx: the panel has nothing to click.
use collaborative_ide.OutputPanel.Highlight.{highlight_err_msg}
use collaborative_ide.View.Offered.{shown_text-Offers}
use collaborative_ide.Client.{Line}
use collaborative_ide.OutputPanel.View.{
  parts_view, error_view, line_view, output_lines_view, body_view, status_view, panel_view,
}
use mathlib.Core.Path.{subst}
use collaborative_ide.View.{Action, Html, Offers}
use collaborative_ide.OutputPanel.{
  Shown, meta, section, panic, trace, plain, compiler_error, CompilerError, output_line,
}
use collaborative_ide.Prelude.{
  true, false, none, some, [], ◌∷◌, inl, inr, List, ℕ, Option, Bool, ◌≡◌, String, Text, sym,
  bind_inv, ap, utf16, some_inj, not, ◌&&◌, str_eq,
}

parts_view-Offers : (a : Action) (parts : List (Bool × Text)) → Offers a (parts_view parts) → ⊥
unfolding parts_view
parts_view-Offers a [] x = x
parts_view-Offers a ((true, t) ∷ parts) (inl k) = k
parts_view-Offers a ((true, t) ∷ parts) (inr k) = parts_view-Offers a parts k
parts_view-Offers a ((false, t) ∷ parts) (inl k) = k
parts_view-Offers a ((false, t) ∷ parts) (inr k) = parts_view-Offers a parts k

error_view-Offers :
    (a : Action) (e : CompilerError) (parts : List (Bool × Text))
    → Offers a (error_view e (parts_view parts))
    → ⊥
unfolding error_view
error_view-Offers a e parts (inl k) = k
error_view-Offers a e parts (inr (inl k)) = k
error_view-Offers a e parts (inr (inr (inl k))) = k
error_view-Offers a e parts (inr (inr (inr (inl k)))) = k
error_view-Offers a e parts (inr (inr (inr (inr (inl k))))) = k
error_view-Offers a e parts (inr (inr (inr (inr (inr (inl k)))))) = k
error_view-Offers a e parts (inr (inr (inr (inr (inr (inr (inl k))))))) =
    parts_view-Offers a parts k
error_view-Offers a e parts (inr (inr (inr (inr (inr (inr (inr k))))))) = k

line_view-Offers :
    (a : Action) (last next : ℕ) (s : Shown) (h : Html)
    → line_view last s ≡ some (h, next)
    → Offers a h
    → ⊥
unfolding line_view
line_view-Offers a last next (meta t) h e x =
    subst (Offers a) (sym (ap (λ p. p.0) (some_inj _ _ e))) x
line_view-Offers a last next (section t) h e x =
    subst (Offers a) (sym (ap (λ p. p.0) (some_inj _ _ e))) x
line_view-Offers a last next (panic t) h e x =
    subst (Offers a) (sym (ap (λ p. p.0) (some_inj _ _ e))) x
line_view-Offers a last next (trace t) h e x =
    subst (Offers a) (sym (ap (λ p. p.0) (some_inj _ _ e))) x
line_view-Offers a last next (plain kind t) h e x =
    subst (Offers a) (sym (ap (λ p. p.0) (some_inj _ _ e))) x
line_view-Offers a last next (compiler_error c) h e x =
    let ((parts, end), e₁, k) = bind_inv (highlight_err_msg last c.msg) _ (h, next) e in
    error_view-Offers a c parts (subst (Offers a) (sym (ap (λ p. p.0) (some_inj _ _ k))) x)

output_lines_view-Offers :
    (a : Action) (last next : ℕ) (ls : List Line) (h : Html)
    → output_lines_view last ls ≡ some (h, next)
    → Offers a h
    → ⊥
unfolding output_lines_view
output_lines_view-Offers a last next [] h e x =
    subst (Offers a) (sym (ap (λ p. p.0) (some_inj _ _ e))) x
output_lines_view-Offers a last next (l ∷ ls) h e x =
    let ((row, n₁), e₁, k₁) = bind_inv (line_view last (output_line l)) _ (h, next) e in
    let ((rows, n₂), e₂, k₂) = bind_inv (output_lines_view n₁ ls) _ (h, next) k₁ in
    elim (subst (Offers a) (sym (ap (λ p. p.0) (some_inj _ _ k₂))) x) [
      | inl k ↦ line_view-Offers a last n₁ (output_line l) row e₁ k
      | inr k ↦ output_lines_view-Offers a n₁ n₂ ls rows e₂ k
    ]

body_view-Offers :
    (a : Action) (last next : ℕ) (ls : List Line) (h : Html)
    → body_view last ls ≡ some (h, next)
    → Offers a h
    → ⊥
unfolding body_view
body_view-Offers a last next [] h e x = subst (Offers a) (sym (ap (λ p. p.0) (some_inj _ _ e))) x
body_view-Offers a last next (l ∷ ls) h e x = output_lines_view-Offers a last next (l ∷ ls) h e x

status_view-Offers :
    (a : Action) (status : Option String) (running : Bool)
    → Offers a (status_view status running)
    → ⊥
unfolding status_view
status_view-Offers a status running (inl k) =
    shown_text-Offers a running "span" "status-run" (utf16 "● running") k
status_view-Offers a none running (inr (inl k)) = k
status_view-Offers a (some s) running (inr (inl (inl k))) =
    shown_text-Offers a (not running && str_eq s "ok") "span" "status-ok" (utf16 "✓ exited 0") k
status_view-Offers a (some s) running (inr (inl (inr k))) =
    shown_text-Offers a (not running && str_eq s "err") "span" "status-err" (utf16 "✕ build failed")
      k
status_view-Offers a status running (inr (inr k)) = k

pub panel_view-Offers :
    (a : Action) (last next : ℕ) (ls : List Line) (status : Option String) (running : Bool)
    (h : Html)
    → panel_view last ls status running ≡ some (h, next)
    → Offers a h
    → ⊥
unfolding panel_view
panel_view-Offers a last next ls status running h e x =
    let ((body, n₁), e₁, k₁) = bind_inv (body_view last ls) _ (h, next) e in
    elim (subst (Offers a) (sym (ap (λ p. p.0) (some_inj _ _ k₁))) x) [
      | inl (inl k) ↦ k
      | inl (inr k) ↦ status_view-Offers a status running k
      | inr k ↦ body_view-Offers a last n₁ ls body e₁ k
    ]
