-- ===== src/Ide/View/Total.antt =====
-- components/IDE.jsx: when the page of a session is shown at all.
use collaborative_ide.OutputPanel.Highlight.{highlight_err_msg}
use collaborative_ide.Ide.View.{page_view, Overlays}
use collaborative_ide.Sidebar.View.{initial, participants_view, participant_view, sidebar_view}
use collaborative_ide.Platform.{Platform}
use collaborative_ide.OutputPanel.Highlight.Marks.{highlight_err_msg_lem}
use collaborative_ide.OutputPanel.{
  Shown, meta, output_line, section, panic, trace, plain, compiler_error,
}
use collaborative_ide.OutputPanel.View.{line_view, output_lines_view, panel_view, body_view}
use collaborative_ide.View.{Html}
use collaborative_ide.Client.{Participant, Line, Client}
use Prim.Native.Char.{code}
use collaborative_ide.Prelude.{
  inl, inr, Bool-cases, ltb, some, [], ◌∷◌, refl, List, All, ℕ, ◌≢◌, ◌≡◌, Option, String, Bool,
  utf16, bind_some, ◌∙◌, Text,
}

abbrev pub AllNamed : List Participant → Type 0
AllNamed = All (λ q. q.id ≢ "")

line_view_total : (last : ℕ) (s : Shown) → (r : Html × ℕ) × (line_view last s ≡ some r)
unfolding line_view
line_view_total last (meta t) = (_, refl)
line_view_total last (section t) = (_, refl)
line_view_total last (panic t) = (_, refl)
line_view_total last (trace t) = (_, refl)
line_view_total last (plain kind t) = (_, refl)
line_view_total last (compiler_error e) =
    let marked = highlight_err_msg_lem last e.msg in
    (_, bind_some (highlight_err_msg last e.msg) _ _ marked.1)

output_lines_view_total :
    (last : ℕ) (ls : List Line) → (r : Html × ℕ) × (output_lines_view last ls ≡ some r)
unfolding output_lines_view
output_lines_view_total last [] = (_, refl)
output_lines_view_total last (l ∷ ls) =
    let row = line_view_total last (output_line l) in
    let rest = output_lines_view_total row.0.1 ls in
    (
      _,
      bind_some (line_view last (output_line l)) _ _ row.1
          ∙ bind_some (output_lines_view row.0.1 ls) _ _ rest.1,
    )

body_view_total : (last : ℕ) (ls : List Line) → (r : Html × ℕ) × (body_view last ls ≡ some r)
unfolding body_view
body_view_total last [] = (_, refl)
body_view_total last (l ∷ ls) = output_lines_view_total last (l ∷ ls)

pub panel_view_total :
    (last : ℕ) (ls : List Line) (status : Option String) (running : Bool)
    → (r : Html × ℕ) × (panel_view last ls status running ≡ some r)
unfolding panel_view
panel_view_total last ls status running =
    let body = body_view_total last ls in (_, bind_some (body_view last ls) _ _ body.1)

initial_total :
    (to_upper : Text → Text) (shown : ℕ → Text) (id : String)
    → id ≢ ""
    → (t : Text) × (initial to_upper shown id ≡ some t)
unfolding initial utf16
initial_total to_upper shown String.[] n = absurd (n refl)
initial_total to_upper shown (String.◌∷◌ c s) n = elim (Bool-cases (ltb (code c) 0x10000)) [
  | inl e ↦ rw (initial, utf16, e) (_, refl)
  | inr e ↦ rw (initial, utf16, e) (_, refl)
]

participants_view_total :
    (to_upper : Text → Text) (shown : ℕ → Text) (my_role : String) (qs : List Participant)
    → AllNamed qs
    → (h : Html) × (participants_view to_upper shown my_role qs ≡ some h)
unfolding participants_view participant_view
participants_view_total to_upper shown my_role [] h = (_, refl)
participants_view_total to_upper shown my_role (q ∷ qs) (n, ns) =
    let letter = initial_total to_upper shown q.id n in
    let rest = participants_view_total to_upper shown my_role qs ns in
    (
      _,
      bind_some (participant_view to_upper shown my_role q) _ _
            (bind_some (initial to_upper shown q.id) _ _ letter.1)
          ∙ bind_some (participants_view to_upper shown my_role qs) _ _ rest.1,
    )

-- The page of a session in which every participant has a name is shown, whatever its output,
-- proposals and dialogs are: no part of it throws or loops.
pub page_view_total :
    (p : Platform) (to_upper : Text → Text) (shown : ℕ → Text) (c : Client p) (o : Overlays)
    → AllNamed c.participants
    → (h : Html) × (next : ℕ) × (page_view p to_upper shown c o ≡ some (h, next))
unfolding page_view sidebar_view
page_view_total p to_upper shown c o named =
    let rows = participants_view_total to_upper shown c.my_role c.participants named in
    let panel = panel_view_total o.last_index c.output_lines c.output_status c.running in
    (
      _,
      _,
      bind_some
            (sidebar_view to_upper shown c.my_role c.participants c.proposals c.stale_ids o.dialog)
            _ _ (bind_some (participants_view to_upper shown c.my_role c.participants) _ _ rows.1)
          ∙ bind_some (panel_view o.last_index c.output_lines c.output_status c.running) _ _
              panel.1,
    )
