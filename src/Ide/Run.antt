-- ===== src/Ide/Run.antt =====
-- Running the program: the busy flag, and the report that goes to the page and to the others.
use collaborative_ide.Ide.{
  RunEvent, Response, answer, run_report, split_lines, run_code, run_response, is_empty,
}
use collaborative_ide.Prelude.{
  ◌≡◌, ◌≢◌, refl, false, none, some, List, [], ◌∷◌, arith, inl, inr, Text, ℕ, keep, ◌++◌, All, map,
  Option, String, Bool-cases, not, ap, ◌==◌, ◌∙◌, sym, ==_iff,
}
use collaborative_ide.Platform.{Platform}
use collaborative_ide.Client.{Client, send, Line, own, on_run_result, ready, json, run_result}

-- The lines of a text, each closed by a line break but the last.
abbrev pub join_lines : Text → List Text → Text
join_lines first [] = first
join_lines first (next ∷ rest) = first ++ 10 ∷ join_lines next rest

join_lines-cons :
    (c : ℕ) (first : Text) (rest : List Text)
    → join_lines (c ∷ first) rest ≡ c ∷ join_lines first rest
join_lines-cons c first [] = refl
join_lines-cons c first (next ∷ rest) = refl

abbrev pub IsLine : Text → Type 0
IsLine [] = Unit
IsLine (c ∷ s) = (c ≢ 10) × IsLine s

-- Splitting loses nothing: the parts hold no line break, and joined they are the text.
split_lines_lem :
    (s : Text)
    → (join_lines (split_lines s).0 (split_lines s).1 ≡ s)
      × All IsLine ((split_lines s).0 ∷ (split_lines s).1)
unfolding split_lines
split_lines_lem [] = (refl, (tt, tt))
split_lines_lem (c ∷ s) =
    let (joined, lines) = split_lines_lem s in
    elim (Bool-cases (c == 10)) [
      | inl e ↦ rw e (ap (10 ∷◌) joined ∙ (ap (λ k. k ∷ s) (sym ((==_iff c 10).0 e))), (tt, lines))
      | inr e ↦ rw e (join_lines-cons c _ _ ∙ ap (c ∷◌) joined, ((ground arith, lines.0), lines.1))
    ]

-- A line of the report on errors: of kind "err", not empty, with no line break inside.
abbrev pub IsErrorLine : Line → Type 0
IsErrorLine l = (l.kind ≡ "err") × (l.text ≢ []) × IsLine l.text

abbrev error_line : Text → Line
error_line l = record { kind = "err"; text = l }

IsErrorLine-map :
    (ls : List Text)
    → All IsLine ls
    → All IsErrorLine (map error_line (keep (λ l. not (is_empty l)) ls))
unfolding keep
IsErrorLine-map [] h = tt
IsErrorLine-map ([] ∷ ls) (h, hs) = IsErrorLine-map ls hs
IsErrorLine-map ((c ∷ l) ∷ ls) (h, hs) = ((refl, (λ e. cc), h), IsErrorLine-map ls hs)

text-map : (ls : List Text) → map (λ l. l.text) (map error_line ls) ≡ ls
text-map [] = refl
text-map (l ∷ ls) = ap (l ∷◌) (text-map ls)

-- The compiler's errors, if there are any, are reported as they are, line by line: there are lines without line
-- breaks that joined are the text of the errors, and the report shows those of them that are not
-- empty, in their order and each as an error, with the status "err".
pub run_report_errors :
    (errors : Text) (events : Option (List RunEvent))
    → errors ≢ []
    → (first : Text) × (rest : List Text) × (join_lines first rest ≡ errors)
      × (map (λ l. l.text) (run_report (answer (some errors) events)).0
          ≡ keep (λ l. not (is_empty l)) (first ∷ rest))
      × All IsErrorLine (run_report (answer (some errors) events)).0
      × ((run_report (answer (some errors) events)).1 ≡ "err")
unfolding run_report
run_report_errors [] events h = absurd (h refl)
run_report_errors (c ∷ s) events h =
    let (joined, lines) = split_lines_lem (c ∷ s) in
    (
      (split_lines (c ∷ s)).0,
      (split_lines (c ∷ s)).1,
      joined,
      text-map _,
      IsErrorLine-map ((split_lines (c ∷ s)).0 ∷ (split_lines (c ∷ s)).1) lines,
      refl,
    )

module _ (p : Platform) where
  -- Whatever came of a run, it ends the busy state, and the page shows the same lines and status
  -- that go to the other participants, in one frame if the socket is open.
  pub run_response_lem :
      (r : Response) (c : Client p)
      → c.ws_ref ≡ some own
      → c.ws ≡ ready
      → let c' = run_response p r c in
        (c'.running ≡ false)
        × (c'.output_lines ≡ (run_report r).0)
        × (c'.output_status ≡ some (run_report r).1)
        × (c'.sent ≡ c.sent ++ (own, json (run_result (run_report r).0 (run_report r).1)) ∷ [])
  unfolding run_response send
  run_response_lem r c ref open_ws = ground arith

  -- While a run is under way another click makes no request. But the result of another participant
  -- ends the busy state of this one too: the next click makes a second request.
  pub run_code_again :
      (c : Client p) (lines : List Line) (status : String)
      → c.running ≡ false
      → ((run_code p c).1 ≡ some (p.text c.doc))
        × (run_code p (run_code p c).0 ≡ ((run_code p c).0, none))
        × ((run_code p (on_run_result p lines status (run_code p c).0)).1 ≡ some (p.text c.doc))
  unfolding run_code on_run_result
  run_code_again c lines status idle = (ground arith, ground arith, ground arith)
