-- ===== src/OutputPanel/View.antt =====
-- components/OutputPanel.jsx: the panel, with the `lastIndex` of KEYWORD_RE before and after.
use collaborative_ide.OutputPanel.{
  Shown, meta, section, panic, trace, plain, compiler_error, CompilerError, output_line,
}
use collaborative_ide.OutputPanel.Highlight.{highlight_err_msg}
use collaborative_ide.View.{Html, nothing, both, text, element, all_of, shown_if}
use collaborative_ide.Client.{Line}
use collaborative_ide.Prelude.{
  ◌>>=◌, [], true, false, none, some, not, List, utf16, ℕ, Bool, ◌∷◌, Option, Text, String, ◌&&◌,
  str_eq,
}

unfoldable pub parts_view : List (Bool × Text) → Html
parts_view [] = nothing
parts_view ((true, t) ∷ parts) = both (element "span" "out-keyword" (text t)) (parts_view parts)
parts_view ((false, t) ∷ parts) = both (text t) (parts_view parts)

unfoldable pub error_view : CompilerError → Html → Html
unfolding utf16
error_view e msg = element "span" "output-line out-compiler-err" (
    all_of (
      element "span" "out-file" (text e.file)
      ∷ element "span" "out-sep" (text (utf16 ":"))
      ∷ element "span" "out-linenum" (text e.line)
      ∷ element "span" "out-sep" (text (utf16 ":"))
      ∷ element "span" "out-colnum" (text e.column)
      ∷ element "span" "out-sep" (text (utf16 ": "))
      ∷ element "span" "out-errmsg" msg
      ∷ []))

-- The class of a plain line is `output-line ` with its kind.
unfoldable pub line_view : ℕ → Shown → Option (Html × ℕ)
unfolding highlight_err_msg parts_view error_view
line_view last (meta t) = some (element "span" "output-line meta" (text t), last)
line_view last (section t) = some (element "span" "output-line out-section" (text t), last)
line_view last (panic t) = some (element "span" "output-line out-panic" (text t), last)
line_view last (trace t) = some (element "span" "output-line out-trace" (text t), last)
line_view last (plain kind t) = some (element "span" kind (text t), last)
line_view last (compiler_error e) = do
  (parts, next) ← highlight_err_msg last e.msg
  some (error_view e (parts_view parts), next)

unfoldable pub output_lines_view : ℕ → List Line → Option (Html × ℕ)
unfolding line_view output_line
output_lines_view last [] = some (nothing, last)
output_lines_view last (l ∷ ls) = do
  (h, next) ← line_view last (output_line l)
  (rest, end) ← output_lines_view next ls
  some (both h rest, end)

unfoldable pub body_view : ℕ → List Line → Option (Html × ℕ)
unfolding output_lines_view utf16
body_view last [] =
    some (
      element "span" "output-line meta" (text (utf16 "▸ Press Run to execute your Go code.")),
      last,
    )
body_view last (l ∷ ls) = output_lines_view last (l ∷ ls)

unfoldable pub status_view : Option String → Bool → Html
unfolding utf16
status_view status running = all_of (
    shown_if running (element "span" "status-run" (text (utf16 "● running")))
    ∷ (elim status [
      | none ↦ nothing
      | some s ↦
          both
            (shown_if (not running && str_eq s "ok")
              (element "span" "status-ok" (text (utf16 "✓ exited 0"))))
            (shown_if (not running && str_eq s "err")
              (element "span" "status-err" (text (utf16 "✕ build failed"))))
    ])
    ∷ [])

unfoldable pub panel_view : ℕ → List Line → Option String → Bool → Option (Html × ℕ)
unfolding body_view status_view utf16
panel_view last lines status running = do
  (body, next) ← body_view last lines
  some (
    element "div" "output-panel" (
        both
          (element "div" "output-header" (
            both (element "span" "output-label" (text (utf16 "Output")))
              (element "span" "output-status" (status_view status running))))
          (element "div" "output-body" body)),
    next,
  )
