-- ===== src/OutputPanel.antt =====
-- components/OutputPanel.jsx: how a line of output is classified and marked up. A regular expression
-- is the function that runs it, with its alternatives in the order of the engine. Without the flag
-- `m`, `$` is the end of the text, and `.` is any unit but a line terminator.
pub mod CompilerErrors
pub mod Highlight
pub mod Lines
pub mod View
pub mod Silent
use collaborative_ide.Landing.{is_space, trim_start}
use collaborative_ide.Client.{Line}
use collaborative_ide.Ide.{is_empty}
use collaborative_ide.Prelude.{
  ◌>>=◌, [], true, false, none, some, ℕ, Text, all, utf16, String, Bool, ◌∷◌, Option, if◌then◌else◌,
  leb, ◌==◌, ◌&&◌, drop, not, ◌||◌, str_eq,
}

unfoldable pub is_digit : ℕ → Bool
is_digit c = leb 48 c && leb c 57

unfoldable pub is_line_end : ℕ → Bool
is_line_end c = c == 10 || (c == 13 || (c == 0x2028 || c == 0x2029))

-- `text.startsWith(prefix)`
unfoldable pub starts_with : Text → Text → Bool
starts_with s [] = true
starts_with [] (c ∷ p) = false
starts_with (x ∷ s) (c ∷ p) = x == c && starts_with s p

-- The longest run of digits, and what follows it.
unfoldable pub digits : Text → Text × Text
unfolding is_digit
digits [] = ([], [])
digits (c ∷ s) = let (run, rest) = digits s in if is_digit c then (c ∷ run, rest) else ([], c ∷ s)

unfoldable pub expect : ℕ → Text → Option Text
expect c [] = none
expect c (x ∷ s) = if x == c then some s else none

-- `(\d+)`; what follows it in the expression is no digit, so only the longest run can match.
unfoldable pub number : Text → Option (Text × Text)
unfolding digits
number s = let (run, rest) = digits s in if is_empty run then none else some (run, rest)

-- `\s(.+)$`
unfoldable pub message : Text → Option Text
unfolding is_space is_line_end all
message [] = none
message (w ∷ msg) =
    if is_space w && (not (is_empty msg) && all (λ c. not (is_line_end c)) msg)
    then some msg
    else none

-- The groups of GO_ERR_RE.
pub record CompilerError : Type 0 where
  pub file : Text
  pub line : Text
  pub column : Text
  pub msg : Text

-- `:(\d+):(\d+):\s(.+)$`, after a file name
unfoldable pub after_file : Text → Text → Option CompilerError
unfolding expect number message
after_file file s = do
  s₁ ← expect b':' s
  (line, s₂) ← number s₁
  s₃ ← expect b':' s₂
  (column, s₄) ← number s₃
  s₅ ← expect b':' s₄
  msg ← message s₅
  some (record { file = file; line = line; column = column; msg = msg })

-- `\.go` and the rest
unfoldable pub at_extension : Text → Option CompilerError
unfolding starts_with after_file utf16
at_extension s = if starts_with s (utf16 ".go") then after_file (utf16 ".go") (drop 3 s) else none

unfoldable pub in_file : ℕ → CompilerError → CompilerError
in_file c e = record e { file = c ∷ e.file }

-- `text.match(GO_ERR_RE)`: `.*` takes as much as it can.
unfoldable pub match_error : Text → Option CompilerError
unfolding is_line_end at_extension in_file
match_error [] = none
match_error (c ∷ s) =
    let later = match_error s in
    if is_line_end c
    then at_extension (c ∷ s)
    else (elim later [ some e ↦ some (in_file c e) | none ↦ at_extension (c ∷ s) ])

unfoldable pub starts_with_digit : Text → Bool
unfolding is_digit
starts_with_digit [] = false
starts_with_digit (c ∷ s) = is_digit c

-- `\S*\.go:\d+`, at the start of the text
unfoldable pub file_reference : Text → Bool
unfolding starts_with starts_with_digit is_space utf16
file_reference [] = false
file_reference (c ∷ s) =
    (starts_with (c ∷ s) (utf16 ".go:") && starts_with_digit (drop 4 (c ∷ s)))
    || (not (is_space c) && file_reference s)

-- `\S+\.go:\d+`; the text is what follows the white space.
unfoldable pub source_line : Text → Bool
unfolding file_reference is_space
source_line [] = false
source_line (c ∷ s) = not (is_space c) && file_reference s

unfoldable pub indented : Text → Bool
unfolding is_space
indented [] = false
indented (c ∷ s) = is_space c

-- `/^goroutine \d+/` or `/^\s+\S+\.go:\d+/`
unfoldable pub is_trace : Text → Bool
unfolding starts_with starts_with_digit source_line indented trim_start utf16
is_trace s =
    (starts_with s (utf16 "goroutine ") && starts_with_digit (drop 10 s))
    || (indented s && source_line (trim_start s))

-- The class of a line, with what `OutputLine` shows of it.
pub data Shown : Type 0 where
  meta section panic trace : Text → Shown
  compiler_error : CompilerError → Shown
  plain : String → Text → Shown

unfoldable pub output_text : String → Text → Shown
unfolding starts_with is_trace utf16
output_text kind s =
    if starts_with s (utf16 "panic:") || starts_with s (utf16 "runtime error:")
    then panic s
    else (if is_trace s then trace s else plain kind s)

unfoldable pub output_error : String → Text → Option CompilerError → Shown
unfolding output_text
output_error kind s (some e) = compiler_error e
output_error kind s none = output_text kind s

unfoldable pub output_line : Line → Shown
unfolding starts_with match_error output_error utf16
output_line l =
    if str_eq l.kind "meta"
    then meta l.text
    else (if starts_with l.text (utf16 "#")
        then section l.text
        else output_error l.kind l.text (if str_eq l.kind "err" then match_error l.text else none))
