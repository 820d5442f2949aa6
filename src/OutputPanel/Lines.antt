-- ===== src/OutputPanel/Lines.antt =====
-- What is shown of a line of output.
use collaborative_ide.Client.{Line}
use collaborative_ide.OutputPanel.{
  meta, section, panic, trace, compiler_error, plain, Shown, output_line, output_text, output_error,
  CompilerError, match_error, starts_with, is_trace,
}
use collaborative_ide.OutputPanel.CompilerErrors.{IsError, match_error_sound}
use collaborative_ide.Prelude.{
  true, false, none, some, refl, inl, inr, ◌≡◌, Bool, Option, str_eq, if◌then◌else◌, eq_iff,
  Bool-cases, utf16, ◌||◌,
}

-- The line is shown whole, as its text or by the parts of an error.
pub data ShowsAll (l : Line) : Shown → Type 0 where
  as_meta : l.kind ≡ "meta" → ShowsAll l (meta l.text)
  as_section : ShowsAll l (section l.text)
  as_panic : ShowsAll l (panic l.text)
  as_trace : ShowsAll l (trace l.text)
  as_plain : ShowsAll l (plain l.kind l.text)
  as_error : (e : CompilerError) → l.kind ≡ "err" → IsError e l.text → ShowsAll l (compiler_error e)

if-ShowsAll :
    (l : Line) (b : Bool) {x y : Shown}
    → (b ≡ true → ShowsAll l x)
    → (b ≡ false → ShowsAll l y)
    → ShowsAll l (if b then x else y)
if-ShowsAll l true h k = h refl
if-ShowsAll l false h k = k refl

output_text-ShowsAll : (l : Line) → ShowsAll l (output_text l.kind l.text)
unfolding output_text
output_text-ShowsAll l =
    if-ShowsAll l
      (starts_with l.text (utf16 "panic:") || starts_with l.text (utf16 "runtime error:"))
      (λ _. as_panic) (λ _. if-ShowsAll l (is_trace l.text) (λ _. as_trace) (λ _. as_plain))

output_error-ShowsAll :
    (l : Line) (o : Option CompilerError)
    → ((e : CompilerError) → o ≡ some e → (l.kind ≡ "err") × IsError e l.text)
    → ShowsAll l (output_error l.kind l.text o)
unfolding output_error
output_error-ShowsAll l none k = output_text-ShowsAll l
output_error-ShowsAll l (some e) k = as_error e (k e refl).0 (k e refl).1

IsError-match_error :
    (l : Line) (e : CompilerError)
    → (if str_eq l.kind "err" then match_error l.text else none) ≡ some e
    → (l.kind ≡ "err") × IsError e l.text
IsError-match_error l e h = elim (Bool-cases (str_eq l.kind "err")) [
  | inl k ↦ ((eq_iff l.kind "err").0 k, match_error_sound l.text e (rw k at h))
  | inr k ↦ absurd (cc (rw k at h))
]

-- Whatever class a line is given, it is shown whole: as its text, or, if it is an error of the
-- compiler and of kind "err", as the file, the line, the column and the message it consists of.
pub output_line-ShowsAll : (l : Line) → ShowsAll l (output_line l)
unfolding output_line
output_line-ShowsAll l =
    if-ShowsAll l (str_eq l.kind "meta") (λ k. as_meta ((eq_iff l.kind "meta").0 k))
      (λ _.
        if-ShowsAll l (starts_with l.text (utf16 "#")) (λ _. as_section)
          (λ _.
            output_error-ShowsAll l (if str_eq l.kind "err" then match_error l.text else none)
              (IsError-match_error l)))
