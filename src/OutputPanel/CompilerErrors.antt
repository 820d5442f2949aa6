-- ===== src/OutputPanel/CompilerErrors.antt =====
-- What GO_ERR_RE finds in a line of output.
use collaborative_ide.Ide.{is_empty}
use collaborative_ide.Landing.{is_space}
use collaborative_ide.OutputPanel.{
  CompilerError, number, message, expect, digits, is_digit, is_line_end, after_file, starts_with,
  at_extension, match_error, in_file,
}
use mathlib.Core.Path.{subst}
use collaborative_ide.Prelude.{
  [], true, false, some, refl, inl, inr, Text, all, ℕ, ◌≢◌, All, ◌≡◌, ◌++◌, not, ◌∷◌, utf16,
  Bool-cases, arith, ap, ◌∙◌, ◌↔◌, some_inj, drop, length, Option-cases, ◌+◌, ◌≤◌, length-append,
  append_assoc, bind_inv,
}

abbrev pub IsDigits : Text → Type 0
IsDigits s = (s ≢ []) × All (λ c. is_digit c ≡ true) s

abbrev pub IsOneLine : Text → Type 0
IsOneLine = All (λ c. is_line_end c ≡ false)

-- The text after the file name: a line, a column and a message, with colons and one unit of white
-- space between them.
pub record IsLocated (e : CompilerError) (s : Text) : Type 0 where
  pub line : IsDigits e.line
  pub column : IsDigits e.column
  pub white : ℕ
  pub space : is_space white ≡ true
  pub msg : (e.msg ≢ []) × IsOneLine e.msg
  pub text : s ≡ b':' ∷ (e.line ++ b':' ∷ (e.column ++ b':' ∷ (white ∷ e.msg)))

-- The text is such an error: a file name on one line with the extension `.go`, and its location.
pub record IsError (e : CompilerError) (s : Text) : Type 0 where
  pub stem : Text
  pub one_line : IsOneLine stem
  pub file : e.file ≡ stem ++ utf16 ".go"
  pub rest : Text
  pub text : s ≡ e.file ++ rest
  pub located : IsLocated e rest

expect_inv : (c : ℕ) (s t : Text) → expect c s ≡ some t → s ≡ c ∷ t
unfolding expect
expect_inv c [] t h = absurd (cc h)
expect_inv c (x ∷ s) t h = ground arith

digits_lem :
    (s : Text) → (s ≡ (digits s).0 ++ (digits s).1) × All (λ c. is_digit c ≡ true) (digits s).0
unfolding digits
digits_lem [] = (refl, tt)
digits_lem (c ∷ s) = elim (Bool-cases (is_digit c)) [
  | inl e ↦ rw e (ap (c ∷◌) (digits_lem s).0, (e, (digits_lem s).1))
  | inr e ↦ rw e (refl, tt)
]

digits-append :
    (run rest : Text)
    → All (λ c. is_digit c ≡ true) run
    → digits (run ++ b':' ∷ rest) ≡ (run, b':' ∷ rest)
unfolding digits
digits-append [] rest h = unfold is_digit in refl
digits-append (c ∷ run) rest (h, hs) = rw (digits-append run rest hs, h)

is_empty-ne : (s : Text) → is_empty s ≡ false → s ≢ []
is_empty-ne [] h = absurd (cc h)
is_empty-ne (c ∷ s) h = λ e. cc

is_empty-of_ne : (s : Text) → s ≢ [] → is_empty s ≡ false
is_empty-of_ne [] h = absurd (h refl)
is_empty-of_ne (c ∷ s) h = refl

number_inv : (s run rest : Text) → number s ≡ some (run, rest) → (s ≡ run ++ rest) × IsDigits run
unfolding number
number_inv s run rest h = elim (Bool-cases (is_empty (digits s).0)) [
  | inl e ↦ absurd (cc (rw (number, e) at h))
  | inr e ↦
      let found : (digits s).0 ≡ run = cc (rw (number, e) at h) in
      let left : (digits s).1 ≡ rest = cc (rw (number, e) at h) in
      (
        (digits_lem s).0 ∙ rw (found, left),
        (
          λ n. is_empty-ne (digits s).0 e (found ∙ n),
          subst (All (λ c. is_digit c ≡ true)) found (digits_lem s).1,
        ),
      )
]

number-append :
    (run rest : Text) → IsDigits run → number (run ++ b':' ∷ rest) ≡ some (run, b':' ∷ rest)
unfolding number
number-append run rest (ne, h) = rw (number, digits-append run rest h, is_empty-of_ne run ne)

all-IsOneLine : (s : Text) → (all (λ c. not (is_line_end c)) s ≡ true) ↔ IsOneLine s
unfolding all
all-IsOneLine [] = (λ _. tt, λ _. refl)
all-IsOneLine (c ∷ s) = (λ h. ground (arith, all-IsOneLine s), λ h. ground (arith, all-IsOneLine s))

message_inv :
    (s msg : Text)
    → message s ≡ some msg
    → (w : ℕ) × (is_space w ≡ true) × (s ≡ w ∷ msg) × (msg ≢ []) × IsOneLine msg
unfolding message
message_inv [] msg h = absurd (cc h)
message_inv (w ∷ s) msg h = (
  w,
  ground arith,
  ground arith,
  ground (arith, is_empty-ne msg),
  ground (arith, all-IsOneLine msg),
)

message-cons :
    (w : ℕ) (msg : Text)
    → is_space w ≡ true
    → msg ≢ []
    → IsOneLine msg
    → message (w ∷ msg) ≡ some msg
unfolding message
message-cons w msg h ne one = rw (h, is_empty-of_ne msg ne, (all-IsOneLine msg).1 one)

join_parts :
    (line column msg : Text) (w : ℕ) (s s₁ s₂ s₃ s₄ s₅ : Text)
    → s ≡ b':' ∷ s₁
    → s₁ ≡ line ++ s₂
    → s₂ ≡ b':' ∷ s₃
    → s₃ ≡ column ++ s₄
    → s₄ ≡ b':' ∷ s₅
    → s₅ ≡ w ∷ msg
    → s ≡ b':' ∷ (line ++ b':' ∷ (column ++ b':' ∷ (w ∷ msg)))
join_parts line column msg w s s₁ s₂ s₃ s₄ s₅ e₀ e₁ e₂ e₃ e₄ e₅ = cc

after_file_sound :
    (file s : Text) (e : CompilerError)
    → after_file file s ≡ some e
    → (e.file ≡ file) × IsLocated e s
unfolding after_file
after_file_sound file s e h =
    let (s₁, h₁, k₁) = bind_inv (expect b':' s) _ e h in
    let ((line, s₂), h₂, k₂) = bind_inv (number s₁) _ e k₁ in
    let (s₃, h₃, k₃) = bind_inv (expect b':' s₂) _ e k₂ in
    let ((column, s₄), h₄, k₄) = bind_inv (number s₃) _ e k₃ in
    let (s₅, h₅, k₅) = bind_inv (expect b':' s₄) _ e k₄ in
    let (msg, h₆, k₆) = bind_inv (message s₅) _ e k₅ in
    let (w, space, e₅, msg_ne, msg_line) = message_inv s₅ msg h₆ in
    let (e₃, column_ok) = number_inv s₃ column s₄ h₄ in
    let (e₁, line_ok) = number_inv s₁ line s₂ h₂ in
    let e₀ = expect_inv b':' s s₁ h₁ in
    let e₂ = expect_inv b':' s₂ s₃ h₃ in
    let e₄ = expect_inv b':' s₄ s₅ h₅ in
    subst (λ e'. (e'.file ≡ file) × IsLocated e' s) (some_inj _ e k₆)
      (
        refl,
        record {
          line = line_ok;
          column = column_ok;
          white = w;
          space = space;
          msg = (msg_ne, msg_line);
          text = join_parts line column msg w s s₁ s₂ s₃ s₄ s₅ e₀ e₁ e₂ e₃ e₄ e₅;
        },
      )

after_file_complete :
    (file s : Text) (e : CompilerError)
    → IsLocated e s
    → after_file file s ≡ some (record e { file = file })
unfolding after_file
after_file_complete file s e h = rw (
  h.text,
  number-append e.line (e.column ++ b':' ∷ (h.white ∷ e.msg)) h.line,
  number-append e.column (h.white ∷ e.msg) h.column,
  message-cons h.white e.msg h.space h.msg.0 h.msg.1,
)

starts_with_lem : (s p : Text) → starts_with s p ≡ true → s ≡ p ++ drop (length p) s
unfolding starts_with
starts_with_lem s [] h = refl
starts_with_lem [] (c ∷ p) h = absurd (cc h)
starts_with_lem (x ∷ s) (c ∷ p) h = ground (arith, starts_with_lem s p)

at_extension_sound :
    (s : Text) (e : CompilerError)
    → at_extension s ≡ some e
    → (e.file ≡ utf16 ".go") × (s ≡ utf16 ".go" ++ drop 3 s) × IsLocated e (drop 3 s)
unfolding at_extension
at_extension_sound s e h = elim (Bool-cases (starts_with s (utf16 ".go"))) [
  | inl f ↦
      let (file, located) =
        after_file_sound (utf16 ".go") (drop 3 s) e (rw (at_extension, f) at h) in
      (file, unfold utf16 in starts_with_lem s (utf16 ".go") f, located)
  | inr f ↦ absurd (cc (rw (at_extension, f) at h))
]

-- What GO_ERR_RE finds is a reading of the whole text as an error of the compiler.
pub match_error_sound : (s : Text) (e : CompilerError) → match_error s ≡ some e → IsError e s
unfolding match_error in_file
match_error_sound [] e h = absurd (cc h)
match_error_sound (c ∷ s) e h = elim (Bool-cases (is_line_end c)) [
  | inl end ↦ here (rw (match_error, end) at h)
  | inr inside ↦ elim (Option-cases (match_error s)) [
    | inl no_later ↦ here (rw (match_error, inside, no_later) at h)
    | inr (e', later) ↦
        rw⁻¹ (some_inj (in_file c e') e (rw (match_error, inside, later) at h))
          (longer e' inside (match_error_sound s e' later))
  ]
]
  where
    here : at_extension (c ∷ s) ≡ some e → IsError e (c ∷ s)
    here found =
        let (file, split, located) = at_extension_sound (c ∷ s) e found in
        record {
          stem = [];
          one_line = tt;
          file = file;
          rest = drop 3 (c ∷ s);
          text = rw file split;
          located = located;
        }

    longer :
        (e' : CompilerError) → is_line_end c ≡ false → IsError e' s → IsError (in_file c e') (c ∷ s)
    longer e' inside k = record {
      stem = c ∷ k.stem;
      one_line = (inside, k.one_line);
      file = ap (c ∷◌) k.file;
      rest = k.rest;
      text = ap (c ∷◌) k.text;
      located = record {
        line = k.located.line;
        column = k.located.column;
        white = k.located.white;
        space = k.located.space;
        msg = k.located.msg;
        text = k.located.text;
      };
    }

IsError-length : (e : CompilerError) (s : Text) → IsError e s → 3 ≤ length e.file
unfolding utf16
IsError-length e s k = omega (arith, ap length k.file, length-append k.stem (utf16 ".go"))

match_error_stem :
    (stem rest : Text) (e : CompilerError)
    → IsOneLine stem
    → IsLocated e rest
    → (e' : CompilerError) × (match_error (stem ++ (utf16 ".go" ++ rest)) ≡ some e')
      × (length stem + 3 ≤ length e'.file)
unfolding match_error in_file at_extension starts_with is_line_end utf16
match_error_stem [] rest e one h = elim (Option-cases (match_error (b'g' ∷ b'o' ∷ rest))) [
  | inl none_later ↦ (
    record e { file = utf16 ".go" },
    rw (match_error, none_later, after_file_complete (utf16 ".go") rest e h),
    omega arith,
  )
  | inr (e', later) ↦ (
    in_file b'.' e',
    rw later,
    omega (arith, IsError-length e' (b'g' ∷ b'o' ∷ rest) (match_error_sound _ e' later)),
  )
]
match_error_stem (c ∷ stem) rest e (inside, one) h =
    let (e', later, longer) = match_error_stem stem rest e one h in
    (in_file c e', rw (inside, later), omega arith)

-- A text that can be read as an error is found to be one, and the file name that is found is the
-- longest of all readings.
pub match_error_complete :
    (s : Text) (e : CompilerError)
    → IsError e s
    → (e' : CompilerError) × (match_error s ≡ some e')
      × IsError e' s
      × (length e.file ≤ length e'.file)
unfolding utf16
match_error_complete s e k =
    let (e', found, longer) = match_error_stem k.stem k.rest e k.one_line k.located in
    let split : s ≡ k.stem ++ (utf16 ".go" ++ k.rest) =
      k.text ∙ (ap (λ t. t ++ k.rest) k.file ∙ append_assoc k.stem (utf16 ".go") k.rest) in
    let found' = ap match_error split ∙ found in
    (
      e',
      found',
      match_error_sound s e' found',
      omega (arith, ap length k.file, length-append k.stem (utf16 ".go")),
    )
