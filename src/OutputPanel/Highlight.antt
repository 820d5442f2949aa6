-- ===== src/OutputPanel/Highlight.antt =====
-- components/OutputPanel.jsx: the keywords that are marked in the message of a compiler's error.
-- KEYWORD_RE has the flags `g` and `i`: `test` starts at its `lastIndex` and leaves there the end of
-- the match, or 0. Under `i` two units are compared by their upper case; of the units that are not
-- ASCII, none has an ASCII upper case there.
pub mod Matching
pub mod Marks
use collaborative_ide.Prelude.{
  ◌>>=◌, [], true, false, none, some, zero, suc, utf16, ℕ, Text, List, ◌∷◌, if◌then◌else◌, Option,
  Bool, leb, ◌==◌, ◌+◌, ltb, ◌&&◌, length, ◌-◌, drop,
}

-- ERR_KEYWORDS
unfoldable pub keywords : List Text
unfolding utf16
keywords =
    utf16 "undefined"
    ∷ utf16 "undeclared"
    ∷ utf16 "syntax error"
    ∷ utf16 "unexpected"
    ∷ utf16 "cannot use"
    ∷ utf16 "cannot convert"
    ∷ utf16 "cannot assign"
    ∷ utf16 "declared and not used"
    ∷ utf16 "imported and not used"
    ∷ utf16 "not enough arguments"
    ∷ utf16 "too many arguments"
    ∷ utf16 "duplicate"
    ∷ utf16 "invalid"
    ∷ utf16 "mismatched"
    ∷ utf16 "incompatible"
    ∷ utf16 "does not implement"
    ∷ utf16 "no field or method"
    ∷ []

-- The upper case of an ASCII letter.
unfoldable pub fold_case : ℕ → ℕ
fold_case c = if leb b'a' c && leb c b'z' then c - 32 else c

-- The start of the text that is the keyword but for case, and what follows it.
unfoldable pub take_keyword : Text → Text → Option (Text × Text)
unfolding fold_case
take_keyword [] s = some ([], s)
take_keyword (k ∷ ks) [] = none
take_keyword (k ∷ ks) (c ∷ s) =
    let rest = take_keyword ks s in
    if fold_case k == fold_case c then (do (m, r) ← rest; some (c ∷ m, r)) else none

-- The first alternative of KEYWORD_RE that matches at the start of the text.
unfoldable pub first_keyword : List Text → Text → Option (Text × Text)
unfolding take_keyword
first_keyword [] s = none
first_keyword (k ∷ ks) s = elim (take_keyword k s) [ some m ↦ some m | none ↦ first_keyword ks s ]

unfoldable pub keyword_at : Text → Option (Text × Text)
unfolding first_keyword keywords
keyword_at s = first_keyword keywords s

-- `msg.split(KEYWORD_RE)`: the text before the first match, then each match with the text after it.
-- Without fuel there is no result.
unfoldable pub split_keywords : ℕ → Text → Option (Text × List (Text × Text))
unfolding keyword_at
split_keywords fuel [] = some ([], [])
split_keywords zero (c ∷ s) = none
split_keywords (suc fuel) (c ∷ s) = elim (keyword_at (c ∷ s)) [
  | none ↦ do (before, parts) ← split_keywords fuel s; some (c ∷ before, parts)
  | some (m, rest) ↦ do (after, parts) ← split_keywords fuel rest; some ([], (m, after) ∷ parts)
]

-- The array that `split` returns.
unfoldable pub flatten : Text × List (Text × Text) → List Text
flatten (before, []) = before ∷ []
flatten (before, (m, after) ∷ parts) = before ∷ m ∷ flatten (after, parts)

-- The end of the first match in a text that starts at the index.
unfoldable pub find_keyword : ℕ → Text → Option ℕ
unfolding keyword_at
find_keyword i [] = none
find_keyword i (c ∷ s) = elim (keyword_at (c ∷ s)) [
  | some (m, rest) ↦ some (i + length m)
  | none ↦ find_keyword (i + 1) s
]

-- `KEYWORD_RE.test(part)`, with the `lastIndex` before and after.
unfoldable pub test_keyword : ℕ → Text → Bool × ℕ
unfolding find_keyword
test_keyword last part =
    if ltb (length part) last
    then (false, 0)
    else (elim (find_keyword last (drop last part)) [ some end ↦ (true, end) | none ↦ (false, 0) ])

-- Each part with whether it is marked, and the `lastIndex` that is left.
unfoldable pub mark_parts : ℕ → List Text → List (Bool × Text) × ℕ
unfolding test_keyword
mark_parts last [] = ([], last)
mark_parts last (part ∷ parts) =
    let (marked, next) = test_keyword last part in
    let (rest, end) = mark_parts next parts in ((marked, part) ∷ rest, end)

-- `highlightErrMsg`, with the `lastIndex` that the last call left.
unfoldable pub highlight_err_msg : ℕ → Text → Option (List (Bool × Text) × ℕ)
unfolding split_keywords flatten mark_parts
highlight_err_msg last msg = do
  parts ← split_keywords (length msg) msg
  some (mark_parts last (flatten parts))
