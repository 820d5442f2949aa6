-- ===== src/OutputPanel/Highlight/Marks.antt =====
-- Which parts of a message are marked: the keywords, and nothing else.
use collaborative_ide.OutputPanel.Highlight.{
  keywords, keyword_at, split_keywords, find_keyword, test_keyword, mark_parts, highlight_err_msg,
  flatten,
}
use collaborative_ide.OutputPanel.Highlight.Matching.{
  IsOneOf, first_keyword-prefix, first_keyword_lem, first_keyword_self, first_keyword-IsOneOf,
  IsOneOf-length,
}
use collaborative_ide.Prelude.{
  [], true, false, none, some, refl, inl, inr, zero, suc, Text, utf16, ℕ, Bool, List, ◌≡◌, ◌∷◌, All,
  ◌<◌, arith, length, drop, ◌++◌, ap, ◌≤◌, ◌+◌, Bool-cases, append-nil, ◌∙◌, sym, Option-cases, ltb,
  length-append,
}

-- One of ERR_KEYWORDS but for case.
abbrev pub IsKeyword : Text → Type 0
IsKeyword = IsOneOf keywords

-- No keyword stands inside the text.
abbrev pub HasNoKeyword : Text → Type 0
HasNoKeyword s = (x m y : Text) → s ≡ x ++ (m ++ y) → IsKeyword m → ⊥

-- KEYWORD_RE matches at no place of the text.
abbrev pub IsClean : Text → Type 0
IsClean [] = Unit
IsClean (c ∷ s) = (keyword_at (c ∷ s) ≡ none) × IsClean s

keywords-length : All (λ k. 0 < length k) keywords
unfolding keywords utf16
keywords-length = omega arith

IsKeyword-length : (m : Text) → IsKeyword m → 0 < length m
IsKeyword-length m = IsOneOf-length keywords m keywords-length

IsClean-HasNoKeyword : (s : Text) → IsClean s → HasNoKeyword s
unfolding keyword_at
IsClean-HasNoKeyword [] h [] [] y e one = absurd (omega (arith, IsKeyword-length [] one))
IsClean-HasNoKeyword [] h (c ∷ x) m y e one = cc e
IsClean-HasNoKeyword [] h [] (c ∷ m) y e one = cc e
IsClean-HasNoKeyword (c ∷ s) (none_here, h) [] m y e one =
    first_keyword-IsOneOf keywords m y one (ap keyword_at (sym e) ∙ none_here)
IsClean-HasNoKeyword (c ∷ s) (none_here, h) (d ∷ x) m y e one =
    IsClean-HasNoKeyword s h x m y (cc e) one

-- The text that was split, and what holds of its parts.
abbrev pub joined : Text → List (Text × Text) → Text
joined before [] = before
joined before ((m, after) ∷ parts) = before ++ (m ++ joined after parts)

abbrev IsSplit : Text → List (Text × Text) → Type 0
IsSplit before [] = IsClean before
IsSplit before ((m, after) ∷ parts) =
    IsClean before × (keyword_at m ≡ some (m, [])) × IsKeyword m × IsSplit after parts

IsSplit-cons :
    (c : ℕ) (before : Text) (parts : List (Text × Text))
    → keyword_at (c ∷ joined before parts) ≡ none
    → IsSplit before parts
    → IsSplit (c ∷ before) parts
unfolding keyword_at
IsSplit-cons c before [] none_here h = (none_here, h)
IsSplit-cons c before ((m, after) ∷ parts) none_here (h, found, one, hs) = (
  (first_keyword-prefix (c ∷ before) (m ++ joined after parts) keywords none_here, h),
  found,
  one,
  hs,
)

joined-cons :
    (c : ℕ) (before : Text) (parts : List (Text × Text))
    → joined (c ∷ before) parts ≡ c ∷ joined before parts
joined-cons c before [] = refl
joined-cons c before (p ∷ parts) = refl

-- The loop of `split` ends with as much fuel as the text has units.
split_keywords_total :
    (fuel : ℕ) (s : Text)
    → length s ≤ fuel
    → (before : Text) × (parts : List (Text × Text)) × (split_keywords fuel s
        ≡ some (before, parts))
      × (joined before parts ≡ s)
      × IsSplit before parts
unfolding split_keywords keyword_at
split_keywords_total fuel [] h = ([], [], refl, refl, tt)
split_keywords_total zero (c ∷ s) h = absurd (omega arith)
split_keywords_total (suc fuel) (c ∷ s) h = elim (Option-cases (keyword_at (c ∷ s))) [
  | inl none_here ↦
      let (before, parts, run, whole, good) = split_keywords_total fuel s (omega arith) in
      (
        c ∷ before,
        parts,
        rw (split_keywords, none_here, run),
        joined-cons c before parts ∙ ap (c ∷◌) whole,
        IsSplit-cons c before parts (ap (λ t. keyword_at (c ∷ t)) whole ∙ none_here) good,
      )
  | inr ((m, rest), found) ↦
      let (split, one) = first_keyword_lem keywords (c ∷ s) m rest found in
      let (after, parts, run, whole, good) =
        split_keywords_total fuel rest
          (omega (arith, ap length split, length-append m rest, IsKeyword-length m one)) in
      (
        [],
        (m, after) ∷ parts,
        rw (split_keywords, found, run),
        ap (m ++◌) whole ∙ sym split,
        (tt, first_keyword_self keywords (c ∷ s) m rest found, one, good),
      )
]

-- The marks of the parts in turn: a text, a keyword, a text.
abbrev alternate : Text → List (Text × Text) → List (Bool × Text)
alternate before [] = (false, before) ∷ []
alternate before ((m, after) ∷ parts) = (false, before) ∷ (true, m) ∷ alternate after parts

find_keyword-IsClean : (i : ℕ) (s : Text) → IsClean s → find_keyword i s ≡ none
unfolding find_keyword
find_keyword-IsClean i [] h = refl
find_keyword-IsClean i (c ∷ s) (none_here, h) =
    rw (find_keyword, none_here) (find_keyword-IsClean (i + 1) s h)

IsClean-drop : (n : ℕ) (s : Text) → IsClean s → IsClean (drop n s)
IsClean-drop zero s h = h
IsClean-drop (suc n) [] h = tt
IsClean-drop (suc n) (c ∷ s) (none_here, h) = IsClean-drop n s h

test_keyword-IsClean : (last : ℕ) (s : Text) → IsClean s → test_keyword last s ≡ (false, 0)
unfolding test_keyword
test_keyword-IsClean last s h = elim (Bool-cases (ltb (length s) last)) [
  | inl e ↦ rw e
  | inr e ↦ rw (e, find_keyword-IsClean last (drop last s) (IsClean-drop last s h))
]

not_below_zero : (n : ℕ) → ltb n 0 ≡ false
not_below_zero n = ground arith

zero_plus : (n : ℕ) → 0 + n ≡ n
zero_plus n = omega arith

test_keyword-match :
    (m : Text) → 0 < length m → keyword_at m ≡ some (m, []) → test_keyword 0 m ≡ (true, length m)
unfolding test_keyword find_keyword
test_keyword-match [] h e = absurd (omega arith)
test_keyword-match (c ∷ m) h e =
    rw (test_keyword, find_keyword, e, not_below_zero (length (c ∷ m)), zero_plus (length (c ∷ m)))

mark_parts-alternate :
    (last : ℕ) (before : Text) (parts : List (Text × Text))
    → IsSplit before parts
    → mark_parts last (flatten (before, parts)) ≡ (alternate before parts, 0)
unfolding mark_parts flatten
mark_parts-alternate last before [] h = rw (test_keyword-IsClean last before h)
mark_parts-alternate last before ((m, after) ∷ parts) (h, found, one, hs) = rw (
  test_keyword-IsClean last before h,
  test_keyword-match m (IsKeyword-length m one) found,
  mark_parts-alternate (length m) after parts hs,
)

-- What a part is that is marked, and one that is not.
abbrev pub IsMarkedRightly : Bool × Text → Type 0
IsMarkedRightly (true, m) = IsKeyword m
IsMarkedRightly (false, s) = HasNoKeyword s

abbrev pub concat_texts : List (Bool × Text) → Text
concat_texts [] = []
concat_texts ((_, s) ∷ parts) = s ++ concat_texts parts

alternate-IsMarkedRightly :
    (before : Text) (parts : List (Text × Text))
    → IsSplit before parts
    → All IsMarkedRightly (alternate before parts)
alternate-IsMarkedRightly before [] h = (IsClean-HasNoKeyword before h, tt)
alternate-IsMarkedRightly before ((m, after) ∷ parts) (h, found, one, hs) =
    (IsClean-HasNoKeyword before h, (one, alternate-IsMarkedRightly after parts hs))

concat_texts-alternate :
    (before : Text) (parts : List (Text × Text))
    → concat_texts (alternate before parts) ≡ joined before parts
concat_texts-alternate before [] = append-nil before
concat_texts-alternate before ((m, after) ∷ parts) =
    ap (λ t. before ++ (m ++ t)) (concat_texts-alternate after parts)

-- Whatever the last call left in `lastIndex`, marking a message ends, leaves 0 there, loses no unit
-- of the message, marks only keywords, and leaves no keyword in a part that it does not mark.
pub highlight_err_msg_lem :
    (last : ℕ) (msg : Text)
    → (parts : List (Bool × Text)) × (highlight_err_msg last msg ≡ some (parts, 0))
      × (concat_texts parts ≡ msg)
      × All IsMarkedRightly parts
unfolding highlight_err_msg
highlight_err_msg_lem last msg =
    let (before, parts, run, whole, good) = split_keywords_total (length msg) msg (omega arith) in
    (
      alternate before parts,
      rw (run, mark_parts-alternate last before parts good),
      concat_texts-alternate before parts ∙ whole,
      alternate-IsMarkedRightly before parts good,
    )
