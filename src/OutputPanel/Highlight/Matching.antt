-- ===== src/OutputPanel/Highlight/Matching.antt =====
-- What the alternatives of KEYWORD_RE match.
use collaborative_ide.OutputPanel.Highlight.{take_keyword, fold_case, first_keyword}
use collaborative_ide.Prelude.{
  refl, [], some, inl, inr, Text, map, ◌≡◌, ◌++◌, ◌∷◌, Bool-cases, ◌==◌, Option-cases, ==_iff, List,
  ◌⊎◌, none, some_inj, ◌≢◌, All, ◌∙◌, ◌<◌, ap, length, arith,
}

-- A text that is the keyword but for case.
abbrev pub SameLetters : Text → Text → Type 0
SameLetters k m = map fold_case k ≡ map fold_case m

-- What is taken is the start of the text.
pub take_keyword_lem :
    (k s m r : Text) → take_keyword k s ≡ some (m, r) → (s ≡ m ++ r) × SameLetters k m
unfolding take_keyword
take_keyword_lem [] s m r h = (cc h, cc h)
take_keyword_lem (k ∷ ks) [] m r h = absurd (cc h)
take_keyword_lem (k ∷ ks) (c ∷ s) m r h = elim (Bool-cases (fold_case k == fold_case c)) [
  | inr e ↦ absurd (cc (rw (take_keyword, e) at h))
  | inl e ↦ elim (Option-cases (take_keyword ks s)) [
    | inl f ↦ absurd (cc (rw (take_keyword, e, f) at h))
    | inr ((m', r'), f) ↦
        let (split, same) = take_keyword_lem ks s m' r' f in
        let h' : some (c ∷ m', r') ≡ some (m, r) = rw (take_keyword, e, f) at h in
        (cc (split, h'), cc (same, h', (==_iff (fold_case k) (fold_case c)).0 e))
  ]
]

-- More text at the end changes nothing of a match.
pub take_keyword-append :
    (k s t m r : Text) → take_keyword k s ≡ some (m, r) → take_keyword k (s ++ t) ≡ some (m, r ++ t)
unfolding take_keyword
take_keyword-append [] s t m r h = cc h
take_keyword-append (k ∷ ks) [] t m r h = absurd (cc h)
take_keyword-append (k ∷ ks) (c ∷ s) t m r h = elim (Bool-cases (fold_case k == fold_case c)) [
  | inr e ↦ absurd (cc (rw (take_keyword, e) at h))
  | inl e ↦ elim (Option-cases (take_keyword ks s)) [
    | inl f ↦ absurd (cc (rw (take_keyword, e, f) at h))
    | inr ((m', r'), f) ↦
        let h' : some (c ∷ m', r') ≡ some (m, r) = rw (take_keyword, e, f) at h in
        rw (e, take_keyword-append ks s t m' r' f) (cc h')
  ]
]

-- The match alone is matched, up to its end.
pub take_keyword_self :
    (k s m r : Text) → take_keyword k s ≡ some (m, r) → take_keyword k m ≡ some (m, [])
unfolding take_keyword
take_keyword_self [] s m r h = cc h
take_keyword_self (k ∷ ks) [] m r h = absurd (cc h)
take_keyword_self (k ∷ ks) (c ∷ s) m r h = elim (Bool-cases (fold_case k == fold_case c)) [
  | inr e ↦ absurd (cc (rw (take_keyword, e) at h))
  | inl e ↦ elim (Option-cases (take_keyword ks s)) [
    | inl f ↦ absurd (cc (rw (take_keyword, e, f) at h))
    | inr ((m', r'), f) ↦
        let h' : some (c ∷ m', r') ≡ some (m, r) = rw (take_keyword, e, f) at h in
        let same : c ∷ m' ≡ m = cc h' in rw⁻¹ same (rw (e, take_keyword_self ks s m' r' f))
  ]
]

-- A text with the letters of the keyword is taken, whatever follows it.
take_keyword-same : (k m y : Text) → SameLetters k m → take_keyword k (m ++ y) ≡ some (m, y)
unfolding take_keyword
take_keyword-same [] [] y h = refl
take_keyword-same [] (c ∷ m) y h = absurd (cc h)
take_keyword-same (k ∷ ks) [] y h = absurd (cc h)
take_keyword-same (k ∷ ks) (c ∷ m) y h =
    let head : fold_case k ≡ fold_case c = cc h in
    let tail : SameLetters ks m = cc h in
    rw ((==_iff (fold_case k) (fold_case c)).1 head, take_keyword-same ks m y tail)

-- One of the keywords, but for case.
abbrev pub IsOneOf : List Text → Text → Type 0
IsOneOf [] m = ⊥
IsOneOf (k ∷ ks) m = SameLetters k m ⊎ IsOneOf ks m

module _ (s t : Text) where
  pub first_keyword-prefix :
      (ks : List Text) → first_keyword ks (s ++ t) ≡ none → first_keyword ks s ≡ none
  unfolding first_keyword
  first_keyword-prefix [] h = refl
  first_keyword-prefix (k ∷ ks) h = elim (Option-cases (take_keyword k s)) [
    | inr ((m, r), f) ↦ absurd (cc (rw (first_keyword, take_keyword-append k s t m r f) at h))
    | inl f ↦ elim (Option-cases (take_keyword k (s ++ t))) [
      | inr (x, g) ↦ absurd (cc (rw (first_keyword, g) at h))
      | inl g ↦ rw (first_keyword, f) (first_keyword-prefix ks (rw (first_keyword, g) at h))
    ]
  ]

pub first_keyword_lem :
    (ks : List Text) (s m r : Text) → first_keyword ks s ≡ some (m, r) → (s ≡ m ++ r) × IsOneOf ks m
unfolding first_keyword
first_keyword_lem [] s m r h = absurd (cc h)
first_keyword_lem (k ∷ ks) s m r h = elim (Option-cases (take_keyword k s)) [
  | inl f ↦
      let (split, one) = first_keyword_lem ks s m r (rw (first_keyword, f) at h) in (split, inr one)
  | inr (x, f) ↦
      let found : x ≡ (m, r) = some_inj x (m, r) (rw (first_keyword, f) at h) in
      let (split, same) = take_keyword_lem k s m r (f ∙ ap some found) in (split, inl same)
]

-- What matched in a text matches alone.
pub first_keyword_self :
    (ks : List Text) (s m r : Text)
    → first_keyword ks s ≡ some (m, r)
    → first_keyword ks m ≡ some (m, [])
unfolding first_keyword
first_keyword_self [] s m r h = absurd (cc h)
first_keyword_self (k ∷ ks) s m r h = elim (Option-cases (take_keyword k s)) [
  | inr (x, f) ↦
      let found : x ≡ (m, r) = some_inj x (m, r) (rw (first_keyword, f) at h) in
      rw (first_keyword, take_keyword_self k s m r (f ∙ ap some found))
  | inl f ↦
      let h' = rw (first_keyword, f) at h in
      let (split, one) = first_keyword_lem ks s m r h' in
      elim (Option-cases (take_keyword k m)) [
        | inl g ↦ rw (first_keyword, g) (first_keyword_self ks s m r h')
        | inr ((m', r'), g) ↦ absurd (cc (f, split, take_keyword-append k m r m' r' g))
      ]
]

-- A text with the letters of a keyword is matched, by that keyword or by an earlier one.
pub first_keyword-IsOneOf :
    (ks : List Text) (m y : Text) → IsOneOf ks m → first_keyword ks (m ++ y) ≢ none
unfolding first_keyword
first_keyword-IsOneOf [] m y h = elim h [ ]
first_keyword-IsOneOf (k ∷ ks) m y (inl same) =
    λ e. cc (rw (first_keyword, take_keyword-same k m y same) at e)
first_keyword-IsOneOf (k ∷ ks) m y (inr one) = λ e. elim (Option-cases (take_keyword k (m ++ y))) [
  | inl f ↦ first_keyword-IsOneOf ks m y one (rw (first_keyword, f) at e)
  | inr (x, f) ↦ cc (rw (first_keyword, f) at e)
]

-- A keyword is not empty, and neither is a match.
pub IsOneOf-length :
    (ks : List Text) (m : Text) → All (λ k. 0 < length k) ks → IsOneOf ks m → 0 < length m
IsOneOf-length [] m h one = elim one [ ]
IsOneOf-length (k ∷ ks) [] (h, hs) (inl same) = absurd (nonempty k h same)
  where
    nonempty : (k : Text) → 0 < length k → SameLetters k [] → ⊥
    nonempty [] h e = omega arith
    nonempty (c ∷ k) h e = cc e
IsOneOf-length (k ∷ ks) (c ∷ m) h (inl same) = omega arith
IsOneOf-length (k ∷ ks) m (h, hs) (inr one) = IsOneOf-length ks m hs one
