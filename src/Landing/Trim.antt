-- ===== src/Landing/Trim.antt =====
-- What `trim` does, and what the requests of the landing page carry.
use mathlib.Core.Path.{subst}
use collaborative_ide.Landing.{
  handle_create, handle_join, join, join_code, Landing, create, trim_start, trim, is_space,
}
use mathlib.Core.List.{reverse, reverse-cons, reverse-append, reverse-reverse}
use collaborative_ide.Prelude.{
  [], refl, inl, inr, some, true, false, Text, All, ◌∷◌, ◌≡◌, ◌++◌, Bool-cases, All-append, sym,
  ◌≢◌, ap, ◌∙◌, ◌⊎◌, ℕ,
}

abbrev pub AllSpace : Text → Type 0
AllSpace = All (λ c. is_space c ≡ true)

-- The text is empty, or its first code unit is no white space.
abbrev pub StartsClean : Text → Type 0
StartsClean [] = Unit
StartsClean (c ∷ s) = is_space c ≡ false

-- No white space at either end.
abbrev pub IsTrimmed : Text → Type 0
IsTrimmed s = StartsClean s × StartsClean (reverse s)

trim_start_lem :
    (s : Text)
    → (lead : Text) × (s ≡ lead ++ trim_start s) × AllSpace lead × StartsClean (trim_start s)
unfolding trim_start
trim_start_lem [] = ([], refl, tt, tt)
trim_start_lem (c ∷ s) =
    let (lead, joined, spaces, clean) = trim_start_lem s in
    elim (Bool-cases (is_space c)) [
      | inl e ↦ rw e (c ∷ lead, ap (c ∷◌) joined, (e, spaces), clean)
      | inr e ↦ rw e ([], refl, tt, e)
    ]

AllSpace-reverse : (s : Text) → AllSpace s → AllSpace (reverse s)
AllSpace-reverse [] h = tt
AllSpace-reverse (c ∷ s) (h, hs) =
    rw (reverse-cons c s)
      (All-append (λ d. is_space d ≡ true) (reverse s) (c ∷ []) (AllSpace-reverse s hs) (h, tt))

StartsClean-prefix : (s t : Text) → StartsClean (s ++ t) → StartsClean s
StartsClean-prefix [] t h = tt
StartsClean-prefix (c ∷ s) t h = h

-- `trim` takes white space off both ends, all of it, and nothing else.
pub trim_lem :
    (s : Text)
    → (lead : Text) × (trail : Text) × (s ≡ lead ++ (trim s ++ trail))
      × AllSpace lead
      × AllSpace trail
      × IsTrimmed (trim s)
unfolding trim
trim_lem s =
    let (lead, joined, spaces, clean) = trim_start_lem s in
    let (back, joined', spaces', clean') = trim_start_lem (reverse (trim_start s)) in
    let u = trim_start (reverse (trim_start s)) in
    let split : trim_start s ≡ reverse u ++ reverse back =
      sym (reverse-reverse (trim_start s)) ∙ (ap reverse joined' ∙ reverse-append back u) in
    (
      lead,
      reverse back,
      joined ∙ ap (λ t. lead ++ t) split,
      spaces,
      AllSpace-reverse back spaces',
      (
        StartsClean-prefix (reverse u) (reverse back) (subst StartsClean split clean),
        subst StartsClean (sym (reverse-reverse u)) clean',
      ),
    )

IsTrimmed-trim : (s : Text) → IsTrimmed (trim s)
IsTrimmed-trim s = let (_, _, _, _, _, h) = trim_lem s in h

List-cases : (s : Text) → (s ≡ []) ⊎ ((c : ℕ) × (t : Text) × (s ≡ c ∷ t))
List-cases [] = inl refl
List-cases (c ∷ t) = inr (c, t, refl)

-- What a name or a code is: a text that is not empty and has no white space at either end.
abbrev pub IsName : Text → Type 0
IsName s = (s ≢ []) × IsTrimmed s

IsName-trim : (s : Text) (c : ℕ) (t : Text) → trim s ≡ c ∷ t → IsName (c ∷ t)
IsName-trim s c t e = ((λ f. cc), subst IsTrimmed e (IsTrimmed-trim s))

-- A request to create a session carries a name that is not empty and has no white space at either
-- end.
pub handle_create-IsName :
    (l : Landing) (name : Text) → (handle_create l).1 ≡ some (create name) → IsName name
unfolding handle_create
handle_create-IsName l name e = elim (List-cases (trim l.user_id)) [
  | inl none_left ↦ absurd (cc (rw (handle_create, none_left) at e))
  | inr (c, t, left) ↦
      let sent = rw (handle_create, left) at e in
      subst IsName (cc sent) (IsName-trim l.user_id c t left)
]

module _ (to_upper : Text → Text) where
  join_code-IsName :
      (l : Landing) (entered code name sent_name : Text)
      → (join_code to_upper l sent_name (trim entered)).1 ≡ some (join code name)
      → (name ≡ sent_name) × ((t : Text) × (code ≡ to_upper t) × IsName t)
  unfolding join_code
  join_code-IsName l entered code name sent_name e = elim (List-cases (trim entered)) [
    | inl none_left ↦ absurd (cc (rw (join_code, none_left) at e))
    | inr (c, t, left) ↦
        let sent = rw (join_code, left) at e in
        (cc sent, (c ∷ t, cc sent, IsName-trim entered c t left))
  ]

  -- A request to join a session carries such a name, and the upper case of such a code.
  pub handle_join-IsName :
      (l : Landing) (code name : Text)
      → (handle_join to_upper l).1 ≡ some (join code name)
      → IsName name × ((t : Text) × (code ≡ to_upper t) × IsName t)
  unfolding handle_join
  handle_join-IsName l code name e = elim (List-cases (trim l.user_id)) [
    | inl none_left ↦ absurd (cc (rw (handle_join, none_left) at e))
    | inr (c, t, left) ↦
        let (same, rest) =
          join_code-IsName l l.join_code code name (c ∷ t) (rw (handle_join, left) at e) in
        (subst IsName (sym same) (IsName-trim l.user_id c t left), rest)
  ]
