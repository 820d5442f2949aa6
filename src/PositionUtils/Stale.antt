-- ===== src/PositionUtils/Stale.antt =====
-- When a proposal counts as stale.
use collaborative_ide.Prelude.{
  ◌≡◌, ◌≢◌, ◌↔◌, refl, true, Option, none, some, [], ◌∷◌, Text, truthy, slice, text_eq_refl,
  text_eq_iff, Option-cases, arith, inl, inr, false, ℕ, some_inj, bind_inv, bind_some, sym, ◌∙◌,
  map, ap, ◌>>=◌, ◌%◌, ◌^◌,
}
use collaborative_ide.Platform.{Platform}
use collaborative_ide.PositionUtils.{
  Proposal, Range, positions, resolve_range, is_modified, is_stale, from_base64,
}

-- The base64 text encodes a relative position, which is at that index of the document.
abbrev pub Denotes : (p : Platform) → p.Doc → Text → ℕ → Type 0
Denotes p d b64 i =
    (s : Text) × (p.atob b64 ≡ some s)
    × (r : p.Relative) × (p.decode (map (λ c. c % 2 ^ 8) s) ≡ some r)
    × (p.absolute r d ≡ some i)

-- A proposal with both ends, as texts that are not empty.
pub record HasEnds (q : Proposal) (a b : Text) : Type 0 where
  pub start : q.rel_start ≡ some a
  pub start_set : a ≢ []
  pub stop : q.rel_end ≡ some b
  pub stop_set : b ≢ []

-- What the doc comment promises, for each proposal: a range of which an end is gone, or that holds
-- another text than the one recorded. A proposal without positions or without a recorded text is
-- exempt.
pub data IsOutdated (p : Platform) (q : Proposal) (d : p.Doc) : Type 0 where
  start_gone : (a b : Text) → HasEnds q a b → ((i : ℕ) → ¬ Denotes p d a i) → IsOutdated p q d
  stop_gone : (a b : Text) → HasEnds q a b → ((i : ℕ) → ¬ Denotes p d b i) → IsOutdated p q d
  rewritten :
      (a b : Text) (i j : ℕ) (original : Text)
      → HasEnds q a b
      → Denotes p d a i
      → Denotes p d b j
      → q.original_text ≡ some original
      → original ≢ []
      → slice (p.text d) i j ≢ original
      → IsOutdated p q d

truthy_inv : (o : Option Text) (t : Text) → truthy o ≡ some t → (o ≡ some t) × (t ≢ [])
truthy_inv none t e = absurd (cc e)
truthy_inv (some []) t e = absurd (cc e)
truthy_inv (some (c ∷ s)) t e = (e, λ f. cc (some_inj (c ∷ s) t e, f))

truthy_of_text : (t : Text) → t ≢ [] → truthy (some t) ≡ some t
truthy_of_text [] n = absurd (n refl)
truthy_of_text (c ∷ s) n = refl

HasEnds-positions : (q : Proposal) (a b : Text) → positions q ≡ some (a, b) → HasEnds q a b
unfolding positions
HasEnds-positions q a b e =
    let (x, ex, rest) = bind_inv (truthy q.rel_start) _ (a, b) e in
    let (y, ey, last) = bind_inv (truthy q.rel_end) _ (a, b) rest in
    let first : x ≡ a = ap (λ t. t.0) (some_inj (x, y) (a, b) last) in
    let second : y ≡ b = ap (λ t. t.1) (some_inj (x, y) (a, b) last) in
    let (start, start_set) = truthy_inv q.rel_start a (ex ∙ ap some first) in
    let (stop, stop_set) = truthy_inv q.rel_end b (ey ∙ ap some second) in
    record { start = start; start_set = start_set; stop = stop; stop_set = stop_set }

positions-HasEnds : (q : Proposal) (a b : Text) → HasEnds q a b → positions q ≡ some (a, b)
unfolding positions
positions-HasEnds q a b k =
    bind_some (truthy q.rel_start) _ a (ap truthy k.start ∙ truthy_of_text a k.start_set)
    ∙ bind_some (truthy q.rel_end) _ b (ap truthy k.stop ∙ truthy_of_text b k.stop_set)

-- Both ends, one after the other.
module _ {S R : Type 0} (f : S → Option R) (g : R → Option ℕ) where
  abbrev both : Option ℕ → Option ℕ → Option Range
  both o o' = do i ← o; j ← o'; some (record { start = i; stop = j })

  both_read :
      (y : Option R) (o : Option ℕ)
      → (y >>= λ r. o >>= λ i. g r >>= λ j. some (record { start = i; stop = j }))
        ≡ both o (y >>= g)
  both_read none none = refl
  both_read none (some i) = refl
  both_read (some r) none = refl
  both_read (some r) (some i) = refl

  both_decoded :
      (y : Option S) (o : Option ℕ)
      → (y >>= λ s. f s >>= λ r. o >>= λ i. g r >>= λ j. some (record { start = i; stop = j }))
        ≡ both o (y >>= λ s. f s >>= g)
  both_decoded none none = refl
  both_decoded none (some i) = refl
  both_decoded (some s) o = both_read (f s) o

  first_read :
      (x : Option R) (y : Option S)
      → (x >>= λ r. y >>= λ s'.
          f s' >>= λ r'. g r >>= λ i. g r' >>= λ j. some (record { start = i; stop = j }))
        ≡ both (x >>= g) (y >>= λ s. f s >>= g)
  first_read none y = refl
  first_read (some r) y = both_decoded y (g r)

  first_decoded :
      (x y : Option S)
      → (x >>= λ s. f s >>= λ r. y >>= λ s'.
          f s' >>= λ r'. g r >>= λ i. g r' >>= λ j. some (record { start = i; stop = j }))
        ≡ both (x >>= λ s. f s >>= g) (y >>= λ s. f s >>= g)
  first_decoded none y = refl
  first_decoded (some s) y = first_read (f s) y

module _ (p : Platform) where
  rewritten-is_modified :
      (d : p.Doc) (original : Option Text) (r : Range)
      → (is_modified p d original r ≡ true)
        ↔ ((t : Text) × (truthy original ≡ some t) × (slice (p.text d) r.start r.stop ≢ t))
  unfolding is_modified
  rewritten-is_modified d none r = (λ e. cc, λ w. cc (w.1))
  rewritten-is_modified d (some []) r = (λ e. cc, λ w. cc (w.1))
  rewritten-is_modified d (some (c ∷ s)) r = (
    λ e. (c ∷ s, refl, ground (arith, text_eq_refl (c ∷ s))),
    λ w. ground (arith, text_eq_iff (slice (p.text d) r.start r.stop) (c ∷ s)),
  )

  -- The index of an end, if it has one.
  abbrev point : p.Doc → Text → Option ℕ
  point d b64 = from_base64 p b64 >>= λ bytes. p.decode bytes >>= λ r. p.absolute r d

  resolve_range-point :
      (d : p.Doc) (a b : Text)
      → resolve_range p d a b ≡ both p.decode (λ r. p.absolute r d) (point d a) (point d b)
  unfolding resolve_range
  resolve_range-point d a b =
      first_decoded p.decode (λ r. p.absolute r d) (from_base64 p a) (from_base64 p b)

  Denotes-point : (d : p.Doc) (b64 : Text) (i : ℕ) → point d b64 ≡ some i → Denotes p d b64 i
  unfolding from_base64
  Denotes-point d b64 i e =
      let (bytes, read, rest) = bind_inv (from_base64 p b64) _ i e in
      let (r, decoded, found) = bind_inv (p.decode bytes) _ i rest in
      let (s, known, same) = bind_inv (p.atob b64) _ bytes read in
      (s, known, r, ap p.decode (some_inj _ bytes same) ∙ decoded, found)

  point-Denotes : (d : p.Doc) (b64 : Text) (i : ℕ) → Denotes p d b64 i → point d b64 ≡ some i
  unfolding from_base64
  point-Denotes d b64 i (s, known, r, decoded, found) =
      let bytes = map (λ c. c % 2 ^ 8) s in
      bind_some (from_base64 p b64) _ bytes (bind_some (p.atob b64) _ s known)
      ∙ (bind_some (p.decode bytes) _ r decoded ∙ found)

  no_point : (d : p.Doc) (b64 : Text) → ((i : ℕ) → ¬ Denotes p d b64 i) → point d b64 ≡ none
  no_point d b64 n = elim (Option-cases (point d b64)) [
    | inl e ↦ e
    | inr (i, e) ↦ absurd (n i (Denotes-point d b64 i e))
  ]

  nowhere : (d : p.Doc) (b64 : Text) (i : ℕ) → point d b64 ≡ none → ¬ Denotes p d b64 i
  nowhere d b64 i e k = cc (e, point-Denotes d b64 i k)

  -- The range by its ends.
  resolve_range-points :
      (d : p.Doc) (a b : Text) (o o' : Option ℕ)
      → point d a ≡ o
      → point d b ≡ o'
      → resolve_range p d a b ≡ both p.decode (λ r. p.absolute r d) o o'
  resolve_range-points d a b o o' e e' =
      resolve_range-point d a b
      ∙ (ap (λ x. both p.decode (λ r. p.absolute r d) x (point d b)) e
          ∙ ap (both p.decode (λ r. p.absolute r d) o) e')

  no_second_end : (o : Option ℕ) (d : p.Doc) → both p.decode (λ r. p.absolute r d) o none ≡ none
  no_second_end none d = refl
  no_second_end (some i) d = refl

  is_stale_lost :
      (q : Proposal) (d : p.Doc) (a b : Text)
      → positions q ≡ some (a, b)
      → resolve_range p d a b ≡ none
      → is_stale p q d ≡ true
  unfolding is_stale
  is_stale_lost q d a b e lost = rw (is_stale, e, lost)

  is_stale_found :
      (q : Proposal) (d : p.Doc) (a b : Text) (r : Range)
      → positions q ≡ some (a, b)
      → resolve_range p d a b ≡ some r
      → is_stale p q d ≡ is_modified p d q.original_text r
  unfolding is_stale
  is_stale_found q d a b r e found = rw (is_stale, e, found) refl

  IsOutdated-is_stale : (q : Proposal) (d : p.Doc) → is_stale p q d ≡ true → IsOutdated p q d
  unfolding is_stale
  IsOutdated-is_stale q d h = elim (Option-cases (positions q)) [
    | inl e ↦ absurd (ground arith)
    | inr ((a, b), e) ↦
        let k = HasEnds-positions q a b e in
        elim (Option-cases (point d a)) [
          | inl lost ↦ start_gone a b k (λ i. nowhere d a i lost)
          | inr (i, ei) ↦ elim (Option-cases (point d b)) [
            | inl lost ↦ stop_gone a b k (λ j. nowhere d b j lost)
            | inr (j, ej) ↦
                let r : Range = record { start = i; stop = j } in
                let found = resolve_range-points d a b (some i) (some j) ei ej in
                let (t, set, differs) =
                  (rewritten-is_modified d q.original_text r).0
                    (sym (is_stale_found q d a b r e found) ∙ h) in
                let (recorded, some_text) = truthy_inv q.original_text t set in
                rewritten a b i j t k (Denotes-point d a i ei) (Denotes-point d b j ej) recorded
                  some_text differs
          ]
        ]
  ]

  is_stale-IsOutdated : (q : Proposal) (d : p.Doc) → IsOutdated p q d → is_stale p q d ≡ true
  is_stale-IsOutdated q d = elim [
    | start_gone a b k n ↦
        is_stale_lost q d a b (positions-HasEnds q a b k)
          (resolve_range-points d a b none (point d b) (no_point d a n) refl)
    | stop_gone a b k n ↦ is_stale_lost q d a b (positions-HasEnds q a b k) (
        resolve_range-points d a b (point d a) none refl (no_point d b n)
        ∙ no_second_end (point d a) d)
    | rewritten a b i j t k di dj recorded some_text differs ↦
        let r : Range = record { start = i; stop = j } in
        is_stale_found q d a b r (positions-HasEnds q a b k) (
          resolve_range-points d a b (some i) (some j) (point-Denotes d a i di)
            (point-Denotes d b j dj))
        ∙ (rewritten-is_modified d q.original_text r).1
            (t, ap truthy recorded ∙ truthy_of_text t some_text, differs)
  ]

  -- `isStale` answers true exactly for the proposals that have both ends and of which an end is at no
  -- index of the document, or whose text between the two indices is another than the one recorded.
  pub is_stale_iff : (q : Proposal) (d : p.Doc) → (is_stale p q d ≡ true) ↔ IsOutdated p q d
  is_stale_iff q d = (IsOutdated-is_stale q d, is_stale-IsOutdated q d)

  is_modified_self :
      (d : p.Doc) (r : Range) (t : Text)
      → slice (p.text d) r.start r.stop ≡ t
      → is_modified p d (some t) r ≡ false
  unfolding is_modified
  is_modified_self d r [] e = refl
  is_modified_self d r (c ∷ s) e = rw (e, text_eq_refl (c ∷ s))

  -- A proposal whose range is there and holds the recorded text is not stale.
  pub is_stale-unchanged :
      (q : Proposal) (d : p.Doc) (a b : Text) (r : Range)
      → positions q ≡ some (a, b)
      → resolve_range p d a b ≡ some r
      → q.original_text ≡ some (slice (p.text d) r.start r.stop)
      → is_stale p q d ≡ false
  unfolding is_stale
  is_stale-unchanged q d a b r set found same =
      rw (is_stale, set, found, same) (is_modified_self d r _ refl)
