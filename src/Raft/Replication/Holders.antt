-- ===== src/Raft/Replication/Holders.antt =====
-- raft/raft.go: how a leader counts the followers that have an entry.
use mathlib.Core.Path.{subst}
use collaborative_ide.Raft.{Raft}
use collaborative_ide.Raft.Replication.{replicas, majority}
use collaborative_ide.Prelude.{
  ℕ, suc, ◌+◌, ◌-◌, ◌*◌, ◌≤◌, ◌<◌, ◌≡◌, ◌≢◌, inl, inr, List, [], ◌∷◌, All, length, some, get_elem?,
  refl, true, not, ◌==◌, ◌&&◌, leb, arith, if_intro, if_of_true, ==_iff, ap, ◌∙◌, sym, Bool-cases,
  ltb, some_inj,
}

-- Numbers that grow, from that one on.
abbrev pub Ascends : ℕ → List ℕ → Type 0
Ascends k [] = Unit
Ascends k (j ∷ js) = (k ≤ j) × Ascends (j + 1) js

-- Another node than the own one, whose log is known to reach `i`; the list is about the nodes from
-- `k` on.
abbrev IsHolderFrom : ℕ → ℕ → ℕ → List ℕ → ℕ → Type 0
IsHolderFrom me i k ms j =
    (j ≢ me) × (k ≤ j) × ((m : ℕ) × (get_elem? ms (j - k) ≡ some m) × (i ≤ m))

Ascends-later : (k : ℕ) (js : List ℕ) → Ascends (k + 1) js → Ascends k js
Ascends-later k [] a = tt
Ascends-later k (j ∷ js) (h, a) = (omega arith, a)

next_place :
    (m j k : ℕ) (ms : List ℕ) → k + 1 ≤ j → get_elem? (m ∷ ms) (j - k) ≡ get_elem? ms (j - (k + 1))
next_place m j k ms h =
    let same : j - k ≡ suc (j - (k + 1)) = omega arith in ap (get_elem? (m ∷ ms)) same

holders_before :
    (me i k m : ℕ) (ms js : List ℕ)
    → All (IsHolderFrom me i (k + 1) ms) js
    → All (IsHolderFrom me i k (m ∷ ms)) js
holders_before me i k m ms [] h = tt
holders_before me i k m ms (j ∷ js) ((n, b, (v, e, le)), hs) =
    ((n, omega arith, (v, next_place m j k ms b ∙ e, le)), holders_before me i k m ms js hs)

holders_after :
    (me i k k' m : ℕ) (ms js : List ℕ)
    → k + 1 ≤ k'
    → Ascends k' js
    → All (IsHolderFrom me i k (m ∷ ms)) js
    → All (IsHolderFrom me i (k + 1) ms) js
holders_after me i k k' m ms [] above a h = tt
holders_after me i k k' m ms (j ∷ js) above (b, a) ((n, _, (v, e, le)), hs) = (
  (n, omega arith, (v, sym (next_place m j k ms (omega arith)) ∙ e, le)),
  holders_after me i k (j + 1) m ms js (omega arith) a hs,
)

-- As many as `replicas` counts.
Collected : ℕ → ℕ → ℕ → List ℕ → ℕ → Type 0
Collected me i k ms n =
    (js : List ℕ) × Ascends k js × All (IsHolderFrom me i k ms) js × (length js ≡ n)

collect : (me i k : ℕ) (ms : List ℕ) → Collected me i k ms (replicas me i k ms)
unfolding replicas Collected
collect me i k [] = ([], tt, tt, refl)
collect me i k (m ∷ ms) =
    let (js, a, hold, len) = collect me i (k + 1) ms in
    let before = holders_before me i k m ms js hold in
    if_intro (Collected me i k (m ∷ ms)) (not (k == me) && leb i m)
      (λ e.
        let other : k ≢ me = ground (arith, ==_iff k me) in
        let here : get_elem? (m ∷ ms) (k - k) ≡ some m =
          ap (get_elem? (m ∷ ms)) {y = 0} (omega arith) in
        (
          k ∷ js,
          (omega arith, a),
          ((other, omega arith, (m, here, ground arith)), before),
          omega (arith, len),
        ))
      (λ _. (js, Ascends-later k js a, before, len))

counted :
    (me i k : ℕ) (ms js : List ℕ)
    → Ascends k js
    → All (IsHolderFrom me i k ms) js
    → length js ≤ replicas me i k ms
unfolding replicas
counted me i k [] [] a h = omega arith
counted me i k [] (j ∷ js) a ((n, b, (v, e, le)), hs) = absurd (cc e)
counted me i k (m ∷ ms) [] a h = omega arith
counted me i k (m ∷ ms) (j ∷ js) (b, a) ((n, b', (v, e, le)), hs) = elim (Bool-cases (ltb k j)) [
  | inl later ↦
      let rest =
        counted me i (k + 1) ms (j ∷ js) (ground arith, a)
          (holders_after me i k (k + 1) m ms (j ∷ js) (omega arith) (ground arith, a)
            ((n, b', (v, e, le)), hs)) in
      if_intro (λ x. length (j ∷ js) ≤ x) (not (k == me) && leb i m) (λ _. omega (arith, rest))
        (λ _. omega (arith, rest))
  | inr here ↦
      let first : j ≡ k = ground arith in
      let zeroth : j - k ≡ 0 = omega arith in
      let found : some m ≡ some v = ap (get_elem? (m ∷ ms)) (sym zeroth) ∙ e in
      let same : m ≡ v = some_inj m v found in
      let rest =
        counted me i (k + 1) ms js (subst (λ x. Ascends (x + 1) js) first a)
          (holders_after me i k (j + 1) m ms js (omega arith) a hs) in
      let other : k ≢ me = λ f. n (first ∙ f) in
      let reaches : i ≤ m = omega (arith, same, le) in
      let test : not (k == me) && leb i m ≡ true = ground (arith, ==_iff k me) in
      subst (λ x. length (j ∷ js) ≤ x) (sym (if_of_true (not (k == me) && leb i m) _ _ test))
        (omega (arith, rest))
]

-- Another node than the own one, whose log is known to reach `i`.
abbrev pub IsHolder : ℕ → ℕ → List ℕ → ℕ → Type 0
IsHolder me i ms j = (j ≢ me) × ((m : ℕ) × (get_elem? ms j ≡ some m) × (i ≤ m))

-- More than half of the nodes have the entry, the own one among them: other nodes, each of which is
-- known to have all up to it.
abbrev pub HaveMost : {C D : Type 0} → ℕ → Raft C D → Type 0
HaveMost i r =
    (js : List ℕ) × Ascends 0 js
    × All (IsHolder r.me i r.match_index) js
    × (r.peers < 2 * (1 + length js))

holders_of :
    (me i : ℕ) (ms js : List ℕ) → All (IsHolderFrom me i 0 ms) js → All (IsHolder me i ms) js
holders_of me i ms [] h = tt
holders_of me i ms (j ∷ js) ((n, _, (v, e, le)), hs) =
    let same : j ≡ j - 0 = omega arith in
    ((n, (v, ap (get_elem? ms) same ∙ e, le)), holders_of me i ms js hs)

of_holders :
    (me i : ℕ) (ms js : List ℕ) → All (IsHolder me i ms) js → All (IsHolderFrom me i 0 ms) js
of_holders me i ms [] h = tt
of_holders me i ms (j ∷ js) ((n, (v, e, le)), hs) =
    let same : j - 0 ≡ j = omega arith in
    ((n, omega arith, (v, ap (get_elem? ms) same ∙ e, le)), of_holders me i ms js hs)

module _ {C D : Type 0} where
  pub most_counted :
      (i : ℕ) (r : Raft C D)
      → leb (majority r) (1 + replicas r.me i 0 r.match_index) ≡ true
      → HaveMost i r
  unfolding Collected
  most_counted i r e =
      let (js, a, hold, len) = collect r.me i 0 r.match_index in
      (js, a, holders_of r.me i r.match_index js hold, ground (arith, len, e))

  pub counted_most :
      (i : ℕ) (r : Raft C D)
      → HaveMost i r
      → leb (majority r) (1 + replicas r.me i 0 r.match_index) ≡ true
  counted_most i r (js, a, hold, most) =
      let below = counted r.me i 0 r.match_index js a (of_holders r.me i r.match_index js hold) in
      ground (arith, below, most)
