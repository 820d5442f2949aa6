-- ===== src/Raft/Snapshots/Applied.antt =====
-- raft/raft.go: what a round of `applier` hands to the state machine.
use collaborative_ide.Raft.{Raft, LogEntry, log_index, entry_at, last_log_index}
use collaborative_ide.Raft.Entries.{entry_at-log, log_index_above}
use collaborative_ide.Raft.Snapshots.{
  ApplyMsg, command_msg, number_from, committed_entries, apply_committed,
}
use collaborative_ide.Prelude.{
  some, refl, sym, [], ◌∷◌, zero, suc, ℕ, Option, List, ◌≡◌, ◌≤◌, ◌<◌, ◌+◌, ◌-◌, max, arith, ltb,
  length, get_elem?, ◌>>=◌, take, drop, if_of_false, if_of_true, inl, inr, ◌⊎◌, get_elem?-drop,
  get_elem?-take, length-drop, length-take, bind_some, ◌∙◌, ap,
}

length-number_from :
    {C : Type 0} (D : Type 0) (i : ℕ) (es : List (LogEntry C))
    → length (number_from {D = D} i es) ≡ length es
unfolding number_from
length-number_from D i [] = refl
length-number_from D i (e ∷ es) = omega (arith, length-number_from D (i + 1) es)

before_or_not : (i j : ℕ) → (i < j) ⊎ (j ≤ i)
before_or_not i j = grind arith

module _ {C D : Type 0} where
  -- The entry at an index, as it is handed on.
  abbrev numbered : ℕ → LogEntry C → Option (ApplyMsg C D)
  numbered i e = some (command_msg e.command i)

  get_elem?-number_from :
      (i : ℕ) (es : List (LogEntry C)) (k : ℕ)
      → get_elem? (number_from i es) k ≡ (get_elem? es k >>= numbered (i + k))
  unfolding number_from
  get_elem?-number_from i [] k = refl
  get_elem?-number_from i (e ∷ es) zero = ap (λ j. some (command_msg e.command j)) (omega arith)
  get_elem?-number_from i (e ∷ es) (suc k) =
      get_elem?-number_from (i + 1) es k
      ∙ ap (λ j. get_elem? es k >>= numbered j) {y = i + suc k} (omega arith)

  segment : Raft C D → List (LogEntry C)
  segment r =
      take (r.commit_index - r.last_applied)
        (drop (r.last_applied + 1 - r.last_included_index) r.log)

  length-segment :
      (r : Raft C D)
      → r.last_included_index ≤ r.last_applied
      → r.last_applied < r.commit_index
      → r.commit_index ≤ last_log_index r
      → length (segment r) ≡ r.commit_index - r.last_applied
  unfolding segment last_log_index
  length-segment r above new within =
      let from = r.last_applied + 1 - r.last_included_index in
      omega (
        arith,
        length-take (r.commit_index - r.last_applied) (drop from r.log),
        length-drop from r.log,
      )

  committed_entries-segment :
      (r : Raft C D)
      → r.last_included_index ≤ r.last_applied
      → r.last_applied < r.commit_index
      → r.commit_index ≤ last_log_index r
      → committed_entries r ≡ some (segment r)
  unfolding committed_entries log_index last_log_index segment
  committed_entries-segment r above new within =
      let from = r.last_applied + 1 - r.last_included_index in
      let to = r.commit_index + 1 - r.last_included_index in
      let width : to - from ≡ r.commit_index - r.last_applied = omega arith in
      bind_some (log_index (r.last_applied + 1) r) _ from
        (log_index_above (r.last_applied + 1) r (omega arith))
      ∙ (bind_some (log_index (r.commit_index + 1) r) _ to
            (log_index_above (r.commit_index + 1) r (omega arith))
          ∙ (if_of_false (ltb (length r.log) to) _ _ (ground arith)
              ∙ ap (λ w. some (take w (drop from r.log))) width))

  segment-entry_at :
      (r : Raft C D) (k : ℕ)
      → r.last_included_index ≤ r.last_applied
      → k < r.commit_index - r.last_applied
      → get_elem? (segment r) k ≡ entry_at (r.last_applied + 1 + k) r
  unfolding segment
  segment-entry_at r k above h =
      let n = r.last_applied + 1 - r.last_included_index in
      get_elem?-take (r.commit_index - r.last_applied) (drop n r.log) k h
      ∙ (get_elem?-drop n r.log k
          ∙ (let i = r.last_applied + 1 + k in
              let here : n + k ≡ i - r.last_included_index = omega arith in
              ap (get_elem? r.log) here
              ∙ sym (
                  entry_at-log i r ∙ if_of_false (ltb i r.last_included_index) _ _ (ground arith))))

  apply_committed-segment :
      (r : Raft C D)
      → r.last_included_index ≤ r.last_applied
      → r.last_applied < r.commit_index
      → r.commit_index ≤ last_log_index r
      → apply_committed r
        ≡ some (
          record r { last_applied = r.commit_index },
          number_from (r.last_applied + 1) (segment r),
        )
  unfolding apply_committed
  apply_committed-segment r above new within =
      if_of_false (ltb r.last_applied r.last_included_index) _ _ (ground arith)
      ∙ (if_of_true (ltb r.last_applied r.commit_index) _ _ (ground arith)
          ∙ bind_some (committed_entries r) _ (segment r)
              (committed_entries-segment r above new within))

  apply_committed_idle :
      (r : Raft C D)
      → r.last_included_index ≤ r.last_applied
      → r.commit_index ≤ r.last_applied
      → apply_committed r ≡ some (r, [])
  unfolding apply_committed
  apply_committed_idle r above old =
      if_of_false (ltb r.last_applied r.last_included_index) _ _ (ground arith)
      ∙ if_of_false (ltb r.last_applied r.commit_index) _ _ (ground arith)

  -- Where the log has all that is committed, and no snapshot waits to be handed on, a round hands on
  -- one message for each index after the last applied one up to the commit index, in that order, with
  -- the command of the entry at that index, and has applied up to there.
  pub apply_committed_lem :
      (r : Raft C D)
      → r.last_included_index ≤ r.last_applied
      → r.commit_index ≤ last_log_index r
      → (msgs : List (ApplyMsg C D)) × (apply_committed r
          ≡ some (record r { last_applied = max r.last_applied r.commit_index }, msgs))
        × (length msgs ≡ r.commit_index - r.last_applied)
        × ((k : ℕ)
            → k < length msgs
            → get_elem? msgs k
              ≡ (entry_at (r.last_applied + 1 + k) r >>= numbered (r.last_applied + 1 + k)))
  apply_committed_lem r above within = elim (before_or_not r.last_applied r.commit_index) [
    | inl new ↦
        let e : r.commit_index ≡ max r.last_applied r.commit_index = omega arith in
        let size = length-number_from D (r.last_applied + 1) (segment r) in
        (
          number_from (r.last_applied + 1) (segment r),
          apply_committed-segment r above new within
              ∙ ap
                  (λ i.
                    some
                      (record r { last_applied = i }, number_from (r.last_applied + 1) (segment r)))
                  e,
          size ∙ length-segment r above new within,
          λ k h.
              get_elem?-number_from (r.last_applied + 1) (segment r) k
              ∙ ap (λ o. o >>= numbered (r.last_applied + 1 + k))
                  (segment-entry_at r k above
                    (omega (arith, h, size, length-segment r above new within))),
        )
    | inr old ↦
        let e : r.last_applied ≡ max r.last_applied r.commit_index = omega arith in
        (
          [],
          apply_committed_idle r above old ∙ ap (λ i. some (record r { last_applied = i }, [])) e,
          omega arith,
          λ k h. absurd (omega arith),
        )
  ]
