-- ===== src/Raft/Snapshots/Trimmed.antt =====
-- raft/raft.go: what is left of the log after Snapshot and InstallSnapshot.
use mathlib.Core.Path.{subst}
use collaborative_ide.Raft.{Raft, LogEntry, entry_at, last_log_index, persist}
use collaborative_ide.Raft.Entries.{entry_at_place}
use collaborative_ide.Raft.Snapshots.{base, trim_log, take_snapshot}
use collaborative_ide.Prelude.{
  none, some, refl, sym, ◌∷◌, ℕ, suc, Option, ◌≡◌, ◌≤◌, ◌<◌, ◌+◌, ◌-◌, arith, leb, get_elem?, drop,
  if_of_false, get_elem?-drop, get_elem?-bound, length-drop, ◌∙◌, ap,
}

module _ {C D : Type 0} where
  -- A log that begins anew at an index with what is left of another after it.
  pub cut-entry_at :
      (r r' : Raft C D) (i t j : ℕ)
      → r'.log ≡ base t ∷ drop (i - r.last_included_index + 1) r.log
      → r'.last_included_index ≡ i
      → r.last_included_index < i
      → i < j
      → entry_at j r' ≡ entry_at j r
  cut-entry_at r r' i t j log base' above later =
      let n = i - r.last_included_index + 1 in
      let here : r'.last_included_index ≤ j = omega (arith, base') in
      let next : j - r'.last_included_index ≡ suc (j - i - 1) = omega (arith, base') in
      let place : n + (j - i - 1) ≡ j - r.last_included_index = omega arith in
      entry_at_place j r' here
      ∙ (ap (get_elem? r'.log) next
          ∙ (ap (λ es. get_elem? es (suc (j - i - 1))) log
              ∙ (get_elem?-drop n r.log (j - i - 1)
                  ∙ (ap (get_elem? r.log) place ∙ sym (entry_at_place j r (omega arith))))))

  -- What is left of a log that ended at or after an index, with that entry as its base.
  pub record IsTrimmed (i : ℕ) (contents : Option D) (e : LogEntry C) (r r' : Raft C D)
      : Type 0 where
    pub here : r'.last_included_index ≡ i
    pub term : r'.last_included_term ≡ e.term
    pub snapshot : r'.snapshot ≡ contents
    pub first : entry_at i r' ≡ some (base e.term)
    pub last : last_log_index r' ≡ last_log_index r
    pub later : (j : ℕ) → i < j → entry_at j r' ≡ entry_at j r

  -- The entry stands within the log.
  pub found_place :
      (i : ℕ) (r : Raft C D) (e : LogEntry C)
      → r.last_included_index < i
      → entry_at i r ≡ some e
      → get_elem? r.log (i - r.last_included_index) ≡ some e
  found_place i r e above found = sym (entry_at_place i r (omega arith)) ∙ found

  trim_log-IsTrimmed :
      (i : ℕ) (contents : D) (r : Raft C D) (e : LogEntry C)
      → r.last_included_index < i
      → entry_at i r ≡ some e
      → IsTrimmed i (some contents) e r (trim_log i contents r e)
  unfolding trim_log last_log_index persist
  trim_log-IsTrimmed i contents r e above found =
      let n = i - r.last_included_index in
      let origin : i - i ≡ 0 = omega arith in
      let within = get_elem?-bound r.log n e (found_place i r e above found) in
      record {
        here = refl;
        term = refl;
        snapshot = refl;
        first =
            entry_at_place i (trim_log i contents r e) (omega arith)
            ∙ ap (get_elem? (base e.term ∷ drop (n + 1) r.log)) origin;
        last = omega (arith, within, length-drop (n + 1) r.log);
        later = λ j h. cut-entry_at r (trim_log i contents r e) i e.term j refl refl above h;
      }

  pub take_snapshot-trim_log :
      (i : ℕ) (contents : D) (r : Raft C D) (e : LogEntry C)
      → r.last_included_index < i
      → entry_at i r ≡ some e
      → take_snapshot i contents r ≡ trim_log i contents r e
  unfolding take_snapshot
  take_snapshot-trim_log i contents r e above found =
      if_of_false (leb i r.last_included_index) _ _ (ground arith)
      ∙ ap (λ o. elim o [ none ↦ r | some e' ↦ trim_log i contents r e' ])
          (found_place i r e above found)

  -- Snapshot at an index of the log drops the entries up to it and no other: what stands after it is
  -- found where it was, the log ends where it did, and at its base is the term of the entry at that
  -- index.
  pub take_snapshot_lem :
      (i : ℕ) (contents : D) (r : Raft C D) (e : LogEntry C)
      → r.last_included_index < i
      → entry_at i r ≡ some e
      → IsTrimmed i (some contents) e r (take_snapshot i contents r)
  take_snapshot_lem i contents r e above found =
      subst (IsTrimmed i (some contents) e r)
        (sym (take_snapshot-trim_log i contents r e above found))
        (trim_log-IsTrimmed i contents r e above found)
