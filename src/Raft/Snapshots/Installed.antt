-- ===== src/Raft/Snapshots/Installed.antt =====
-- raft/raft.go: the log after InstallSnapshot.
use collaborative_ide.Raft.{Raft, LogEntry, entry_at, last_log_index, persist, log_index}
use collaborative_ide.Raft.Entries.{entry_at_place}
use collaborative_ide.Raft.Replication.{InstallSnapshotArgs, as_follower}
use collaborative_ide.Raft.Snapshots.{base, has_entry, replace_log, follow_term, install_snapshot}
use collaborative_ide.Raft.Snapshots.Trimmed.{IsTrimmed, cut-entry_at, found_place}
use collaborative_ide.Prelude.{
  none, some, refl, sym, [], ◌∷◌, ℕ, Option, Bool, true, false, ◌≡◌, ◌≢◌, ◌≤◌, ◌<◌, ◌+◌, ◌-◌, ◌&&◌,
  max, arith, ltb, leb, ◌==◌, ==_iff, length, get_elem?, drop, if_intro, get_elem?-bound,
  length-drop, ◌∙◌, ap, if◌then◌else◌,
}

module _ {C D : Type 0} where
  has_entry_found :
      (i t : ℕ) (r : Raft C D) (e : LogEntry C)
      → r.last_included_index < i
      → entry_at i r ≡ some e
      → e.term ≡ t
      → has_entry i t r ≡ true
  unfolding has_entry last_log_index
  has_entry_found i t r e above found same =
      let within =
        get_elem?-bound r.log (i - r.last_included_index) e (found_place i r e above found) in
      ground (arith, found, ==_iff e.term t, within)

  lacks_entry :
      (i t : ℕ) (r : Raft C D)
      → ((e : LogEntry C) → entry_at i r ≡ some e → e.term ≢ t)
      → has_entry i t r ≡ false
  unfolding has_entry
  lacks_entry i t r lacks = go (entry_at i r) (leb i (last_log_index r)) lacks
    where
      go :
          (o : Option (LogEntry C)) (b : Bool)
          → ((e : LogEntry C) → o ≡ some e → e.term ≢ t)
          → (b && (elim o [ none ↦ false | some e ↦ e.term == t ])) ≡ false
      go none b h = ground arith
      go (some e) b h = ground (arith, ==_iff e.term t, h e refl)

  -- The log that `replace_log` stores.
  abbrev IsReplaced : InstallSnapshotArgs D → Raft C D → Bool → Raft C D → Type 0
  IsReplaced a r b r' =
      (r'.log
        ≡ base a.last_included_term
          ∷ (if b then drop (a.last_included_index - r.last_included_index + 1) r.log else []))
      × (r'.last_included_index ≡ a.last_included_index)
      × (r'.last_included_term ≡ a.last_included_term)
      × (r'.snapshot ≡ a.contents)
      × (r'.commit_index ≡ max r.commit_index a.last_included_index)

  replace_log-IsReplaced :
      (a : InstallSnapshotArgs D) (r : Raft C D)
      → IsReplaced a r (has_entry a.last_included_index a.last_included_term r) (replace_log a r)
  unfolding replace_log persist
  replace_log-IsReplaced a r = (refl, refl, refl, refl, ground arith)

  install_snapshot-IsReplaced :
      (a : InstallSnapshotArgs D) (r : Raft C D)
      → r.current_term ≤ a.term
      → r.last_included_index < a.last_included_index
      → IsReplaced a r
          (has_entry a.last_included_index a.last_included_term r)
          (install_snapshot a r).0
  unfolding install_snapshot follow_term has_entry entry_at log_index last_log_index
  install_snapshot-IsReplaced a r new above =
      let Good = IsReplaced a r (has_entry a.last_included_index a.last_included_term r) in
      if_intro (λ (p : Raft C D × ℕ). Good p.0) (ltb a.term r.current_term)
        (λ old. absurd (ground arith))
        (λ _.
          if_intro Good (leb a.last_included_index r.last_included_index)
            (λ stale. absurd (ground arith))
            (λ _.
              if_intro (λ (r' : Raft C D). Good (replace_log a (as_follower r')))
                (ltb r.current_term a.term)
                (λ _. replace_log-IsReplaced a (as_follower (record r { current_term = a.term })))
                (λ _. replace_log-IsReplaced a (as_follower r))))

  IsReplaced-IsTrimmed :
      (a : InstallSnapshotArgs D) (r r' : Raft C D) (e : LogEntry C)
      → r.last_included_index < a.last_included_index
      → entry_at a.last_included_index r ≡ some e
      → e.term ≡ a.last_included_term
      → r'.log
        ≡ base a.last_included_term ∷ drop (a.last_included_index - r.last_included_index + 1) r.log
      → r'.last_included_index ≡ a.last_included_index
      → r'.last_included_term ≡ a.last_included_term
      → r'.snapshot ≡ a.contents
      → IsTrimmed a.last_included_index a.contents e r r'
  unfolding last_log_index
  IsReplaced-IsTrimmed a r r' e above found same log here term snapshot =
      let i = a.last_included_index in
      let n = i - r.last_included_index in
      let within = get_elem?-bound r.log n e (found_place i r e above found) in
      let origin : i - r'.last_included_index ≡ 0 = omega (arith, here) in
      record {
        here = here;
        term = term ∙ sym same;
        snapshot = snapshot;
        first =
            entry_at_place i r' (omega (arith, here))
            ∙ (ap (get_elem? r'.log) origin
                ∙ (ap (λ es. get_elem? es 0) log ∙ ap (λ t. some (base t)) (sym same)));
        last = omega (arith, within, here, ap length log, length-drop (n + 1) r.log);
        later = λ j h. cut-entry_at r r' i a.last_included_term j log here above h;
      }

  -- A snapshot that is newer than the own one, from a term that is not stale, becomes the own one,
  -- and what it covers counts as committed. If the log has the entry at which the snapshot ends, what
  -- stands after that entry stays and is found where it was; if not, nothing but the snapshot stays.
  pub install_snapshot_lem :
      (a : InstallSnapshotArgs D) (r : Raft C D)
      → r.current_term ≤ a.term
      → r.last_included_index < a.last_included_index
      → ((install_snapshot a r).0.commit_index ≡ max r.commit_index a.last_included_index)
        × ((e : LogEntry C)
            → entry_at a.last_included_index r ≡ some e
            → e.term ≡ a.last_included_term
            → IsTrimmed a.last_included_index a.contents e r (install_snapshot a r).0)
        × (((e : LogEntry C)
              → entry_at a.last_included_index r ≡ some e
              → e.term ≢ a.last_included_term)
            → ((install_snapshot a r).0.last_included_index ≡ a.last_included_index)
              × ((install_snapshot a r).0.snapshot ≡ a.contents)
              × ((install_snapshot a r).0.log ≡ base a.last_included_term ∷ []))
  install_snapshot_lem a r new above =
      let i = a.last_included_index in
      let (log, here, term, snapshot, commit) = install_snapshot-IsReplaced a r new above in
      (
        commit,
        λ e found same.
            let r' = (install_snapshot a r).0 in
            let has = has_entry_found i a.last_included_term r e above found same in
            let log' =
              log
              ∙ ap
                  (λ b.
                    base a.last_included_term
                    ∷ (if b then drop (i - r.last_included_index + 1) r.log else []))
                  has in
            IsReplaced-IsTrimmed a r r' e above found same log' here term snapshot,
        λ lacks. (
          here,
          snapshot,
          log
              ∙ ap
                  (λ b.
                    base a.last_included_term
                    ∷ (if b then drop (i - r.last_included_index + 1) r.log else []))
                  (lacks_entry i a.last_included_term r lacks),
        ),
      )
