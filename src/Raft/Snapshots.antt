-- ===== src/Raft/Snapshots.antt =====
-- raft/raft.go: Snapshot, InstallSnapshot, and what `applier` hands to the state machine.
pub mod Applied
pub mod Trimmed
pub mod Installed
use collaborative_ide.Raft.{Raft, LogEntry, log_index, entry_at, last_log_index, persist}
use collaborative_ide.Raft.Replication.{InstallSnapshotArgs, as_follower}
use collaborative_ide.Prelude.{
  ℕ, ◌+◌, ◌-◌, Bool, false, ◌&&◌, Option, none, some, List, [], ◌∷◌, ltb, leb, ◌==◌, if◌then◌else◌,
  ◌>>=◌, take, drop, length, get_elem?,
}

-- What goes through `applyChan`.
pub data ApplyMsg (C D : Type 0) : Type 0 where
  snapshot_msg : Option D → ℕ → ℕ → ApplyMsg C D
  command_msg : Option C → ℕ → ApplyMsg C D

abbrev pub base : {C : Type 0} → ℕ → LogEntry C
base t = record { term = t; command = none }

module _ {C D : Type 0} where
  -- Snapshot, once the entry at the index is found.
  unfoldable pub trim_log : ℕ → D → Raft C D → LogEntry C → Raft C D
  unfolding persist
  trim_log index contents r e = persist (record r {
    last_included_term = e.term;
    last_included_index = index;
    log = base e.term ∷ drop (index - r.last_included_index + 1) r.log;
    snapshot = some contents;
  })

  -- Snapshot
  unfoldable pub take_snapshot : ℕ → D → Raft C D → Raft C D
  unfolding trim_log
  take_snapshot index contents r =
      if leb index r.last_included_index
      then r
      else (elim (get_elem? r.log (index - r.last_included_index)) [
        | none ↦ r
        | some e ↦ trim_log index contents r e
      ])

  -- Whether the log has the entry at which the snapshot ends. It is asked of an index above the base,
  -- so one that is not above the last index has an entry.
  unfoldable pub has_entry : ℕ → ℕ → Raft C D → Bool
  unfolding last_log_index entry_at
  has_entry index t r =
      leb index (last_log_index r)
      && (elim (entry_at index r) [ none ↦ false | some e ↦ e.term == t ])

  -- InstallSnapshot, for a snapshot that is newer than the own one.
  unfoldable pub replace_log : InstallSnapshotArgs D → Raft C D → Raft C D
  unfolding has_entry persist
  replace_log a r = persist (record r {
    log =
        base a.last_included_term
        ∷ (if has_entry a.last_included_index a.last_included_term r
            then drop (a.last_included_index - r.last_included_index + 1) r.log
            else []);
    last_included_index = a.last_included_index;
    last_included_term = a.last_included_term;
    snapshot = a.contents;
    commit_index =
        if ltb r.commit_index a.last_included_index then a.last_included_index else r.commit_index;
  })

  -- A newer term is taken over, with `votedFor` as it is and without a write.
  unfoldable pub follow_term : ℕ → Raft C D → Raft C D
  follow_term term r =
      as_follower (if ltb r.current_term term then record r { current_term = term } else r)

  -- InstallSnapshot, with the term of the reply.
  unfoldable pub install_snapshot : InstallSnapshotArgs D → Raft C D → Raft C D × ℕ
  unfolding follow_term replace_log
  install_snapshot a r = if ltb a.term r.current_term then (r, r.current_term) else (
    if leb a.last_included_index r.last_included_index
        then follow_term a.term r
        else replace_log a (follow_term a.term r),
    a.term,
  )

  unfoldable pub number_from : ℕ → List (LogEntry C) → List (ApplyMsg C D)
  number_from i [] = []
  number_from i (e ∷ es) = command_msg e.command i ∷ number_from (i + 1) es

  -- The entries after `lastApplied`, up to `commitIndex`. Where those are not all in the log, Go
  -- stops or reads what was cut off the array; that is `none` here.
  unfoldable pub committed_entries : Raft C D → Option (List (LogEntry C))
  unfolding log_index
  committed_entries r = do
    from ← log_index (r.last_applied + 1) r
    to ← log_index (r.commit_index + 1) r
    (if ltb (length r.log) to then none else some (take (to - from) (drop from r.log)))

  -- One round of `applier`, with what it sends. That Kill may stop it in between is left out.
  unfoldable pub apply_committed : Raft C D → Option (Raft C D × List (ApplyMsg C D))
  unfolding number_from committed_entries
  apply_committed r =
      if ltb r.last_applied r.last_included_index
      then some (
        record r { last_applied = r.last_included_index },
        snapshot_msg r.snapshot r.last_included_index r.last_included_term ∷ [],
      )
      else (if ltb r.last_applied r.commit_index
          then (do
            es ← committed_entries r
            some (record r { last_applied = r.commit_index }, number_from (r.last_applied + 1) es))
          else some (r, []))
