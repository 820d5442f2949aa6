-- ===== src/Raft/Replication.antt =====
-- raft/raft.go: AppendEntries, what `heartbeat` sends, the replies that a leader gets, and Start.
pub mod Appended
pub mod Holders
pub mod Committed
use collaborative_ide.Raft.{
  Raft, LogEntry, follower, leader, is_leader, log_index, entry_at, last_log_index, persist,
  step_down,
}
use collaborative_ide.Prelude.{
  ℕ, zero, suc, ◌+◌, ◌-◌, ◌/◌, Bool, true, false, not, ◌&&◌, ◌||◌, Option, none, some, List, [],
  ◌∷◌, ◌++◌, ltb, leb, ◌==◌, if◌then◌else◌, ◌>>=◌, take, drop, length, get_elem?,
}

pub record AppendEntriesArgs (C : Type 0) : Type 0 where
  pub term : ℕ
  pub leader_id : ℕ
  pub prev_log_index : ℕ
  pub prev_log_term : ℕ
  pub entries : List (LogEntry C)
  pub leader_commit : ℕ

-- `none` is -1; a field that the handler does not set is 0.
pub record AppendEntriesReply : Type 0 where
  pub term : ℕ
  pub success : Bool
  pub x_term : Option ℕ
  pub x_index : Option ℕ
  pub x_len : ℕ

pub record InstallSnapshotArgs (D : Type 0) : Type 0 where
  pub term : ℕ
  pub leader_id : ℕ
  pub last_included_index : ℕ
  pub last_included_term : ℕ
  pub contents : Option D

-- What a heartbeat has for one follower.
pub data Heartbeat (C D : Type 0) : Type 0 where
  append : AppendEntriesArgs C → Heartbeat C D
  install : InstallSnapshotArgs D → Heartbeat C D

-- The place of the first entry of that term.
unfoldable pub first_of_term : {C : Type 0} → ℕ → List (LogEntry C) → Option ℕ
first_of_term t [] = none
first_of_term t (e ∷ es) = if e.term == t then some 0 else (do i ← first_of_term t es; some (i + 1))

-- The place of the last entry of that term.
unfoldable pub last_of_term : {C : Type 0} → ℕ → List (LogEntry C) → Option ℕ
last_of_term t [] = none
last_of_term t (e ∷ es) = elim (last_of_term t es) [
  | some i ↦ some (i + 1)
  | none ↦ if e.term == t then some 0 else none
]

abbrev pub set_at : ℕ → ℕ → List ℕ → List ℕ
set_at i v [] = []
set_at zero v (x ∷ xs) = v ∷ xs
set_at (suc i) v (x ∷ xs) = x ∷ set_at i v xs

-- The followers from that index on whose log is known to reach `i`.
unfoldable pub replicas : ℕ → ℕ → ℕ → List ℕ → ℕ
replicas me i j [] = 0
replicas me i j (m ∷ ms) =
    let rest = replicas me i (j + 1) ms in if not (j == me) && leb i m then rest + 1 else rest

module _ {C D : Type 0} where
  abbrev refuse : Option ℕ → Option ℕ → ℕ → Raft C D → Raft C D × AppendEntriesReply
  refuse x_term x_index x_len r = (
    r,
    record {
      term = r.current_term;
      success = false;
      x_term = x_term;
      x_index = x_index;
      x_len = x_len;
    },
  )

  -- `min(leaderCommit, index of last new entry)`
  unfoldable pub follow_commit : ℕ → Raft C D → Raft C D
  unfolding last_log_index
  follow_commit c r =
      if ltb r.commit_index c
      then record r { commit_index = if ltb c (last_log_index r) then c else last_log_index r }
      else r

  -- AppendEntries, after the check of consistency.
  unfoldable pub store_entries : AppendEntriesArgs C → ℕ → Raft C D → Raft C D × AppendEntriesReply
  unfolding follow_commit persist
  store_entries a prev r = (
    follow_commit a.leader_commit (persist (record r { log = take (prev + 1) r.log ++ a.entries })),
    record { term = r.current_term; success = true; x_term = some 0; x_index = some 0; x_len = 0 },
  )

  unfoldable pub conflict : ℕ → Raft C D → Raft C D × AppendEntriesReply
  unfolding first_of_term last_log_index
  conflict t r =
      refuse (some t)
        (elim (first_of_term t r.log) [ none ↦ some 0 | some i ↦ some (i + r.last_included_index) ])
        (last_log_index r + 1) r

  -- AppendEntries, from the check of consistency on.
  unfoldable pub check_entries :
      AppendEntriesArgs C → Raft C D → Option (Raft C D × AppendEntriesReply)
  unfolding store_entries conflict log_index last_log_index
  check_entries a r =
      if ltb (last_log_index r) a.prev_log_index
      then some (refuse none none (last_log_index r + 1) r)
      else (if ltb a.prev_log_index r.last_included_index
          then some (refuse none none (r.last_included_index + 1) r)
          else (do
            prev ← log_index a.prev_log_index r
            e ← get_elem? r.log prev
            some (if e.term == a.prev_log_term then store_entries a prev r else conflict e.term r)))

  abbrev pub as_follower : Raft C D → Raft C D
  as_follower r = record r { role = follower }

  -- A term that is not stale makes the node a follower.
  unfoldable pub accept_leader : ℕ → Raft C D → Raft C D
  unfolding persist
  accept_leader term r = as_follower (
      if ltb r.current_term term
      then persist (record r { current_term = term; voted_for = none })
      else r)

  unfoldable pub append_entries :
      AppendEntriesArgs C → Raft C D → Option (Raft C D × AppendEntriesReply)
  unfolding accept_leader check_entries
  append_entries a r =
      if ltb a.term r.current_term
      then some (refuse (some 0) (some 0) 0 r)
      else check_entries a (accept_leader a.term r)

  unfoldable pub append_for : ℕ → LogEntry C → ℕ → Raft C D → Heartbeat C D
  append_for next prev k r = append (record {
    term = r.current_term;
    leader_id = r.me;
    prev_log_index = next - 1;
    prev_log_term = prev.term;
    entries = drop k r.log;
    leader_commit = r.commit_index;
  })

  -- The entries from the next index on, if that is within the log or at its end.
  unfoldable pub entries_for : ℕ → Raft C D → Option (Heartbeat C D)
  unfolding entry_at log_index append_for
  entries_for next r = do
    prev ← entry_at (next - 1) r
    k ← log_index next r
    (if ltb (length r.log) k then none else some (append_for next prev k r))

  unfoldable pub snapshot_for : Raft C D → Heartbeat C D
  snapshot_for r = install (record {
    term = r.current_term;
    leader_id = r.me;
    last_included_index = r.last_included_index;
    last_included_term = r.last_included_term;
    contents = r.snapshot;
  })

  -- What `heartbeat` sends to one follower.
  unfoldable pub heartbeat_for : ℕ → Raft C D → Option (Heartbeat C D)
  unfolding entries_for snapshot_for
  heartbeat_for i r = do
    next ← get_elem? r.next_index i
    (if leb next r.last_included_index then some (snapshot_for r) else entries_for next r)

  -- The next index for a follower that refused. A reply of this term has both or neither of
  -- `XTerm` and `XIndex`.
  unfoldable pub back_up : AppendEntriesReply → Raft C D → ℕ
  unfolding last_of_term
  back_up reply r = elim reply.x_term [
    | none ↦ reply.x_len
    | some t ↦ elim (last_of_term t r.log) [
      | some i ↦ i + r.last_included_index + 1
      | none ↦ elim reply.x_index [ none ↦ 0 | some x ↦ x ]
    ]
  ]

  abbrev pub majority : Raft C D → ℕ
  majority r = r.peers / 2 + 1

  -- The greatest index of `commit_index + n` and below, down to the one after `commit_index`, that
  -- a majority has with an entry of that term, if there is one. The search ends there, and it looks
  -- at the entry of each index before.
  unfoldable pub find_commit : ℕ → ℕ → Raft C D → Option (Option ℕ)
  unfolding replicas entry_at
  find_commit t zero r = some none
  find_commit t (suc n) r =
      let rest = find_commit t n r in
      let i = r.commit_index + suc n in
      entry_at i r >>= λ e.
      if e.term == t && leb (majority r) (1 + replicas r.me i 0 r.match_index)
      then some (some i)
      else rest

  abbrev pub commit_to : Option ℕ → Raft C D → Raft C D
  commit_to none r = r
  commit_to (some i) r = record r { commit_index = i }

  unfoldable pub advance_commit : ℕ → Raft C D → Option (Raft C D)
  unfolding find_commit last_log_index
  advance_commit t r = do
    found ← find_commit t (last_log_index r - r.commit_index) r
    some (commit_to found r)

  -- The log of that follower reaches the index.
  unfoldable pub note_replica : ℕ → ℕ → Raft C D → Raft C D
  note_replica target i r = record r {
    next_index = set_at target (i + 1) r.next_index;
    match_index = set_at target i r.match_index;
  }

  -- A reply to AppendEntries of that term, sent to that follower.
  unfoldable pub on_append_reply :
      ℕ → ℕ → AppendEntriesArgs C → AppendEntriesReply → Raft C D → Option (Raft C D)
  unfolding step_down back_up advance_commit note_replica
  on_append_reply term target a reply r =
      if ltb term reply.term
      then some (step_down reply.term r)
      else (if not (r.current_term == term) || not (is_leader r.role)
          then some r
          else (if reply.success
              then advance_commit term (note_replica target (a.prev_log_index + length a.entries) r)
              else some (record r { next_index = set_at target (back_up reply r) r.next_index })))

  -- A reply, with its term, to InstallSnapshot of that term, sent to that follower.
  unfoldable pub on_snapshot_reply : ℕ → ℕ → InstallSnapshotArgs D → ℕ → Raft C D → Raft C D
  unfolding step_down note_replica
  on_snapshot_reply term target a reply_term r =
      if ltb term reply_term
      then step_down reply_term r
      else (if not (r.current_term == term) || not (is_leader r.role)
          then r
          else note_replica target a.last_included_index r)

  -- Start, with the index, which is -1 if the node is no leader, and the term.
  unfoldable pub start : C → Raft C D → Raft C D × (Option ℕ × ℕ)
  unfolding persist last_log_index
  start command r =
      if is_leader r.role
      then (
        persist (record r {
          log = r.log ++ record { term = r.current_term; command = some command } ∷ [];
        }),
        (some (last_log_index r + 1), r.current_term),
      )
      else (r, (none, r.current_term))
