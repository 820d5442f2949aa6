-- ===== src/Tests/Nodes.antt =====
-- Examples on a node of a cluster of three; commands and snapshots are numbers.
use collaborative_ide.Raft.{Raft, LogEntry, follower, leader, log_index, entry_at, last_log_index}
use collaborative_ide.Raft.Elections.{
  RequestVoteArgs, RequestVoteReply, request_vote, on_vote_reply, is_up_to_date,
}
use collaborative_ide.Raft.Replication.{
  AppendEntriesArgs, AppendEntriesReply, InstallSnapshotArgs, append_entries, advance_commit,
}
use collaborative_ide.Raft.Node.{
  Event, Node, boot, run, step, vote_asked, restarted, timed_out, applied,
}
use collaborative_ide.Raft.Node.InOrder.{Ascend, indices, handed_all, handed_in_order}
use collaborative_ide.DiskPersister.{Disk, save, save_until}
use collaborative_ide.DiskPersister.Crash.{IsWhole, save_until_lem}
use collaborative_ide.Raft.{Persisted}
use collaborative_ide.Raft.Node.LateReply.{late_reply_lem}
use collaborative_ide.Raft.Replication.Appended.{append_entries_lem, late_append_lem}
use collaborative_ide.Raft.Replication.Committed.{IsReplicated, advance_commit_lem}
use collaborative_ide.Raft.Snapshots.{
  ApplyMsg, command_msg, apply_committed, install_snapshot, base,
}
use collaborative_ide.Raft.Snapshots.Trimmed.{IsTrimmed}
use collaborative_ide.Raft.Snapshots.Applied.{apply_committed_lem}
use collaborative_ide.Raft.Snapshots.Installed.{install_snapshot_lem}
use collaborative_ide.Prelude.{
  none, some, refl, [], ◌∷◌, true, false, ℕ, Option, List, ◌≡◌, ◌≢◌, ◌≤◌, ◌<◌, ◌⊎◌, ◌+◌, ◌-◌, ◌>>=◌,
  min, max, ltb, leb, length, get_elem?, if◌then◌else◌, arith,
}

abbrev ballot : ℕ → RequestVoteArgs
ballot c = record { term = 1; candidate_id = c; last_log_index = 0; last_log_term = 0 }

-- The node votes for 1, crashes, and is asked by 2.
abbrev events : List (Event ℕ ℕ)
events = vote_asked (ballot 1) ∷ restarted ∷ vote_asked (ballot 2) ∷ []

abbrev or_else : Node ℕ ℕ → Option (Node ℕ ℕ) → Node ℕ ℕ
or_else s none = s
or_else s (some s') = s'

abbrev reached : Node ℕ ℕ
reached = or_else (boot 0 3) (run events (boot 0 3))

abbrev voter : ℕ
voter = 1

abbrev woken : Node ℕ ℕ
woken = or_else reached (step restarted reached)

abbrev entry : ℕ → ℕ → LogEntry ℕ
entry t c = record { term = t; command = some c }

-- A leader with three entries, of which it has committed one.
abbrev node : Raft ℕ ℕ
node = record {
  me = 0;
  peers = 3;
  current_term = 2;
  voted_for = some 0;
  role = leader;
  log = record { term = 0; command = none } ∷ entry 1 10 ∷ entry 2 20 ∷ entry 2 30 ∷ [];
  commit_index = 1;
  last_applied = 1;
  next_index = 4 ∷ 3 ∷ 1 ∷ [];
  match_index = 0 ∷ 2 ∷ 0 ∷ [];
  last_included_index = 0;
  last_included_term = 0;
  snapshot = none;
  saved = none;
  saved_snapshot = none;
}

advance_commit_example :
    (r' : Raft ℕ ℕ) × (advance_commit 2 node ≡ some r')
    × (r' ≡ (record node { commit_index = r'.commit_index }))
    × ((r'.commit_index ≡ node.commit_index)
        ⊎ ((node.commit_index < r'.commit_index)
            × (r'.commit_index ≤ last_log_index node)
            × IsReplicated 2 r'.commit_index node))
    × ((j : ℕ) → r'.commit_index < j → j ≤ last_log_index node → ¬ IsReplicated 2 j node)
advance_commit_example = advance_commit_lem 2 node (omega arith) (omega arith)

-- It has committed the second entry, and that alone.
advance_commit-node : advance_commit 2 node ≡ some (record node { commit_index = 2 })
unfolding advance_commit
advance_commit-node = refl

-- A leader whose log begins above its commit index, after a snapshot taken there, looks for an entry
-- below its log.
advance_commit-ahead :
    advance_commit 2 (record node { last_included_index = 2; commit_index = 0 }) ≡ none
unfolding advance_commit
advance_commit-ahead = refl

-- A follower that has committed all three, of which it has applied one.
abbrev behind : Raft ℕ ℕ
behind = record node { role = follower; commit_index = 3 }

apply_committed_example :
    (msgs : List (ApplyMsg ℕ ℕ)) × (apply_committed behind
      ≡ some (record behind { last_applied = 3 }, msgs))
    × (length msgs ≡ 2)
    × ((k : ℕ)
        → k < length msgs
        → get_elem? msgs k
          ≡ (entry_at (2 + k) behind >>= λ e. some (command_msg e.command (2 + k))))
unfolding last_log_index
apply_committed_example = apply_committed_lem behind (omega arith) (omega arith)

-- A message that was sent when the leader had one entry only.
abbrev delayed : AppendEntriesArgs ℕ
delayed = record {
  term = 2;
  leader_id = 1;
  prev_log_index = 0;
  prev_log_term = 0;
  entries = entry 1 10 ∷ [];
  leader_commit = 0;
}

abbrev cut : Option (Raft ℕ ℕ × AppendEntriesReply) → Raft ℕ ℕ × AppendEntriesReply
cut none = (behind, record { term = 0; success = false; x_term = none; x_index = none; x_len = 0 })
cut (some p) = p

abbrev answer : Raft ℕ ℕ × AppendEntriesReply
answer = cut (append_entries delayed behind)

append_entries-answer : append_entries delayed behind ≡ some (answer.0, answer.1)
unfolding append_entries
append_entries-answer = refl

answer_succeeds : answer.1.success ≡ true
unfolding append_entries
answer_succeeds = refl

append_entries_example :
    ((prev : LogEntry ℕ) × (entry_at 0 behind ≡ some prev) × (prev.term ≡ 0))
    × ((i : ℕ)
        → entry_at i answer.0
          ≡ (if leb i 0 then entry_at i behind else get_elem? delayed.entries (i - (0 + 1))))
    × (answer.0.commit_index ≡ (
        if ltb behind.commit_index 0 then min 0 (last_log_index answer.0) else behind.commit_index))
append_entries_example =
    append_entries_lem delayed behind answer.0 answer.1 append_entries-answer answer_succeeds

late_append_example :
    (r' : Raft ℕ ℕ) × (reply : AppendEntriesReply) × (append_entries delayed behind
      ≡ some (r', reply))
    × (reply.success ≡ true)
    × (r'.commit_index ≡ behind.commit_index)
    × (entry_at r'.commit_index r' ≡ none)
unfolding entry_at
late_append_example =
    late_append_lem delayed behind (record { term = 0; command = none }) refl refl refl
      (omega arith) (omega arith)

abbrev sent : InstallSnapshotArgs ℕ
sent = record {
  term = 2;
  leader_id = 1;
  last_included_index = 2;
  last_included_term = 2;
  contents = some 30;
}

install_snapshot_example :
    ((install_snapshot sent node).0.commit_index ≡ max node.commit_index 2)
    × ((e : LogEntry ℕ)
        → entry_at 2 node ≡ some e
        → e.term ≡ 2
        → IsTrimmed 2 (some 30) e node (install_snapshot sent node).0)
    × (((e : LogEntry ℕ) → entry_at 2 node ≡ some e → e.term ≢ 2)
        → ((install_snapshot sent node).0.last_included_index ≡ 2)
          × ((install_snapshot sent node).0.snapshot ≡ some 30)
          × ((install_snapshot sent node).0.log ≡ base 2 ∷ []))
install_snapshot_example = install_snapshot_lem sent node (omega arith) (omega arith)

-- Another candidate of the term in which the node has voted for itself.
abbrev rival : RequestVoteArgs
rival = record { term = 2; candidate_id = 1; last_log_index = 3; last_log_term = 2 }

-- The answer to the election of term 1, given in term 2.
abbrev late : RequestVoteReply
late = record { term = 2; vote_granted = false }

late_reply_example :
    (request_vote rival node ≡ some (node, record { term = 2; vote_granted = false }))
    × ((r' : Raft ℕ ℕ) × (request_vote rival (on_vote_reply 1 1 late node).0
          ≡ some (r', record { term = 2; vote_granted = true }))
        × (r'.voted_for ≡ some 1))
unfolding last_log_index entry_at log_index is_up_to_date
late_reply_example =
    late_reply_lem node 0 1 1 late rival (entry 2 30) refl (λ e. omega (arith, e)) refl refl refl
      (omega arith) refl

-- Three nodes that have voted for 1.
abbrev cluster : List (Node ℕ ℕ)
cluster = reached ∷ reached ∷ reached ∷ []

handed_in_order_example : Ascend 1 (
    indices
      (handed_all (applied ∷ timed_out ∷ applied ∷ []) (record { raft = behind; votes = [] })))
handed_in_order_example =
    handed_in_order (applied ∷ timed_out ∷ applied ∷ []) (record { raft = behind; votes = [] })
      (tt, (tt, (tt, tt)))

handed_all-behind :
    indices (handed_all (applied ∷ timed_out ∷ applied ∷ []) (record { raft = behind; votes = [] }))
    ≡ 2 ∷ 3 ∷ []
unfolding handed_all
handed_all-behind = refl

abbrev files : Disk (Persisted ℕ) ℕ
files = record { raftstate = none; raftstate_tmp = none; snapshot = some 5; snapshot_tmp = none }

abbrev written : Persisted ℕ
written = record {
  current_term = 2;
  voted_for = some 0;
  log = node.log;
  last_included_index = 0;
  last_included_term = 0;
}

save_until_lem_example :
    IsWhole (some written) (some 7) files (save_until 4 (some written) (some 7) files)
    × ((save (some written) (some 7) files).raftstate ≡ some written)
    × ((save (some written) (some 7) files).snapshot ≡ some 7)
save_until_lem_example = save_until_lem 4 (some written) (some 7) files

-- The node keeps what the disk has.
abbrev stored : Disk (Persisted ℕ) ℕ
stored = record { raftstate = none; raftstate_tmp = none; snapshot = none; snapshot_tmp = none }
