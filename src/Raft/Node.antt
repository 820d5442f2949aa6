-- ===== src/Raft/Node.antt =====
-- raft/raft.go: one node over its events, with the votes it has given. Each event runs under the
-- lock of the node. `restarted` is Make on what the persister holds, after the process has stopped
-- between two events; one that stops in the course of a Save is in DiskPersister/Crash.
pub mod Votes
pub mod VotesKept
pub mod OneVote
pub mod Winners
pub mod Applied
pub mod Covered
pub mod InOrder
pub mod Saved
pub mod SavedLog
pub mod Restart
pub mod LateReply
use collaborative_ide.Raft.{Raft, make}
use collaborative_ide.Raft.Elections.{
  RequestVoteArgs, RequestVoteReply, request_vote, start_election, on_vote_reply,
}
use collaborative_ide.Raft.Replication.{
  AppendEntriesArgs, AppendEntriesReply, InstallSnapshotArgs, append_entries, on_append_reply,
  on_snapshot_reply, start,
}
use collaborative_ide.Raft.Snapshots.{take_snapshot, install_snapshot, apply_committed}
use collaborative_ide.Prelude.{ℕ, Option, none, some, List, [], ◌∷◌, if◌then◌else◌, ◌>>=◌}

pub data Event (C D : Type 0) : Type 0 where
  -- the handlers
  vote_asked : RequestVoteArgs → Event C D
  entries_sent : AppendEntriesArgs C → Event C D
  snapshot_sent : InstallSnapshotArgs D → Event C D
  -- `ticker`, and the reply to an election: its term, its votes so far
  timed_out : Event C D
  vote_replied : ℕ → ℕ → RequestVoteReply → Event C D
  -- the replies to a heartbeat: its term, the follower
  entries_replied : ℕ → ℕ → AppendEntriesArgs C → AppendEntriesReply → Event C D
  snapshot_replied : ℕ → ℕ → InstallSnapshotArgs D → ℕ → Event C D
  -- the service
  started : C → Event C D
  snapshot_taken : ℕ → D → Event C D
  -- `applier`
  applied : Event C D
  restarted : Event C D

-- The votes are a term with a candidate, the latest first.
pub record Node (C D : Type 0) : Type 0 where
  pub raft : Raft C D
  pub votes : List (ℕ × ℕ)

abbrev pub add_vote : RequestVoteArgs → RequestVoteReply → List (ℕ × ℕ) → List (ℕ × ℕ)
add_vote a reply votes = if reply.vote_granted then (a.term, a.candidate_id) ∷ votes else votes

-- A candidate votes for itself.
abbrev pub add_own : Option RequestVoteArgs → List (ℕ × ℕ) → List (ℕ × ℕ)
add_own none votes = votes
add_own (some a) votes = (a.term, a.candidate_id) ∷ votes

module _ {C D : Type 0} where
  unfoldable pub boot : ℕ → ℕ → Node C D
  unfolding make
  boot me peers = record { raft = make me peers none none; votes = [] }

  abbrev pub goes_to : Node C D → Raft C D → Option (Node C D)
  goes_to s r = some (record s { raft = r })

  unfoldable pub after_vote : RequestVoteArgs → Node C D → Raft C D × RequestVoteReply → Node C D
  after_vote a s (r, reply) = record { raft = r; votes = add_vote a reply s.votes }

  unfoldable pub after_election : Node C D → Raft C D × Option RequestVoteArgs → Node C D
  after_election s (r, a) = record { raft = r; votes = add_own a s.votes }

  unfoldable pub step : Event C D → Node C D → Option (Node C D)
  unfolding request_vote append_entries install_snapshot start_election on_vote_reply
      on_append_reply on_snapshot_reply start take_snapshot apply_committed make after_vote
      after_election
  step (vote_asked a) s = do p ← request_vote a s.raft; some (after_vote a s p)
  step (entries_sent a) s = do p ← append_entries a s.raft; goes_to s p.0
  step (snapshot_sent a) s = goes_to s (install_snapshot a s.raft).0
  step timed_out s = do p ← start_election s.raft; some (after_election s p)
  step (vote_replied term votes reply) s = goes_to s (on_vote_reply term votes reply s.raft).0
  step (entries_replied term target a reply) s = do
    r ← on_append_reply term target a reply s.raft
    goes_to s r
  step (snapshot_replied term target a reply) s =
      goes_to s (on_snapshot_reply term target a reply s.raft)
  step (started c) s = goes_to s (start c s.raft).0
  step (snapshot_taken i contents) s = goes_to s (take_snapshot i contents s.raft)
  step applied s = do p ← apply_committed s.raft; goes_to s p.0
  step restarted s = goes_to s (make s.raft.me s.raft.peers s.raft.saved s.raft.saved_snapshot)

  unfoldable pub run : List (Event C D) → Node C D → Option (Node C D)
  unfolding step
  run [] s = some s
  run (e ∷ es) s = do s' ← step e s; run es s'
