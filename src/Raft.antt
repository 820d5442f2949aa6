-- ===== src/Raft.antt =====
-- raft/raft.go: the state of one node, its durable part, and what all its operations use. A term and
-- an index are natural numbers; `votedFor` is `none` for -1. An access outside the log is `none`,
-- which stands for a panic. The timers are left out: that one has run out is an event.
pub mod Entries
pub mod Elections
pub mod Replication
pub mod Snapshots
pub mod Node
use collaborative_ide.Prelude.{
  ℕ, ◌+◌, ◌-◌, Bool, true, false, Option, none, some, List, [], ◌∷◌, length, get_elem?, ltb,
  if◌then◌else◌, ◌>>=◌,
}

pub data Role : Type 0 where
  follower candidate leader : Role

abbrev pub is_leader : Role → Bool
is_leader leader = true
is_leader _ = false

abbrev pub is_candidate : Role → Bool
is_candidate candidate = true
is_candidate _ = false

-- The entry at the base of the log has no command.
pub record LogEntry (C : Type 0) : Type 0 where
  pub term : ℕ
  pub command : Option C

-- What `persist` encodes. That what labgob encodes it decodes to the same is the codec's.
pub record Persisted (C : Type 0) : Type 0 where
  pub current_term : ℕ
  pub voted_for : Option ℕ
  pub log : List (LogEntry C)
  pub last_included_index : ℕ
  pub last_included_term : ℕ

-- `peers` is their number; `saved` and `saved_snapshot` are what the persister holds.
pub record Raft (C D : Type 0) : Type 0 where
  pub me : ℕ
  pub peers : ℕ
  pub current_term : ℕ
  pub voted_for : Option ℕ
  pub role : Role
  pub log : List (LogEntry C)
  pub commit_index : ℕ
  pub last_applied : ℕ
  pub next_index : List ℕ
  pub match_index : List ℕ
  pub last_included_index : ℕ
  pub last_included_term : ℕ
  pub snapshot : Option D
  pub saved : Option (Persisted C)
  pub saved_snapshot : Option D

module _ {C D : Type 0} where
  -- `logIndex`; a negative one is no index.
  unfoldable pub log_index : ℕ → Raft C D → Option ℕ
  log_index i r = if ltb i r.last_included_index then none else some (i - r.last_included_index)

  -- `rf.log[rf.logIndex(i)]`
  unfoldable pub entry_at : ℕ → Raft C D → Option (LogEntry C)
  unfolding log_index
  entry_at i r = do k ← log_index i r; get_elem? r.log k

  unfoldable pub last_log_index : Raft C D → ℕ
  last_log_index r = length r.log + r.last_included_index - 1

  -- A snapshot that is nil leaves the stored one as it is. This is a Save that ends; its writes, and a
  -- process that stops between them, are in DiskPersister.
  unfoldable pub persist : Raft C D → Raft C D
  persist r = record r {
    saved = some (record {
      current_term = r.current_term;
      voted_for = r.voted_for;
      log = r.log;
      last_included_index = r.last_included_index;
      last_included_term = r.last_included_term;
    });
    saved_snapshot = elim r.snapshot [ none ↦ r.saved_snapshot | some d ↦ some d ];
  }

  -- `readPersist`, on what the persister holds.
  unfoldable pub read_persist : Option (Persisted C) → Raft C D → Raft C D
  read_persist none r = r
  read_persist (some s) r = record r {
    current_term = s.current_term;
    voted_for = s.voted_for;
    log = s.log;
    last_included_index = s.last_included_index;
    last_included_term = s.last_included_term;
  }

  -- What `Make` sets once the durable state is read.
  unfoldable pub resume : Raft C D → Raft C D
  resume r = record r { last_applied = r.last_included_index; commit_index = r.last_included_index }

  -- `Make`, on a persister.
  unfoldable pub make : ℕ → ℕ → Option (Persisted C) → Option D → Raft C D
  unfolding read_persist resume
  make me peers saved saved_snapshot = resume (
      read_persist saved (record {
        me = me;
        peers = peers;
        current_term = 0;
        voted_for = none;
        role = follower;
        log = record { term = 0; command = none } ∷ [];
        commit_index = 0;
        last_applied = 0;
        next_index = [];
        match_index = [];
        last_included_index = 0;
        last_included_term = 0;
        snapshot = saved_snapshot;
        saved = saved;
        saved_snapshot = saved_snapshot;
      }))

  -- What a reply of a greater term does: the assignments are the same for all three replies, and for
  -- RequestVote.
  unfoldable pub step_down : ℕ → Raft C D → Raft C D
  unfolding persist
  step_down term r = persist (record r { current_term = term; role = follower; voted_for = none })
