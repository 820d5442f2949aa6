-- ===== src/Raft/Node/Restart.antt =====
-- raft/raft.go: a restart after any events, and the accesses to the log over all events.
use collaborative_ide.Raft.Replication.{AppendEntriesArgs, AppendEntriesReply}
use collaborative_ide.Raft.Node.Saved.{IsSaved}
use collaborative_ide.Raft.Node.{Event, Node, entries_replied, applied}
use collaborative_ide.Raft.{Raft}
use collaborative_ide.Prelude.{ℕ, ◌≡◌, ◌⊎◌}

-- Every event but a round of `applier`.
abbrev pub IsHandled : {C D : Type 0} → Event C D → Type 0
IsHandled applied = ⊥
IsHandled _ = Unit

-- Nor a reply to AppendEntries.
abbrev IsPlain : {C D : Type 0} → Event C D → Type 0
IsPlain applied = ⊥
IsPlain (entries_replied term target a reply) = ⊥
IsPlain _ = Unit

module _ {C D : Type 0} where
  abbrev IsSafe : Node C D → Type 0
  IsSafe s = IsSaved s.raft

  -- The two kinds of events that may fail.
  abbrev IsOther : Event C D → Type 0
  IsOther e =
      (e ≡ applied)
      ⊎ ((term : ℕ) × (target : ℕ) × (a : AppendEntriesArgs C) × (reply : AppendEntriesReply) × (e
            ≡ entries_replied term target a reply))
