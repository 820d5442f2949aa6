-- ===== src/DiskPersister.antt =====
-- ide/diskpersister.go: the two files of a Raft peer, and a crash between their writes. What is
-- encoded in a file stands for its bytes. The cache of the files in memory is left out, and so are
-- errors of the file system, at which the process stops.
pub mod Crash
use collaborative_ide.Raft.{Raft, Persisted, make}
use collaborative_ide.Prelude.{ℕ, Option, none, some, List, [], ◌∷◌, ◌++◌, take}

-- The files, each with the one that it is replaced from. `none` is a file that is not there, or
-- one whose write is not finished.
pub record Disk (S D : Type 0) : Type 0 where
  pub raftstate : Option S
  pub raftstate_tmp : Option S
  pub snapshot : Option D
  pub snapshot_tmp : Option D

-- What `os.WriteFile` and `os.Rename` do, one after the other.
pub data Write (S D : Type 0) : Type 0 where
  truncate_raftstate rename_raftstate truncate_snapshot rename_snapshot : Write S D
  fill_raftstate : S → Write S D
  fill_snapshot : D → Write S D

module _ {S D : Type 0} where
  unfoldable pub write : Write S D → Disk S D → Disk S D
  write truncate_raftstate disk = record disk { raftstate_tmp = none }
  write (fill_raftstate s) disk = record disk { raftstate_tmp = some s }
  write rename_raftstate disk = record disk { raftstate = disk.raftstate_tmp; raftstate_tmp = none }
  write truncate_snapshot disk = record disk { snapshot_tmp = none }
  write (fill_snapshot d) disk = record disk { snapshot_tmp = some d }
  write rename_snapshot disk = record disk { snapshot = disk.snapshot_tmp; snapshot_tmp = none }

  unfoldable pub write_all : List (Write S D) → Disk S D → Disk S D
  unfolding write
  write_all [] disk = disk
  write_all (w ∷ ws) disk = write_all ws (write w disk)

  -- `atomicWrite` of the Raft state, unless it is nil.
  abbrev pub raftstate_writes : Option S → List (Write S D)
  raftstate_writes none = []
  raftstate_writes (some s) = truncate_raftstate ∷ fill_raftstate s ∷ rename_raftstate ∷ []

  -- `atomicWrite` of the snapshot, unless it is nil.
  abbrev pub snapshot_writes : Option D → List (Write S D)
  snapshot_writes none = []
  snapshot_writes (some d) = truncate_snapshot ∷ fill_snapshot d ∷ rename_snapshot ∷ []

  -- Save
  unfoldable pub save : Option S → Option D → Disk S D → Disk S D
  unfolding write_all
  save s d disk = write_all (raftstate_writes s ++ snapshot_writes d) disk

  -- Save, in which the process stops after that many writes.
  unfoldable pub save_until : ℕ → Option S → Option D → Disk S D → Disk S D
  unfolding write_all
  save_until n s d disk = write_all (take n (raftstate_writes s ++ snapshot_writes d)) disk

-- Make on a disk that MakeDiskPersister has opened.
unfoldable pub reopen : {C D : Type 0} → ℕ → ℕ → Disk (Persisted C) D → Raft C D
unfolding make
reopen me peers disk = make me peers disk.raftstate disk.snapshot
