-- ===== src/DiskPersister/Crash.antt =====
-- ide/diskpersister.go with raft/raft.go: Save and Make around a crash.
use collaborative_ide.DiskPersister.{
  Disk, write, write_all, raftstate_writes, snapshot_writes, save, save_until, reopen,
}
use collaborative_ide.Raft.{Raft, Persisted, entry_at}
use collaborative_ide.Prelude.{
  ℕ, zero, suc, Option, none, some, refl, inl, inr, ◌≡◌, ◌<◌, ◌⊎◌, take,
}

-- The value, or else the other.
abbrev pub or_old : {A : Type 0} → Option A → Option A → Option A
or_old none old = old
or_old (some a) old = some a

module _ {S D : Type 0} where
  save_whole :
      (s : Option S) (d : Option D) (disk : Disk S D)
      → ((save s d disk).raftstate ≡ or_old s disk.raftstate)
        × ((save s d disk).snapshot ≡ or_old d disk.snapshot)
  unfolding save write_all write
  save_whole none none disk = (refl, refl)
  save_whole none (some d) disk = (refl, refl)
  save_whole (some s) none disk = (refl, refl)
  save_whole (some s) (some d) disk = (refl, refl)

  -- Each file is the old one or the new one, and the snapshot is new only if the state is.
  abbrev pub IsWhole : Option S → Option D → Disk S D → Disk S D → Type 0
  IsWhole s d disk disk' =
      ((disk'.raftstate ≡ disk.raftstate) × (disk'.snapshot ≡ disk.snapshot))
      ⊎ ((disk'.raftstate ≡ or_old s disk.raftstate)
          × ((disk'.snapshot ≡ disk.snapshot) ⊎ (disk'.snapshot ≡ or_old d disk.snapshot)))

  snapshot_until :
      (n : ℕ) (d : Option D) (disk : Disk S D)
      → ((write_all (take n (snapshot_writes d)) disk).raftstate ≡ disk.raftstate)
        × (((write_all (take n (snapshot_writes d)) disk).snapshot ≡ disk.snapshot)
            ⊎ ((write_all (take n (snapshot_writes d)) disk).snapshot ≡ or_old d disk.snapshot))
  unfolding write_all write
  snapshot_until zero d disk = (refl, inl refl)
  snapshot_until (suc n) none disk = (refl, inl refl)
  snapshot_until (suc zero) (some d) disk = (refl, inl refl)
  snapshot_until (suc (suc zero)) (some d) disk = (refl, inl refl)
  snapshot_until (suc (suc (suc zero))) (some d) disk = (refl, inr refl)
  snapshot_until (suc (suc (suc (suc n)))) (some d) disk = (refl, inr refl)

  -- Wherever the process stops in Save, each of the two files is whole, the old one or the new one,
  -- and the snapshot is not new with an old state; a Save that ends has replaced what it was given.
  pub save_until_lem :
      (n : ℕ) (s : Option S) (d : Option D) (disk : Disk S D)
      → IsWhole s d disk (save_until n s d disk)
        × ((save s d disk).raftstate ≡ or_old s disk.raftstate)
        × ((save s d disk).snapshot ≡ or_old d disk.snapshot)
  unfolding save_until write_all write
  save_until_lem n s d disk =
      let (state, snapshot) = save_whole s d disk in (go n s, state, snapshot)
    where
      go : (n : ℕ) (s : Option S) → IsWhole s d disk (save_until n s d disk)
      go n none = inr (snapshot_until n d disk)
      go zero (some s) = inl (refl, refl)
      go (suc zero) (some s) = inl (refl, refl)
      go (suc (suc zero)) (some s) = inl (refl, refl)
      go (suc (suc (suc n))) (some s) =
          inr (snapshot_until n d (write_all (raftstate_writes (some s)) disk))

module _ {C D : Type 0} where
  -- What a node has when it starts on what it and its persister left.
  restarted : ℕ → ℕ → Raft C D → Disk (Persisted C) D → Raft C D
  restarted me peers r disk = reopen me peers (save_until 3 r.saved r.snapshot disk)

  IsTorn : ℕ → Disk (Persisted C) D → Raft C D → Type 0
  IsTorn i disk r =
      (r.last_included_index ≡ i)
      × (r.last_applied ≡ i)
      × (r.snapshot ≡ disk.snapshot)
      × ((j : ℕ) → j < i → entry_at j r ≡ none)
