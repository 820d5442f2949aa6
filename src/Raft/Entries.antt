-- ===== src/Raft/Entries.antt =====
-- raft/raft.go: where an index stands in the log.
use collaborative_ide.Raft.{Raft, LogEntry, log_index, entry_at, last_log_index}
use collaborative_ide.Prelude.{
  none, some, refl, true, false, ℕ, ◌≡◌, ◌≤◌, ◌<◌, ◌-◌, ◌>>=◌, Option, Bool, ltb, if◌then◌else◌,
  if_of_false, ◌∙◌, get_elem?, get_elem?-within, length, arith,
}

bind_guard :
    {A B : Type 0} (b : Bool) (x : A) (f : A → Option B)
    → ((if b then none else some x) >>= f) ≡ (if b then none else f x)
bind_guard true x f = refl
bind_guard false x f = refl

module _ {C D : Type 0} where
  pub log_index_above :
      (i : ℕ) (r : Raft C D)
      → r.last_included_index ≤ i
      → log_index i r ≡ some (i - r.last_included_index)
  unfolding log_index
  log_index_above i r above = if_of_false (ltb i r.last_included_index) _ _ (ground arith)

  pub entry_at-log :
      (i : ℕ) (r : Raft C D)
      → entry_at i r ≡ (
          if ltb i r.last_included_index then none else get_elem? r.log (i - r.last_included_index))
  unfolding entry_at log_index
  entry_at-log i r =
      bind_guard (ltb i r.last_included_index) (i - r.last_included_index) (get_elem? r.log)

  pub entry_at_place :
      (i : ℕ) (r : Raft C D)
      → r.last_included_index ≤ i
      → entry_at i r ≡ get_elem? r.log (i - r.last_included_index)
  entry_at_place i r above =
      entry_at-log i r ∙ if_of_false (ltb i r.last_included_index) _ _ (ground arith)

  pub entry_within :
      (i : ℕ) (r : Raft C D)
      → r.last_included_index ≤ i
      → i ≤ last_log_index r
      → 0 < length r.log
      → (e : LogEntry C) × (entry_at i r ≡ some e)
  unfolding last_log_index
  entry_within i r above below h =
      let (e, found) = get_elem?-within r.log (i - r.last_included_index) (omega arith) in
      (e, entry_at-log i r ∙ (if_of_false (ltb i r.last_included_index) _ _ (ground arith) ∙ found))
