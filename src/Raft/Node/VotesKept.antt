-- ===== src/Raft/Node/VotesKept.antt =====
-- raft/raft.go: AppendEntries, the snapshots, Start and Make, as far as a vote goes.
use collaborative_ide.Raft.Node.Votes.{
  AreKept, AreBound, same-AreKept, persist-AreKept, AreBound-later, saved_term, saved_vote,
  AreSingle,
}
use collaborative_ide.Raft.Replication.{start}
use collaborative_ide.Raft.Snapshots.{
  follow_term, install_snapshot, take_snapshot, apply_committed, replace_log, trim_log,
  committed_entries, ApplyMsg,
}
use collaborative_ide.Raft.Replication.{
  start, accept_leader, check_entries, AppendEntriesArgs, AppendEntriesReply, store_entries,
  conflict, follow_commit, append_entries, as_follower, InstallSnapshotArgs,
}
use collaborative_ide.Prelude.{
  refl, ltb→lt, ◌+◌, ◌==◌, get_elem?, if_intro, OnSome, OnSome-bind, take, leb, ◌++◌, ◌-◌,
}
use collaborative_ide.Raft.{
  Raft, Persisted, persist, is_leader, last_log_index, log_index, make, read_persist, resume,
}
use collaborative_ide.Prelude.{none, some, ℕ, Option, List, ltb}

module _ {C D : Type 0} where
  accept_leader-AreKept :
      (votes : List (ℕ × ℕ)) (term : ℕ) (r : Raft C D)
      → AreKept votes r
      → AreKept votes (accept_leader term r)
  unfolding accept_leader
  accept_leader-AreKept votes term r k =
      if_intro (λ (r' : Raft C D). AreKept votes (as_follower r')) (ltb r.current_term term)
        (λ up.
          let r' = record r { current_term = term; voted_for = none } in
          same-AreKept votes (persist r') (as_follower (persist r')) refl refl refl (
            persist-AreKept votes r' k.single (
              AreBound-later r.current_term term r.voted_for none votes
                (ltb→lt r.current_term term up) k.here)))
        (λ _. same-AreKept votes r (as_follower r) refl refl refl k)

  follow_commit-AreKept :
      (votes : List (ℕ × ℕ)) (c : ℕ) (r : Raft C D)
      → AreKept votes r
      → AreKept votes (follow_commit c r)
  unfolding follow_commit
  follow_commit-AreKept votes c r k =
      if_intro (AreKept votes) (ltb r.commit_index c) (λ _. same-AreKept votes r _ refl refl refl k)
        (λ _. k)

  check_entries-AreKept :
      (votes : List (ℕ × ℕ)) (a : AppendEntriesArgs C) (r : Raft C D)
      → AreKept votes r
      → OnSome (λ (p : Raft C D × AppendEntriesReply). AreKept votes p.0) (check_entries a r)
  unfolding check_entries store_entries conflict
  check_entries-AreKept votes a r k =
      if_intro (OnSome (λ (p : Raft C D × AppendEntriesReply). AreKept votes p.0))
        (ltb (last_log_index r) a.prev_log_index) (λ _. k)
        (λ _.
          if_intro (OnSome (λ (p : Raft C D × AppendEntriesReply). AreKept votes p.0))
            (ltb a.prev_log_index r.last_included_index) (λ _. k)
            (λ _.
              OnSome-bind (λ (p : Raft C D × AppendEntriesReply). AreKept votes p.0)
                (log_index a.prev_log_index r) _
                (λ prev _.
                  OnSome-bind (λ (p : Raft C D × AppendEntriesReply). AreKept votes p.0)
                    (get_elem? r.log prev) _
                    (λ e _.
                      if_intro (λ (p : Raft C D × AppendEntriesReply). AreKept votes p.0)
                        (e.term == a.prev_log_term)
                        (λ _. follow_commit-AreKept votes a.leader_commit _ (
                          persist-AreKept votes
                            (record r { log = take (prev + 1) r.log ++ a.entries }) k.single
                            k.here))
                        (λ _. k)))))

  pub append_entries-AreKept :
      (votes : List (ℕ × ℕ)) (a : AppendEntriesArgs C) (r : Raft C D)
      → AreKept votes r
      → OnSome (λ (p : Raft C D × AppendEntriesReply). AreKept votes p.0) (append_entries a r)
  unfolding append_entries
  append_entries-AreKept votes a r k =
      if_intro (OnSome (λ (p : Raft C D × AppendEntriesReply). AreKept votes p.0))
        (ltb a.term r.current_term) (λ _. k)
        (λ _.
          check_entries-AreKept votes a (accept_leader a.term r)
            (accept_leader-AreKept votes a.term r k))

  follow_term-AreKept :
      (votes : List (ℕ × ℕ)) (term : ℕ) (r : Raft C D)
      → AreKept votes r
      → AreKept votes (follow_term term r)
  unfolding follow_term
  follow_term-AreKept votes term r k =
      if_intro (λ (r' : Raft C D). AreKept votes (as_follower r')) (ltb r.current_term term)
        (λ up. record {
          single = k.single;
          here =
              AreBound-later r.current_term term r.voted_for r.voted_for votes
                (ltb→lt r.current_term term up) k.here;
          saved = k.saved;
        })
        (λ _. same-AreKept votes r (as_follower r) refl refl refl k)

  pub install_snapshot-AreKept :
      (votes : List (ℕ × ℕ)) (a : InstallSnapshotArgs D) (r : Raft C D)
      → AreKept votes r
      → AreKept votes (install_snapshot a r).0
  unfolding install_snapshot replace_log persist
  install_snapshot-AreKept votes a r k =
      if_intro (λ (p : Raft C D × ℕ). AreKept votes p.0) (ltb a.term r.current_term) (λ _. k)
        (λ _.
          if_intro (AreKept votes) (leb a.last_included_index r.last_included_index)
            (λ _. follow_term-AreKept votes a.term r k)
            (λ _.
              let h = (follow_term-AreKept votes a.term r k).here in
              record { single = k.single; here = h; saved = h }))

  pub take_snapshot-AreKept :
      (votes : List (ℕ × ℕ)) (i : ℕ) (contents : D) (r : Raft C D)
      → AreKept votes r
      → AreKept votes (take_snapshot i contents r)
  unfolding take_snapshot trim_log persist
  take_snapshot-AreKept votes i contents r k =
      if_intro (AreKept votes) (leb i r.last_included_index) (λ _. k)
        (λ _.
          elim (get_elem? r.log (i - r.last_included_index))
            as (λ o. AreKept votes (elim o [ none ↦ r | some e ↦ trim_log i contents r e ])) [
              | none ↦ k
              | some e ↦ record { single = k.single; here = k.here; saved = k.here }
            ])

  pub start-AreKept :
      (votes : List (ℕ × ℕ)) (c : C) (r : Raft C D) → AreKept votes r → AreKept votes (start c r).0
  unfolding start persist
  start-AreKept votes c r k =
      if_intro (λ (p : Raft C D × (Option ℕ × ℕ)). AreKept votes p.0) (is_leader r.role)
        (λ _. record { single = k.single; here = k.here; saved = k.here }) (λ _. k)

  pub apply_committed-AreKept :
      (votes : List (ℕ × ℕ)) (r : Raft C D)
      → AreKept votes r
      → OnSome (λ (p : Raft C D × List (ApplyMsg C D)). AreKept votes p.0) (apply_committed r)
  unfolding apply_committed
  apply_committed-AreKept votes r k =
      if_intro (OnSome (λ (p : Raft C D × List (ApplyMsg C D)). AreKept votes p.0))
        (ltb r.last_applied r.last_included_index) (λ _. same-AreKept votes r _ refl refl refl k)
        (λ _.
          if_intro (OnSome (λ (p : Raft C D × List (ApplyMsg C D)). AreKept votes p.0))
            (ltb r.last_applied r.commit_index)
            (λ _.
              OnSome-bind (λ (p : Raft C D × List (ApplyMsg C D)). AreKept votes p.0)
                (committed_entries r) _ (λ es _. same-AreKept votes r _ refl refl refl k))
            (λ _. k))

  pub make-AreKept :
      (votes : List (ℕ × ℕ)) (me peers : ℕ) (saved : Option (Persisted C)) (snapshot : Option D)
      → AreSingle votes
      → AreBound (saved_term saved) (saved_vote saved) votes
      → AreKept votes (make me peers saved snapshot)
  unfolding make read_persist resume
  make-AreKept votes me peers none snapshot o h = record { single = o; here = h; saved = h }
  make-AreKept votes me peers (some s) snapshot o h = record { single = o; here = h; saved = h }
