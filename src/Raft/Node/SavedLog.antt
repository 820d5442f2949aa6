-- ===== src/Raft/Node/SavedLog.antt =====
-- raft/raft.go: AppendEntries, the snapshots, the replies and Start, as far as the durable state goes.
use collaborative_ide.Raft.Replication.{start}
use collaborative_ide.Raft.Entries.{log_index_above}
use collaborative_ide.Raft.Snapshots.{
  follow_term, install_snapshot, take_snapshot, replace_log, trim_log, base, has_entry,
}
use collaborative_ide.Raft.Replication.{
  accept_leader, follow_commit, store_entries, check_entries, append_entries, note_replica,
  advance_commit, on_append_reply, on_snapshot_reply, as_follower, AppendEntriesArgs, conflict,
  find_commit, commit_to, InstallSnapshotArgs, AppendEntriesReply,
}
use collaborative_ide.Raft.{Raft, LogEntry, log_index, last_log_index, persist, is_leader}
use collaborative_ide.Raft.Node.Saved.{
  IsSaved, Succeeds, persist-IsSaved, volatile-IsSaved, step_down-IsSaved,
}
use collaborative_ide.Prelude.{
  none, some, refl, ℕ, Option, ◌+◌, ◌-◌, arith, ltb, leb, length, if_intro, take, ◌++◌, ◌∷◌, [],
  length-append, length-take, get_elem?, not, get_elem?-within, ◌==◌, Gives-bind, ◌||◌,
  if◌then◌else◌, drop, OnSome, OnSome-bind,
}

module _ {C D : Type 0} where
  accept_leader-IsSaved : (term : ℕ) (r : Raft C D) → IsSaved r → IsSaved (accept_leader term r)
  unfolding accept_leader
  accept_leader-IsSaved term r k =
      if_intro (λ (r' : Raft C D). IsSaved (as_follower r')) (ltb r.current_term term)
        (λ _.
          volatile-IsSaved (persist (record r { current_term = term; voted_for = none })) _ _ _ _ _
            (persist-IsSaved (record r { current_term = term; voted_for = none }) k.nonempty))
        (λ _. volatile-IsSaved r _ _ _ _ _ k)

  follow_commit-IsSaved : (c : ℕ) (r : Raft C D) → IsSaved r → IsSaved (follow_commit c r)
  unfolding follow_commit
  follow_commit-IsSaved c r k =
      if_intro IsSaved (ltb r.commit_index c) (λ _. volatile-IsSaved r _ _ _ _ _ k) (λ _. k)

  store_entries-IsSaved :
      (a : AppendEntriesArgs C) (k : ℕ) (r : Raft C D) → IsSaved r → IsSaved (store_entries a k r).0
  unfolding store_entries
  store_entries-IsSaved a k r h = follow_commit-IsSaved a.leader_commit _ (
      persist-IsSaved (record r { log = take (k + 1) r.log ++ a.entries })
        (omega (
          arith,
          h.nonempty,
          length-append (take (k + 1) r.log) a.entries,
          length-take (k + 1) r.log,
        )))

  check_entries-Succeeds :
      (a : AppendEntriesArgs C) (r : Raft C D) → IsSaved r → Succeeds (check_entries a r)
  unfolding check_entries conflict last_log_index
  check_entries-Succeeds a r h =
      if_intro Succeeds (ltb (last_log_index r) a.prev_log_index) (λ _. (_, refl, h))
        (λ within.
          if_intro Succeeds (ltb a.prev_log_index r.last_included_index) (λ _. (_, refl, h))
            (λ above.
              let k = a.prev_log_index - r.last_included_index in
              let (e, found) = get_elem?-within r.log k (ground (arith, h.nonempty)) in
              Gives-bind saved (log_index a.prev_log_index r) k _
                (log_index_above a.prev_log_index r (ground arith))
                (Gives-bind saved (get_elem? r.log k) e _ found (
                  _,
                  refl,
                  if_intro saved (e.term == a.prev_log_term) (λ _. store_entries-IsSaved a k r h)
                      (λ _. h),
                ))))
    where
      saved : Raft C D × AppendEntriesReply → Type 0
      saved p = IsSaved p.0

  pub append_entries-Succeeds :
      (a : AppendEntriesArgs C) (r : Raft C D) → IsSaved r → Succeeds (append_entries a r)
  unfolding append_entries
  append_entries-Succeeds a r h =
      if_intro Succeeds (ltb a.term r.current_term) (λ _. (_, refl, h))
        (λ _. check_entries-Succeeds a (accept_leader a.term r) (accept_leader-IsSaved a.term r h))

  -- The term may grow without a write.
  follow_term-IsSaved : (term : ℕ) (r : Raft C D) → IsSaved r → IsSaved (follow_term term r)
  unfolding follow_term
  follow_term-IsSaved term r h =
      if_intro (λ (r' : Raft C D). IsSaved (as_follower r')) (ltb r.current_term term)
        (λ up. record {
          log = h.log;
          vote = h.vote;
          base = h.base;
          base_term = h.base_term;
          term = ground (arith, h.term);
          snapshot = h.snapshot;
          nonempty = h.nonempty;
        })
        (λ _. volatile-IsSaved r _ _ _ _ _ h)

  replace_log-IsSaved : (a : InstallSnapshotArgs D) (r : Raft C D) → IsSaved (replace_log a r)
  unfolding replace_log
  replace_log-IsSaved a r =
      let log =
        base a.last_included_term
        ∷ (if has_entry a.last_included_index a.last_included_term r
            then drop (a.last_included_index - r.last_included_index + 1) r.log
            else []) in
      persist-IsSaved
        (record r {
          log = log;
          last_included_index = a.last_included_index;
          last_included_term = a.last_included_term;
          snapshot = a.contents;
          commit_index =
              if ltb r.commit_index a.last_included_index
              then a.last_included_index
              else r.commit_index;
        })
        (omega arith)

  trim_log-IsSaved :
      (i : ℕ) (contents : D) (r : Raft C D) (e : LogEntry C) → IsSaved (trim_log i contents r e)
  unfolding trim_log
  trim_log-IsSaved i contents r e =
      persist-IsSaved
        (record r {
          last_included_term = e.term;
          last_included_index = i;
          log = base e.term ∷ drop (i - r.last_included_index + 1) r.log;
          snapshot = some contents;
        })
        (omega arith)

  pub install_snapshot-IsSaved :
      (a : InstallSnapshotArgs D) (r : Raft C D) → IsSaved r → IsSaved (install_snapshot a r).0
  unfolding install_snapshot
  install_snapshot-IsSaved a r h =
      if_intro (λ (p : Raft C D × ℕ). IsSaved p.0) (ltb a.term r.current_term) (λ _. h)
        (λ _.
          if_intro IsSaved (leb a.last_included_index r.last_included_index)
            (λ _. follow_term-IsSaved a.term r h)
            (λ _. replace_log-IsSaved a (follow_term a.term r)))

  pub take_snapshot-IsSaved :
      (i : ℕ) (contents : D) (r : Raft C D) → IsSaved r → IsSaved (take_snapshot i contents r)
  unfolding take_snapshot
  take_snapshot-IsSaved i contents r h =
      if_intro IsSaved (leb i r.last_included_index) (λ _. h)
        (λ _.
          elim (get_elem? r.log (i - r.last_included_index))
            as (λ o. IsSaved (elim o [ none ↦ r | some e ↦ trim_log i contents r e ])) [
              | none ↦ h
              | some e ↦ trim_log-IsSaved i contents r e
            ])

  pub start-IsSaved : (c : C) (r : Raft C D) → IsSaved r → IsSaved (start c r).0
  unfolding start
  start-IsSaved c r h =
      let entry : LogEntry C = record { term = r.current_term; command = some c } in
      if_intro (λ (p : Raft C D × (Option ℕ × ℕ)). IsSaved p.0) (is_leader r.role)
        (λ _.
          persist-IsSaved (record r { log = r.log ++ entry ∷ [] })
            (omega (arith, h.nonempty, length-append r.log (entry ∷ []))))
        (λ _. h)

  note_replica-IsSaved :
      (target i : ℕ) (r : Raft C D) → IsSaved r → IsSaved (note_replica target i r)
  unfolding note_replica
  note_replica-IsSaved target i r h = volatile-IsSaved r _ _ _ _ _ h

  advance_commit-IsSaved : (t : ℕ) (r : Raft C D) → IsSaved r → OnSome IsSaved (advance_commit t r)
  unfolding advance_commit
  advance_commit-IsSaved t r h =
      OnSome-bind IsSaved (find_commit t (last_log_index r - r.commit_index) r) _ (λ o _. go o)
    where
      go : (o : Option ℕ) → IsSaved (commit_to o r)
      go none = h
      go (some i) = volatile-IsSaved r _ _ _ _ _ h

  pub on_append_reply-IsSaved :
      (term target : ℕ) (a : AppendEntriesArgs C) (reply : AppendEntriesReply) (r : Raft C D)
      → IsSaved r
      → OnSome IsSaved (on_append_reply term target a reply r)
  unfolding on_append_reply
  on_append_reply-IsSaved term target a reply r h =
      if_intro (OnSome IsSaved) (ltb term reply.term) (λ _. step_down-IsSaved reply.term r h)
        (λ _.
          if_intro (OnSome IsSaved) (not (r.current_term == term) || not (is_leader r.role))
            (λ _. h)
            (λ _.
              if_intro (OnSome IsSaved) reply.success
                (λ _.
                  advance_commit-IsSaved term _
                    (note_replica-IsSaved target (a.prev_log_index + length a.entries) r h))
                (λ _. volatile-IsSaved r _ _ _ _ _ h)))

  pub on_snapshot_reply-IsSaved :
      (term target : ℕ) (a : InstallSnapshotArgs D) (reply : ℕ) (r : Raft C D)
      → IsSaved r
      → IsSaved (on_snapshot_reply term target a reply r)
  unfolding on_snapshot_reply
  on_snapshot_reply-IsSaved term target a reply r h =
      if_intro IsSaved (ltb term reply) (λ _. step_down-IsSaved reply r h)
        (λ _.
          if_intro IsSaved (not (r.current_term == term) || not (is_leader r.role)) (λ _. h)
            (λ _. note_replica-IsSaved target a.last_included_index r h))
