-- ===== src/Raft/Node/Covered.antt =====
-- raft/raft.go: the base of the log and the commit index over the events of a node.
use collaborative_ide.Raft.Replication.Committed.{advance_commit_lem}
use collaborative_ide.Raft.{
  Raft, LogEntry, log_index, entry_at, last_log_index, persist, step_down, is_leader, is_candidate,
}
use collaborative_ide.Raft.Elections.{
  RequestVoteArgs, RequestVoteReply, request_vote, decide_vote, grant_vote, may_vote, is_up_to_date,
  start_election, on_vote_reply, become_leader, votes_needed,
}
use collaborative_ide.Raft.Replication.{
  AppendEntriesArgs, AppendEntriesReply, InstallSnapshotArgs, append_entries, accept_leader,
  as_follower, check_entries, store_entries, follow_commit, conflict, on_append_reply,
  on_snapshot_reply, advance_commit, note_replica, start,
}
use collaborative_ide.Raft.Snapshots.{
  take_snapshot, trim_log, install_snapshot, replace_log, follow_term, apply_committed,
  committed_entries,
}
use collaborative_ide.Prelude.{
  refl, none, some, inl, inr, [], ◌∷◌, ℕ, ◌≡◌, ◌+◌, ◌-◌, ◌==◌, ◌||◌, not, ltb, leb, length,
  get_elem?, if_intro, if◌then◌else◌, OnSome, OnSome-bind, Option, OnSome-map, ◌≤◌, ◌<◌,
  get_elem?-bound, arith, List, take, Gives, Gives-OnSome, ◌++◌, ap, length-append, length-take,
}
use collaborative_ide.Raft.Node.{
  Event, Node, step, vote_asked, entries_sent, snapshot_sent, timed_out, vote_replied,
  entries_replied, snapshot_replied, started, snapshot_taken, applied, restarted, after_vote,
  after_election,
}
use collaborative_ide.Raft.{Persisted, make, read_persist, resume}

module _ {C D : Type 0} where
  -- The log begins at the commit index at the latest.
  abbrev pub IsCovered : Raft C D → Type 0
  IsCovered r = r.last_included_index ≤ r.commit_index

  -- So has the node of a result.
  abbrev pub Covers : {X : Type 0} → Raft C D × X → Type 0
  Covers p = p.0.last_included_index ≤ p.0.commit_index

  step_down-IsCovered : (term : ℕ) (r : Raft C D) → IsCovered r → IsCovered (step_down term r)
  unfolding step_down persist
  step_down-IsCovered term r k = k

  decide_vote-Covers :
      (a : RequestVoteArgs) (r : Raft C D) → IsCovered r → OnSome Covers (decide_vote a r)
  unfolding decide_vote grant_vote persist
  decide_vote-Covers a r k =
      if_intro (OnSome Covers) (may_vote r.voted_for a.candidate_id)
        (λ _. OnSome-bind Covers (entry_at (last_log_index r) r) _ (λ last _.
          if_intro Covers (is_up_to_date a (last_log_index r) last.term) (λ _. k) (λ _. k)))
        (λ _. k)

  pub request_vote-Covers :
      (a : RequestVoteArgs) (r : Raft C D) → IsCovered r → OnSome Covers (request_vote a r)
  unfolding request_vote
  request_vote-Covers a r k =
      if_intro (OnSome Covers) (ltb a.term r.current_term) (λ _. k)
        (λ _.
          if_intro (λ r'. OnSome Covers (decide_vote a r')) (ltb r.current_term a.term)
            (λ _. decide_vote-Covers a (step_down a.term r) (step_down-IsCovered a.term r k))
            (λ _. decide_vote-Covers a r k))

  pub start_election-Covers : (r : Raft C D) → IsCovered r → OnSome Covers (start_election r)
  unfolding start_election persist
  start_election-Covers r k =
      if_intro (OnSome Covers) (is_leader r.role) (λ _. k)
        (λ _. OnSome-bind Covers (entry_at (last_log_index r) r) _ (λ last _. k))

  pub on_vote_reply-Covers :
      (term votes : ℕ) (reply : RequestVoteReply) (r : Raft C D)
      → IsCovered r
      → Covers (on_vote_reply term votes reply r)
  unfolding on_vote_reply become_leader
  on_vote_reply-Covers term votes reply r k =
      if_intro Covers (ltb term reply.term) (λ _. step_down-IsCovered reply.term r k)
        (λ _.
          if_intro Covers (not (r.current_term == term) || not (is_candidate r.role)) (λ _. k)
            (λ _.
              if_intro IsCovered
                (leb (votes_needed r) (if reply.vote_granted then votes + 1 else votes)) (λ _. k)
                (λ _. k)))

  follow_commit-IsCovered :
      (c : ℕ) (r : Raft C D) → 0 < length r.log → IsCovered r → IsCovered (follow_commit c r)
  unfolding follow_commit last_log_index
  follow_commit-IsCovered c r filled k = ground (arith, k, filled)

  store_entries-Covers :
      (a : AppendEntriesArgs C) (i : ℕ) (e : LogEntry C) (r : Raft C D)
      → get_elem? r.log i ≡ some e
      → IsCovered r
      → Covers (store_entries a i r)
  unfolding store_entries persist
  store_entries-Covers a i e r found k =
      let short = get_elem?-bound r.log i e found in
      follow_commit-IsCovered a.leader_commit
        (persist (record r { log = take (i + 1) r.log ++ a.entries }))
        (omega
          (arith, short, length-append (take (i + 1) r.log) a.entries, length-take (i + 1) r.log))
        k

  check_entries-Covers :
      (a : AppendEntriesArgs C) (r : Raft C D) → IsCovered r → OnSome Covers (check_entries a r)
  unfolding check_entries conflict
  check_entries-Covers a r k =
      if_intro (OnSome Covers) (ltb (last_log_index r) a.prev_log_index) (λ _. k)
        (λ _.
          if_intro (OnSome Covers) (ltb a.prev_log_index r.last_included_index) (λ _. k)
            (λ _. OnSome-bind Covers (log_index a.prev_log_index r) _ (λ prev _.
              OnSome-bind Covers (get_elem? r.log prev) _ (λ e found.
                if_intro Covers (e.term == a.prev_log_term)
                  (λ _. store_entries-Covers a prev e r found k) (λ _. k)))))

  pub append_entries-Covers :
      (a : AppendEntriesArgs C) (r : Raft C D) → IsCovered r → OnSome Covers (append_entries a r)
  unfolding append_entries accept_leader persist
  append_entries-Covers a r k =
      if_intro (OnSome Covers) (ltb a.term r.current_term) (λ _. k)
        (λ _.
          if_intro (λ (r' : Raft C D). OnSome Covers (check_entries a (as_follower r')))
            (ltb r.current_term a.term)
            (λ _.
              check_entries-Covers a
                (as_follower (persist (record r { current_term = a.term; voted_for = none }))) k)
            (λ _. check_entries-Covers a (as_follower r) k))

  replace_log-IsCovered : (a : InstallSnapshotArgs D) (r : Raft C D) → IsCovered (replace_log a r)
  unfolding replace_log persist
  replace_log-IsCovered a r = ground arith

  pub install_snapshot-Covers :
      (a : InstallSnapshotArgs D) (r : Raft C D) → IsCovered r → Covers (install_snapshot a r)
  unfolding install_snapshot follow_term
  install_snapshot-Covers a r k =
      if_intro Covers (ltb a.term r.current_term) (λ _. k)
        (λ _.
          if_intro IsCovered (leb a.last_included_index r.last_included_index)
            (λ _.
              if_intro (λ (r' : Raft C D). IsCovered (as_follower r')) (ltb r.current_term a.term)
                (λ _. k) (λ _. k))
            (λ _. replace_log-IsCovered a (follow_term a.term r)))

  pub take_snapshot-IsCovered :
      (i : ℕ) (contents : D) (r : Raft C D)
      → i ≤ r.commit_index
      → IsCovered r
      → IsCovered (take_snapshot i contents r)
  unfolding take_snapshot trim_log persist
  take_snapshot-IsCovered i contents r below k =
      if_intro IsCovered (leb i r.last_included_index) (λ _. k)
        (λ _.
          elim (get_elem? r.log (i - r.last_included_index))
            as (λ o. IsCovered (elim o [ none ↦ r | some e ↦ trim_log i contents r e ])) [
              | none ↦ k
              | some e ↦ below
            ])

  pub start-Covers : (c : C) (r : Raft C D) → IsCovered r → Covers (start c r)
  unfolding start persist
  start-Covers c r k = if_intro Covers (is_leader r.role) (λ _. k) (λ _. k)

  advance_commit-IsCovered :
      (t : ℕ) (r : Raft C D) → 0 < length r.log → IsCovered r → Gives IsCovered (advance_commit t r)
  advance_commit-IsCovered t r filled k =
      let (r', found, only, moved, greatest) = advance_commit_lem t r k filled in
      let base : r'.last_included_index ≡ r.last_included_index =
        ap (λ x. x.last_included_index) only in
      (
        r',
        found,
        elim moved [
          | inl same ↦ omega (arith, k, base, same)
          | inr (above, within, has) ↦ omega (arith, k, base, above)
        ],
      )

  pub on_append_reply-IsCovered :
      (term target : ℕ) (a : AppendEntriesArgs C) (reply : AppendEntriesReply) (r : Raft C D)
      → 0 < length r.log
      → IsCovered r
      → Gives IsCovered (on_append_reply term target a reply r)
  unfolding on_append_reply note_replica
  on_append_reply-IsCovered term target a reply r filled k =
      if_intro (Gives IsCovered) (ltb term reply.term)
        (λ _. (_, refl, step_down-IsCovered reply.term r k))
        (λ _.
          if_intro (Gives IsCovered) (not (r.current_term == term) || not (is_leader r.role))
            (λ _. (_, refl, k))
            (λ _.
              if_intro (Gives IsCovered) reply.success
                (λ _.
                  advance_commit-IsCovered term
                    (note_replica target (a.prev_log_index + length a.entries) r) filled k)
                (λ _. (_, refl, k))))

  pub on_snapshot_reply-IsCovered :
      (term target : ℕ) (a : InstallSnapshotArgs D) (reply : ℕ) (r : Raft C D)
      → IsCovered r
      → IsCovered (on_snapshot_reply term target a reply r)
  unfolding on_snapshot_reply note_replica
  on_snapshot_reply-IsCovered term target a reply r k =
      if_intro IsCovered (ltb term reply) (λ _. step_down-IsCovered reply r k)
        (λ _.
          if_intro IsCovered (not (r.current_term == term) || not (is_leader r.role)) (λ _. k)
            (λ _. k))

  apply_committed-Covers : (r : Raft C D) → IsCovered r → OnSome Covers (apply_committed r)
  unfolding apply_committed
  apply_committed-Covers r k =
      if_intro (OnSome Covers) (ltb r.last_applied r.last_included_index) (λ _. k)
        (λ _.
          if_intro (OnSome Covers) (ltb r.last_applied r.commit_index)
            (λ _. OnSome-bind Covers (committed_entries r) _ (λ es _. k)) (λ _. k))

  pub make-IsCovered :
      (me peers : ℕ) (saved : Option (Persisted C)) (snapshot : Option D)
      → IsCovered (make me peers saved snapshot)
  unfolding make read_persist resume
  make-IsCovered me peers none snapshot = omega arith
  make-IsCovered me peers (some s) snapshot = omega arith

  abbrev Holds : Node C D → Type 0
  Holds s = IsCovered s.raft

  -- The service takes a snapshot of what it was handed, so at an index that is committed.
  abbrev pub IsTaken : Event C D → Raft C D → Type 0
  IsTaken (snapshot_taken i contents) r = i ≤ r.commit_index
  IsTaken _ r = Unit

  abbrev pub AreTaken : List (Event C D) → Node C D → Type 0
  AreTaken [] s = Unit
  AreTaken (e ∷ es) s = IsTaken e s.raft × OnSome (AreTaken es) (step e s)

  pub step-IsCovered :
      (e : Event C D) (s : Node C D)
      → IsTaken e s.raft
      → 0 < length s.raft.log
      → Holds s
      → OnSome Holds (step e s)
  unfolding step after_vote after_election
  step-IsCovered (vote_asked a) s t n k =
      OnSome-map Covers Holds (request_vote a s.raft) (after_vote a s) (λ p h. h)
        (request_vote-Covers a s.raft k)
  step-IsCovered (entries_sent a) s t n k =
      OnSome-map Covers Holds (append_entries a s.raft) _ (λ p h. h)
        (append_entries-Covers a s.raft k)
  step-IsCovered (snapshot_sent a) s t n k = install_snapshot-Covers a s.raft k
  step-IsCovered timed_out s t n k =
      OnSome-map Covers Holds (start_election s.raft) (after_election s) (λ p h. h)
        (start_election-Covers s.raft k)
  step-IsCovered (vote_replied term votes reply) s t n k =
      on_vote_reply-Covers term votes reply s.raft k
  step-IsCovered (entries_replied term target a reply) s t n k =
      OnSome-map IsCovered Holds (on_append_reply term target a reply s.raft) _ (λ r h. h)
        (Gives-OnSome IsCovered (on_append_reply term target a reply s.raft)
          (on_append_reply-IsCovered term target a reply s.raft n k))
  step-IsCovered (snapshot_replied term target a reply) s t n k =
      on_snapshot_reply-IsCovered term target a reply s.raft k
  step-IsCovered (started c) s t n k = start-Covers c s.raft k
  step-IsCovered (snapshot_taken i contents) s t n k = take_snapshot-IsCovered i contents s.raft t k
  step-IsCovered applied s t n k =
      OnSome-map Covers Holds (apply_committed s.raft) _ (λ p h. h)
        (apply_committed-Covers s.raft k)
  step-IsCovered restarted s t n k =
      make-IsCovered s.raft.me s.raft.peers s.raft.saved s.raft.saved_snapshot
