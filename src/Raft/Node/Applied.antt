-- ===== src/Raft/Node/Applied.antt =====
-- raft/raft.go: what the handlers and the replies do to `lastApplied`.
use collaborative_ide.Raft.{
  Raft, log_index, entry_at, last_log_index, persist, step_down, is_leader, is_candidate,
}
use collaborative_ide.Raft.Elections.{
  RequestVoteArgs, RequestVoteReply, request_vote, decide_vote, grant_vote, may_vote, is_up_to_date,
  start_election, on_vote_reply, become_leader, votes_needed,
}
use collaborative_ide.Raft.Replication.{
  AppendEntriesArgs, AppendEntriesReply, InstallSnapshotArgs, append_entries, accept_leader,
  as_follower, check_entries, store_entries, follow_commit, conflict, on_append_reply,
  on_snapshot_reply, advance_commit, find_commit, commit_to, note_replica, start,
}
use collaborative_ide.Raft.Snapshots.{
  take_snapshot, trim_log, install_snapshot, replace_log, follow_term,
}
use collaborative_ide.Prelude.{
  none, some, ℕ, ◌≡◌, ◌+◌, ◌-◌, ◌==◌, ◌||◌, not, ltb, leb, length, get_elem?, if_intro,
  if◌then◌else◌, OnSome, OnSome-bind, Option,
}

module _ {C D : Type 0} (n : ℕ) where
  -- The node has applied as much.
  abbrev pub IsAt : Raft C D → Type 0
  IsAt r = r.last_applied ≡ n

  -- So has the node of a result.
  abbrev pub Stays : {X : Type 0} → Raft C D × X → Type 0
  Stays p = p.0.last_applied ≡ n

  step_down-IsAt : (term : ℕ) (r : Raft C D) → IsAt r → IsAt (step_down term r)
  unfolding step_down persist
  step_down-IsAt term r k = k

  decide_vote-Stays : (a : RequestVoteArgs) (r : Raft C D) → IsAt r → OnSome Stays (decide_vote a r)
  unfolding decide_vote grant_vote persist
  decide_vote-Stays a r k =
      if_intro (OnSome Stays) (may_vote r.voted_for a.candidate_id)
        (λ _. OnSome-bind Stays (entry_at (last_log_index r) r) _ (λ last _.
          if_intro Stays (is_up_to_date a (last_log_index r) last.term) (λ _. k) (λ _. k)))
        (λ _. k)

  pub request_vote-Stays :
      (a : RequestVoteArgs) (r : Raft C D) → IsAt r → OnSome Stays (request_vote a r)
  unfolding request_vote
  request_vote-Stays a r k =
      if_intro (OnSome Stays) (ltb a.term r.current_term) (λ _. k)
        (λ _.
          if_intro (λ r'. OnSome Stays (decide_vote a r')) (ltb r.current_term a.term)
            (λ _. decide_vote-Stays a (step_down a.term r) (step_down-IsAt a.term r k))
            (λ _. decide_vote-Stays a r k))

  pub start_election-Stays : (r : Raft C D) → IsAt r → OnSome Stays (start_election r)
  unfolding start_election persist
  start_election-Stays r k =
      if_intro (OnSome Stays) (is_leader r.role) (λ _. k)
        (λ _. OnSome-bind Stays (entry_at (last_log_index r) r) _ (λ last _. k))

  pub on_vote_reply-Stays :
      (term votes : ℕ) (reply : RequestVoteReply) (r : Raft C D)
      → IsAt r
      → Stays (on_vote_reply term votes reply r)
  unfolding on_vote_reply become_leader
  on_vote_reply-Stays term votes reply r k =
      if_intro Stays (ltb term reply.term) (λ _. step_down-IsAt reply.term r k)
        (λ _.
          if_intro Stays (not (r.current_term == term) || not (is_candidate r.role)) (λ _. k)
            (λ _.
              if_intro IsAt (leb (votes_needed r) (if reply.vote_granted then votes + 1 else votes))
                (λ _. k) (λ _. k)))

  check_entries-Stays :
      (a : AppendEntriesArgs C) (r : Raft C D) → IsAt r → OnSome Stays (check_entries a r)
  unfolding check_entries store_entries conflict follow_commit persist
  check_entries-Stays a r k =
      if_intro (OnSome Stays) (ltb (last_log_index r) a.prev_log_index) (λ _. k)
        (λ _.
          if_intro (OnSome Stays) (ltb a.prev_log_index r.last_included_index) (λ _. k)
            (λ _. OnSome-bind Stays (log_index a.prev_log_index r) _ (λ prev _.
              OnSome-bind Stays (get_elem? r.log prev) _ (λ e _.
                if_intro Stays (e.term == a.prev_log_term)
                  (λ _. if_intro IsAt (ltb r.commit_index a.leader_commit) (λ _. k) (λ _. k))
                  (λ _. k)))))

  pub append_entries-Stays :
      (a : AppendEntriesArgs C) (r : Raft C D) → IsAt r → OnSome Stays (append_entries a r)
  unfolding append_entries accept_leader persist
  append_entries-Stays a r k =
      if_intro (OnSome Stays) (ltb a.term r.current_term) (λ _. k)
        (λ _.
          if_intro (λ (r' : Raft C D). OnSome Stays (check_entries a (as_follower r')))
            (ltb r.current_term a.term)
            (λ _.
              check_entries-Stays a
                (as_follower (persist (record r { current_term = a.term; voted_for = none }))) k)
            (λ _. check_entries-Stays a (as_follower r) k))

  pub install_snapshot-Stays :
      (a : InstallSnapshotArgs D) (r : Raft C D) → IsAt r → Stays (install_snapshot a r)
  unfolding install_snapshot replace_log follow_term persist
  install_snapshot-Stays a r k =
      if_intro Stays (ltb a.term r.current_term) (λ _. k)
        (λ _.
          if_intro IsAt (leb a.last_included_index r.last_included_index)
            (λ _.
              if_intro (λ (r' : Raft C D). IsAt (as_follower r')) (ltb r.current_term a.term)
                (λ _. k) (λ _. k))
            (λ _.
              if_intro (λ (r' : Raft C D). IsAt (replace_log a (as_follower r')))
                (ltb r.current_term a.term) (λ _. k) (λ _. k)))

  pub take_snapshot-IsAt :
      (i : ℕ) (contents : D) (r : Raft C D) → IsAt r → IsAt (take_snapshot i contents r)
  unfolding take_snapshot trim_log persist
  take_snapshot-IsAt i contents r k =
      if_intro IsAt (leb i r.last_included_index) (λ _. k)
        (λ _.
          elim (get_elem? r.log (i - r.last_included_index))
            as (λ o. IsAt (elim o [ none ↦ r | some e ↦ trim_log i contents r e ])) [
              | none ↦ k
              | some e ↦ k
            ])

  pub start-Stays : (c : C) (r : Raft C D) → IsAt r → Stays (start c r)
  unfolding start persist
  start-Stays c r k = if_intro Stays (is_leader r.role) (λ _. k) (λ _. k)

  advance_commit-IsAt : (t : ℕ) (r : Raft C D) → IsAt r → OnSome IsAt (advance_commit t r)
  unfolding advance_commit
  advance_commit-IsAt t r k =
      OnSome-bind IsAt (find_commit t (last_log_index r - r.commit_index) r) _ (λ o _. go o)
    where
      go : (o : Option ℕ) → IsAt (commit_to o r)
      go none = k
      go (some i) = k

  pub on_append_reply-IsAt :
      (term target : ℕ) (a : AppendEntriesArgs C) (reply : AppendEntriesReply) (r : Raft C D)
      → IsAt r
      → OnSome IsAt (on_append_reply term target a reply r)
  unfolding on_append_reply note_replica
  on_append_reply-IsAt term target a reply r k =
      if_intro (OnSome IsAt) (ltb term reply.term) (λ _. step_down-IsAt reply.term r k)
        (λ _.
          if_intro (OnSome IsAt) (not (r.current_term == term) || not (is_leader r.role)) (λ _. k)
            (λ _.
              if_intro (OnSome IsAt) reply.success
                (λ _.
                  advance_commit-IsAt term
                    (note_replica target (a.prev_log_index + length a.entries) r) k)
                (λ _. k)))

  pub on_snapshot_reply-IsAt :
      (term target : ℕ) (a : InstallSnapshotArgs D) (reply : ℕ) (r : Raft C D)
      → IsAt r
      → IsAt (on_snapshot_reply term target a reply r)
  unfolding on_snapshot_reply note_replica
  on_snapshot_reply-IsAt term target a reply r k =
      if_intro IsAt (ltb term reply) (λ _. step_down-IsAt reply r k)
        (λ _.
          if_intro IsAt (not (r.current_term == term) || not (is_leader r.role)) (λ _. k) (λ _. k))
