-- ===== src/Raft/Node/Saved.antt =====
-- raft/raft.go: what `persist` writes and Make reads; RequestVote and the elections.
use collaborative_ide.Raft.{
  Raft, Persisted, follower, candidate, is_candidate, persist, make, read_persist, resume,
  step_down, Role, is_leader, last_log_index, entry_at, LogEntry,
}
use collaborative_ide.Raft.Entries.{entry_within}
use collaborative_ide.Raft.Elections.{
  RequestVoteArgs, RequestVoteReply, request_vote, decide_vote, grant_vote, may_vote, is_up_to_date,
  start_election, on_vote_reply, become_leader, votes_needed,
}
use collaborative_ide.Prelude.{
  none, some, refl, inl, inr, ℕ, Option, List, ◌≡◌, ◌≤◌, ◌<◌, ◌⊎◌, arith, ltb, length, if_intro,
  Gives, Gives-bind, ◌+◌, ◌==◌, not, ◌||◌, leb, if◌then◌else◌,
}

saved_snapshot_of :
    {D : Type 0} (o w : Option D) → (o ≡ none) ⊎ ((elim o [ none ↦ w | some d ↦ some d ]) ≡ o)
saved_snapshot_of none w = inl refl
saved_snapshot_of (some d) w = inr refl

module _ {C D : Type 0} where
  -- The node as Make sets it up on what the persister holds.
  abbrev pub again : Raft C D → Raft C D
  again r = make r.me r.peers r.saved r.saved_snapshot

  pub record IsSaved (r : Raft C D) : Type 0 where
    pub log : (again r).log ≡ r.log
    pub vote : (again r).voted_for ≡ r.voted_for
    pub base : (again r).last_included_index ≡ r.last_included_index
    pub base_term : (again r).last_included_term ≡ r.last_included_term
    pub term : (again r).current_term ≤ r.current_term
    pub snapshot : (r.snapshot ≡ none) ⊎ ((again r).snapshot ≡ r.snapshot)
    pub nonempty : 0 < length r.log

  pub persist-IsSaved : (r : Raft C D) → 0 < length r.log → IsSaved (persist r)
  unfolding persist make read_persist resume
  persist-IsSaved r h = record {
    log = refl;
    vote = refl;
    base = refl;
    base_term = refl;
    term = omega arith;
    snapshot = saved_snapshot_of r.snapshot r.saved_snapshot;
    nonempty = h;
  }

  -- The part that is not saved may change.
  pub volatile-IsSaved :
      (r : Raft C D) (role : Role) (commit applied : ℕ) (next match : List ℕ)
      → IsSaved r
      → IsSaved (record r {
        role = role;
        commit_index = commit;
        last_applied = applied;
        next_index = next;
        match_index = match;
      })
  volatile-IsSaved r role commit applied next match k = record {
    log = k.log;
    vote = k.vote;
    base = k.base;
    base_term = k.base_term;
    term = k.term;
    snapshot = k.snapshot;
    nonempty = k.nonempty;
  }

  pub make-IsSaved :
      (me peers : ℕ) (saved : Option (Persisted C)) (snapshot : Option D)
      → 0 < length (make me peers saved snapshot).log
      → IsSaved (make me peers saved snapshot)
  unfolding make read_persist resume
  make-IsSaved me peers none snapshot h = record {
    log = refl;
    vote = refl;
    base = refl;
    base_term = refl;
    term = omega arith;
    snapshot = inr refl;
    nonempty = h;
  }
  make-IsSaved me peers (some s) snapshot h = record {
    log = refl;
    vote = refl;
    base = refl;
    base_term = refl;
    term = omega arith;
    snapshot = inr refl;
    nonempty = h;
  }

  pub step_down-IsSaved : (term : ℕ) (r : Raft C D) → IsSaved r → IsSaved (step_down term r)
  unfolding step_down
  step_down-IsSaved term r k =
      persist-IsSaved (record r { current_term = term; role = follower; voted_for = none })
        k.nonempty

  -- A result whose first part is saved.
  abbrev pub Succeeds : {X : Type 0} → Option (Raft C D × X) → Type 0
  Succeeds = Gives (λ p. IsSaved p.0)

  grant_vote-IsSaved :
      (a : RequestVoteArgs) (r : Raft C D) (last : LogEntry C)
      → IsSaved r
      → IsSaved (grant_vote a r last).0
  unfolding grant_vote
  grant_vote-IsSaved a r last k =
      if_intro (λ (p : Raft C D × RequestVoteReply). IsSaved p.0)
        (is_up_to_date a (last_log_index r) last.term)
        (λ _. persist-IsSaved (record r { voted_for = some a.candidate_id }) k.nonempty) (λ _. k)

  last_entry :
      (r : Raft C D)
      → 0 < length r.log
      → (e : LogEntry C) × (entry_at (last_log_index r) r ≡ some e)
  unfolding last_log_index
  last_entry r h = entry_within (last_log_index r) r (omega arith) (omega arith) h

  decide_vote-Succeeds :
      (a : RequestVoteArgs) (r : Raft C D) → IsSaved r → Succeeds (decide_vote a r)
  unfolding decide_vote
  decide_vote-Succeeds a r k =
      let (last, found) = last_entry r k.nonempty in
      if_intro Succeeds (may_vote r.voted_for a.candidate_id)
        (λ _.
          Gives-bind (λ p. IsSaved p.0) (entry_at (last_log_index r) r) last _ found
            (_, refl, grant_vote-IsSaved a r last k))
        (λ _. (_, refl, k))

  pub request_vote-Succeeds :
      (a : RequestVoteArgs) (r : Raft C D) → IsSaved r → Succeeds (request_vote a r)
  unfolding request_vote
  request_vote-Succeeds a r k =
      if_intro Succeeds (ltb a.term r.current_term) (λ _. (_, refl, k))
        (λ _. decide_vote-Succeeds a _ (
          if_intro IsSaved (ltb r.current_term a.term) (λ _. step_down-IsSaved a.term r k)
            (λ _. k)))

  pub start_election-Succeeds : (r : Raft C D) → IsSaved r → Succeeds (start_election r)
  unfolding start_election
  start_election-Succeeds r k =
      let (last, found) = last_entry r k.nonempty in
      if_intro Succeeds (is_leader r.role) (λ _. (_, refl, k))
        (λ _.
          Gives-bind (λ p. IsSaved p.0) (entry_at (last_log_index r) r) last _ found
            (
              _,
              refl,
              persist-IsSaved
                  (record r {
                    role = candidate;
                    current_term = r.current_term + 1;
                    voted_for = some r.me;
                  })
                  k.nonempty,
            ))

  pub on_vote_reply-IsSaved :
      (term votes : ℕ) (reply : RequestVoteReply) (r : Raft C D)
      → IsSaved r
      → IsSaved (on_vote_reply term votes reply r).0
  unfolding on_vote_reply become_leader
  on_vote_reply-IsSaved term votes reply r k =
      if_intro (λ (p : Raft C D × ℕ). IsSaved p.0) (ltb term reply.term)
        (λ _. step_down-IsSaved reply.term r k)
        (λ _.
          if_intro (λ (p : Raft C D × ℕ). IsSaved p.0)
            (not (r.current_term == term) || not (is_candidate r.role)) (λ _. k)
            (λ _.
              if_intro IsSaved
                (leb (votes_needed r) (if reply.vote_granted then votes + 1 else votes))
                (λ _. volatile-IsSaved r _ _ _ _ _ k) (λ _. k)))
