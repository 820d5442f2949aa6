-- ===== src/Raft/Elections.antt =====
-- raft/raft.go: RequestVote, the elections of `ticker`, and the replies that a candidate gets.
use collaborative_ide.Raft.{
  Raft, LogEntry, candidate, leader, is_leader, is_candidate, entry_at, last_log_index, persist,
  step_down,
}
use collaborative_ide.Prelude.{
  ℕ, zero, suc, ◌+◌, ◌/◌, Bool, true, false, not, ◌&&◌, ◌||◌, Option, none, some, List, [], ◌∷◌,
  ltb, leb, ◌==◌, if◌then◌else◌, ◌>>=◌,
}

pub record RequestVoteArgs : Type 0 where
  pub term : ℕ
  pub candidate_id : ℕ
  pub last_log_index : ℕ
  pub last_log_term : ℕ

pub record RequestVoteReply : Type 0 where
  pub term : ℕ
  pub vote_granted : Bool

-- `votedFor` is -1 or that candidate.
unfoldable pub may_vote : Option ℕ → ℕ → Bool
may_vote none c = true
may_vote (some v) c = v == c

-- The log of the candidate is not behind one that ends with that index and term.
unfoldable pub is_up_to_date : RequestVoteArgs → ℕ → ℕ → Bool
is_up_to_date a index term =
    ltb term a.last_log_term || (term == a.last_log_term && leb index a.last_log_index)

abbrev pub replicate : ℕ → ℕ → List ℕ
replicate zero x = []
replicate (suc n) x = x ∷ replicate n x

module _ {C D : Type 0} where
  unfoldable pub grant_vote : RequestVoteArgs → Raft C D → LogEntry C → Raft C D × RequestVoteReply
  unfolding is_up_to_date last_log_index persist
  grant_vote a r last =
      if is_up_to_date a (last_log_index r) last.term
      then (
        persist (record r { voted_for = some a.candidate_id }),
        record { term = r.current_term; vote_granted = true },
      )
      else (r, record { term = r.current_term; vote_granted = false })

  -- RequestVote, from the test of `votedFor` on.
  unfoldable pub decide_vote : RequestVoteArgs → Raft C D → Option (Raft C D × RequestVoteReply)
  unfolding may_vote entry_at last_log_index grant_vote
  decide_vote a r =
      if may_vote r.voted_for a.candidate_id
      then (do last ← entry_at (last_log_index r) r; some (grant_vote a r last))
      else some (r, record { term = r.current_term; vote_granted = false })

  unfoldable pub request_vote : RequestVoteArgs → Raft C D → Option (Raft C D × RequestVoteReply)
  unfolding decide_vote step_down
  request_vote a r =
      if ltb a.term r.current_term
      then some (r, record { term = r.current_term; vote_granted = false })
      else decide_vote a (if ltb r.current_term a.term then step_down a.term r else r)

  -- The body of `ticker` once the timer has run out: no leader begins an election.
  unfoldable pub start_election : Raft C D → Option (Raft C D × Option RequestVoteArgs)
  unfolding persist entry_at last_log_index
  start_election r = if is_leader r.role then some (r, none) else (do
    last ← entry_at (last_log_index r) r
    some (
      persist
          (record r { role = candidate; current_term = r.current_term + 1; voted_for = some r.me }),
      some (record {
        term = r.current_term + 1;
        candidate_id = r.me;
        last_log_index = last_log_index r;
        last_log_term = last.term;
      }),
    ))

  unfoldable pub votes_needed : Raft C D → ℕ
  votes_needed r = r.peers / 2 + 1

  unfoldable pub become_leader : Raft C D → Raft C D
  unfolding last_log_index
  become_leader r = record r {
    role = leader;
    next_index = replicate r.peers (last_log_index r + 1);
    match_index = replicate r.peers 0;
  }

  -- A reply to the election of that term, which has that many votes so far.
  unfoldable pub on_vote_reply : ℕ → ℕ → RequestVoteReply → Raft C D → Raft C D × ℕ
  unfolding step_down votes_needed become_leader
  on_vote_reply term votes reply r =
      if ltb term reply.term
      then (step_down reply.term r, votes)
      else (if not (r.current_term == term) || not (is_candidate r.role)
          then (r, votes)
          else (let count = if reply.vote_granted then votes + 1 else votes in
              (if leb (votes_needed r) count then become_leader r else r, count)))
