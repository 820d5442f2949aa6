-- ===== src/Raft/Node/Votes.antt =====
-- raft/raft.go: what binds a node to the votes it gave; RequestVote and the elections.
use mathlib.Core.Path.{subst}
use collaborative_ide.Prelude.{refl, sym, ltb→lt, ◌+◌, if_intro, OnSome, OnSome-bind, some_inj}
use collaborative_ide.Raft.Node.{add_own, add_vote}
use collaborative_ide.Raft.{
  Raft, Persisted, persist, step_down, LogEntry, is_leader, last_log_index, entry_at, candidate,
}
use collaborative_ide.Raft.Elections.{
  may_vote, grant_vote, decide_vote, request_vote, start_election, RequestVoteArgs,
  RequestVoteReply, is_up_to_date,
}
use collaborative_ide.Prelude.{
  none, some, [], ◌∷◌, true, inl, inr, ℕ, Option, List, ◌<◌, All, ◌≡◌, ◌⊎◌, arith, ==_iff, ltb,
}

-- The vote binds a node in that term with that `votedFor`.
abbrev pub IsBound : ℕ → Option ℕ → ℕ × ℕ → Type 0
IsBound term voted_for (t, c) = (t < term) ⊎ ((t ≡ term) × (voted_for ≡ some c))

abbrev pub AreBound : ℕ → Option ℕ → List (ℕ × ℕ) → Type 0
AreBound term voted_for = All (IsBound term voted_for)

abbrev pub saved_term : {C : Type 0} → Option (Persisted C) → ℕ
saved_term none = 0
saved_term (some s) = s.current_term

abbrev pub saved_vote : {C : Type 0} → Option (Persisted C) → Option ℕ
saved_vote none = none
saved_vote (some s) = s.voted_for

-- Votes in one term are for one candidate.
abbrev pub AreSingle : List (ℕ × ℕ) → Type 0
AreSingle [] = Unit
AreSingle ((t, c) ∷ votes) = All (λ x. x.0 ≡ t → x.1 ≡ c) votes × AreSingle votes

-- The votes are single, and bind the node as it is, and as it would be after a crash.
pub record AreKept {C D : Type 0} (votes : List (ℕ × ℕ)) (r : Raft C D) : Type 0 where
  pub single : AreSingle votes
  pub here : AreBound r.current_term r.voted_for votes
  pub saved : AreBound (saved_term r.saved) (saved_vote r.saved) votes

pub AreBound-later :
    (t t' : ℕ) (v w : Option ℕ) (votes : List (ℕ × ℕ))
    → t < t'
    → AreBound t v votes
    → AreBound t' w votes
AreBound-later t t' v w [] h k = tt
AreBound-later t t' v w (x ∷ votes) h (inl k, ks) =
    (inl (omega arith), AreBound-later t t' v w votes h ks)
AreBound-later t t' v w (x ∷ votes) h (inr (k, _), ks) =
    (inl (omega arith), AreBound-later t t' v w votes h ks)

AreBound-vote :
    (t c : ℕ) (v : Option ℕ) (votes : List (ℕ × ℕ))
    → may_vote v c ≡ true
    → AreBound t v votes
    → AreBound t (some c) votes
unfolding may_vote
AreBound-vote t c v [] h k = tt
AreBound-vote t c v (x ∷ votes) h (inl k, ks) = (inl k, AreBound-vote t c v votes h ks)
AreBound-vote t c none (x ∷ votes) h (inr (_, k), ks) = absurd (cc k)
AreBound-vote t c (some d) (x ∷ votes) h (inr (e, k), ks) =
    (inr (e, ground (arith, ==_iff d c)), AreBound-vote t c (some d) votes h ks)

-- All votes of the present term are for the candidate that may have the vote.
voted_alike :
    (t term c : ℕ) (v : Option ℕ) (votes : List (ℕ × ℕ))
    → t ≡ term
    → may_vote v c ≡ true
    → AreBound term v votes
    → All (λ x. x.0 ≡ t → x.1 ≡ c) votes
unfolding may_vote
voted_alike t term c v [] e h k = tt
voted_alike t term c v (x ∷ votes) e h (inl k, ks) =
    (λ e'. absurd (omega arith), voted_alike t term c v votes e h ks)
voted_alike t term c none (x ∷ votes) e h (inr (_, k), ks) = absurd (cc k)
voted_alike t term c (some d) (x ∷ votes) e h (inr (_, k), ks) =
    (λ _. ground (arith, ==_iff d c, some_inj d x.1 k), voted_alike t term c (some d) votes e h ks)

-- No vote is in a later term.
voted_before :
    (t term c : ℕ) (v : Option ℕ) (votes : List (ℕ × ℕ))
    → term < t
    → AreBound term v votes
    → All (λ x. x.0 ≡ t → x.1 ≡ c) votes
voted_before t term c v [] h k = tt
voted_before t term c v (x ∷ votes) h (inl k, ks) =
    (λ e. absurd (omega arith), voted_before t term c v votes h ks)
voted_before t term c v (x ∷ votes) h (inr (k, _), ks) =
    (λ e. absurd (omega arith), voted_before t term c v votes h ks)

module _ {C D : Type 0} where
  pub persist-AreKept :
      (votes : List (ℕ × ℕ)) (r : Raft C D)
      → AreSingle votes
      → AreBound r.current_term r.voted_for votes
      → AreKept votes (persist r)
  unfolding persist
  persist-AreKept votes r o h = record { single = o; here = h; saved = h }

  pub step_down-AreKept :
      (votes : List (ℕ × ℕ)) (term : ℕ) (r : Raft C D)
      → r.current_term < term
      → AreKept votes r
      → AreKept votes (step_down term r)
  unfolding step_down
  step_down-AreKept votes term r h k =
      persist-AreKept votes (record r { current_term = term; role = _; voted_for = none }) k.single
        (AreBound-later r.current_term term r.voted_for none votes h k.here)

  -- What an operation leaves alone that is not about votes.
  pub same-AreKept :
      (votes : List (ℕ × ℕ)) (r r' : Raft C D)
      → r'.current_term ≡ r.current_term
      → r'.voted_for ≡ r.voted_for
      → r'.saved ≡ r.saved
      → AreKept votes r
      → AreKept votes r'
  same-AreKept votes r r' t v s k = record {
    single = k.single;
    here =
        subst (λ t'. AreBound t' r'.voted_for votes) (sym t)
          (subst (λ v'. AreBound r.current_term v' votes) (sym v) k.here);
    saved = subst (λ s'. AreBound (saved_term s') (saved_vote s') votes) (sym s) k.saved;
  }

  abbrev pub VoteKept : List (ℕ × ℕ) → RequestVoteArgs → Raft C D × RequestVoteReply → Type 0
  VoteKept votes a (r, reply) = AreKept (add_vote a reply votes) r

  grant_vote-VoteKept :
      (votes : List (ℕ × ℕ)) (a : RequestVoteArgs) (r : Raft C D) (last : LogEntry C)
      → a.term ≡ r.current_term
      → may_vote r.voted_for a.candidate_id ≡ true
      → AreKept votes r
      → VoteKept votes a (grant_vote a r last)
  unfolding grant_vote
  grant_vote-VoteKept votes a r last e free k =
      if_intro (VoteKept votes a) (is_up_to_date a (last_log_index r) last.term)
        (λ _.
          persist-AreKept ((a.term, a.candidate_id) ∷ votes)
            (record r { voted_for = some a.candidate_id })
            (
              voted_alike a.term r.current_term a.candidate_id r.voted_for votes e free k.here,
              k.single,
            )
            (
              inr (e, refl),
              AreBound-vote r.current_term a.candidate_id r.voted_for votes free k.here,
            ))
        (λ _. k)

  decide_vote-VoteKept :
      (votes : List (ℕ × ℕ)) (a : RequestVoteArgs) (r : Raft C D)
      → a.term ≡ r.current_term
      → AreKept votes r
      → OnSome (VoteKept votes a) (decide_vote a r)
  unfolding decide_vote
  decide_vote-VoteKept votes a r e k =
      if_intro (OnSome (VoteKept votes a)) (may_vote r.voted_for a.candidate_id)
        (λ free.
          OnSome-bind (VoteKept votes a) (entry_at (last_log_index r) r) _
            (λ last _. grant_vote-VoteKept votes a r last e free k))
        (λ _. k)

  pub request_vote-VoteKept :
      (votes : List (ℕ × ℕ)) (a : RequestVoteArgs) (r : Raft C D)
      → AreKept votes r
      → OnSome (VoteKept votes a) (request_vote a r)
  unfolding request_vote
  request_vote-VoteKept votes a r k =
      if_intro (OnSome (VoteKept votes a)) (ltb a.term r.current_term) (λ _. k)
        (λ new.
          if_intro (λ r'. OnSome (VoteKept votes a) (decide_vote a r')) (ltb r.current_term a.term)
            (λ up.
              decide_vote-VoteKept votes a (step_down a.term r) (unfold step_down persist in refl)
                (step_down-AreKept votes a.term r (ltb→lt r.current_term a.term up) k))
            (λ same. decide_vote-VoteKept votes a r (ground arith) k))

  pub start_election-AreKept :
      (votes : List (ℕ × ℕ)) (r : Raft C D)
      → AreKept votes r
      → OnSome (λ p. AreKept (add_own p.1 votes) p.0) (start_election r)
  unfolding start_election
  start_election-AreKept votes r k =
      if_intro (OnSome (λ p. AreKept (add_own p.1 votes) p.0)) (is_leader r.role) (λ _. k)
        (λ _.
          OnSome-bind (λ p. AreKept (add_own p.1 votes) p.0) (entry_at (last_log_index r) r) _
            (λ last _.
              persist-AreKept ((r.current_term + 1, r.me) ∷ votes)
                (record r {
                  role = candidate;
                  current_term = r.current_term + 1;
                  voted_for = some r.me;
                })
                (
                  voted_before (r.current_term + 1) r.current_term r.me r.voted_for votes
                      (omega arith) k.here,
                  k.single,
                )
                (
                  inr (refl, refl),
                  AreBound-later r.current_term (r.current_term + 1) r.voted_for (some r.me) votes
                      (omega arith) k.here,
                )))
