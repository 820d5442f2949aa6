-- ===== src/Raft/Node/LateReply.antt =====
-- raft/raft.go: the replies test their term against that of the request and not against the term of
-- the node, which may have gone on since.
use collaborative_ide.Raft.{Raft, LogEntry, step_down, entry_at, last_log_index, persist}
use collaborative_ide.Raft.Elections.{
  RequestVoteArgs, RequestVoteReply, request_vote, decide_vote, grant_vote, may_vote, is_up_to_date,
  on_vote_reply,
}
use collaborative_ide.Prelude.{
  none, some, true, false, refl, ◌≡◌, ℕ, ltb, ◌≢◌, arith, ◌<◌, ◌∙◌, sym, Option, if_of_false,
  if_of_true, ==_iff, ap, bind_some, some_inj,
}

refused :
    (v : Option ℕ) (c : ℕ) (a : RequestVoteArgs)
    → v ≡ some c
    → c ≢ a.candidate_id
    → may_vote v a.candidate_id ≡ false
unfolding may_vote
refused none c a e n = absurd (cc e)
refused (some d) c a e n = ground (arith, ==_iff d a.candidate_id, some_inj d c e)

module _ {C D : Type 0} where
  -- A request for a vote in the term of the node.
  present_vote :
      (a : RequestVoteArgs) (r : Raft C D)
      → a.term ≡ r.current_term
      → request_vote a r ≡ decide_vote a r
  unfolding request_vote
  present_vote a r e =
      let not_old : ltb a.term r.current_term ≡ false = ground arith in
      let not_new : ltb r.current_term a.term ≡ false = ground arith in
      if_of_false (ltb a.term r.current_term) _ _ not_old
      ∙ ap (decide_vote a) (if_of_false (ltb r.current_term a.term) (step_down a.term r) r not_new)

  -- A vote in its own term, for a log that is not behind, from a node that is free to give it.
  granted_vote :
      (a : RequestVoteArgs) (r : Raft C D) (last : LogEntry C)
      → entry_at (last_log_index r) r ≡ some last
      → may_vote r.voted_for a.candidate_id ≡ true
      → is_up_to_date a (last_log_index r) last.term ≡ true
      → decide_vote a r
        ≡ some (
          persist (record r { voted_for = some a.candidate_id }),
          record { term = r.current_term; vote_granted = true },
        )
  unfolding decide_vote grant_vote
  granted_vote a r last found free fit =
      if_of_true (may_vote r.voted_for a.candidate_id) _ _ free
      ∙ (bind_some (entry_at (last_log_index r) r) _ last found
          ∙ ap some (if_of_true (is_up_to_date a (last_log_index r) last.term) _ _ fit))

  -- A node has given its vote in its present term, and is asked for it by another candidate of that
  -- term, whose log is not behind. It refuses; but after a reply of that term to an election of an
  -- earlier term it grants its vote a second time.
  pub late_reply_lem :
      (r : Raft C D) (c term count : ℕ) (reply : RequestVoteReply) (a : RequestVoteArgs)
      (last : LogEntry C)
      → r.voted_for ≡ some c
      → c ≢ a.candidate_id
      → a.term ≡ r.current_term
      → entry_at (last_log_index r) r ≡ some last
      → is_up_to_date a (last_log_index r) last.term ≡ true
      → term < r.current_term
      → reply.term ≡ r.current_term
      → (request_vote a r ≡ some (r, record { term = a.term; vote_granted = false }))
        × ((r' : Raft C D) × (request_vote a (on_vote_reply term count reply r).0
              ≡ some (r', record { term = a.term; vote_granted = true }))
            × (r'.voted_for ≡ some a.candidate_id))
  unfolding on_vote_reply step_down decide_vote
  late_reply_lem r c term count reply a last voted other same found fit late now =
      let newer : ltb term reply.term ≡ true = ground arith in
      let r' = step_down reply.term r in
      (
        present_vote a r same
            ∙ (if_of_false (may_vote r.voted_for a.candidate_id) _ _
                  (refused r.voted_for c a voted other)
                ∙ ap (λ t. some (r, record { term = t; vote_granted = false })) (sym same)),
        (
          persist (record r' { voted_for = some a.candidate_id }),
          ap (λ (p : Raft C D × ℕ). request_vote a p.0)
                (if_of_true (ltb term reply.term) (r', count) _ newer)
              ∙ (present_vote a r' (same ∙ sym now)
                  ∙ (granted_vote a r' last found refl fit
                      ∙ ap
                          (λ t. some (
                            persist (record r' { voted_for = some a.candidate_id }),
                            record { term = t; vote_granted = true },
                          ))
                          (now ∙ sym same))),
          refl,
        ),
      )
