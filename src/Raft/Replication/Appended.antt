-- ===== src/Raft/Replication/Appended.antt =====
-- raft/raft.go: what the log of a follower is after AppendEntries.
use collaborative_ide.Raft.Entries.{entry_at-log, log_index_above}
use collaborative_ide.Raft.{Raft, LogEntry, log_index, entry_at, last_log_index, persist}
use collaborative_ide.Raft.Replication.{
  AppendEntriesArgs, AppendEntriesReply, append_entries, check_entries, accept_leader,
  store_entries, conflict, follow_commit, as_follower,
}
use collaborative_ide.Prelude.{
  none, some, refl, true, false, inl, inr, ℕ, ◌≡◌, ◌≤◌, OnSome, if_intro, take, ◌⊎◌, length, ◌-◌,
  min, ltb, get_elem?, ◌+◌, arith, OnSome-bind, OnSome-weaken, ◌++◌, ◌==◌, if◌then◌else◌, ap, sym,
  ◌∙◌, some_inj, ==_iff, ◌<◌, leb, OnSome-elim, ◌∙◌, get_elem?-bound, get_elem?-take_append,
  get_elem?-beyond, if_of_false, bind_some, if_of_true,
}

-- The same parts of two states: the log and its base.
pub record SameLog {C D : Type 0} (r r' : Raft C D) : Type 0 where
  pub log : r'.log ≡ r.log
  pub base : r'.last_included_index ≡ r.last_included_index
  pub commit : r'.commit_index ≡ r.commit_index

module _ {C D : Type 0} where
  accept_leader-SameLog : (term : ℕ) (r : Raft C D) → SameLog r (accept_leader term r)
  unfolding accept_leader persist
  accept_leader-SameLog term r =
      if_intro (λ (r' : Raft C D). SameLog r (as_follower r')) (ltb r.current_term term)
        (λ _. record { log = refl; base = refl; commit = refl })
        (λ _. record { log = refl; base = refl; commit = refl })

  -- A successful AppendEntries stored its entries after one that it has.
  pub record IsStored (a : AppendEntriesArgs C) (r r' : Raft C D) : Type 0 where
    pub above : r.last_included_index ≤ a.prev_log_index
    pub within : a.prev_log_index ≤ last_log_index r
    pub base : r'.last_included_index ≡ r.last_included_index
    pub log : r'.log ≡ take (a.prev_log_index - r.last_included_index + 1) r.log ++ a.entries
    pub commit : r'.commit_index ≡ (
        if ltb r.commit_index a.leader_commit
        then min a.leader_commit (last_log_index r')
        else r.commit_index)
    pub prev : LogEntry C
    pub found : get_elem? r.log (a.prev_log_index - r.last_included_index) ≡ some prev
    pub matched : prev.term ≡ a.prev_log_term

  abbrev Outcome : AppendEntriesArgs C → Raft C D → Raft C D × AppendEntriesReply → Type 0
  Outcome a r (r', reply) = (reply.success ≡ false) ⊎ IsStored a r r'

  follow_commit-commit :
      (c : ℕ) (r : Raft C D)
      → (follow_commit c r).commit_index ≡ (
          if ltb r.commit_index c
          then min c (last_log_index (follow_commit c r))
          else r.commit_index)
  unfolding follow_commit last_log_index
  follow_commit-commit c r = ground arith

  follow_commit-log :
      (c : ℕ) (r : Raft C D)
      → ((follow_commit c r).log ≡ r.log)
        × ((follow_commit c r).last_included_index ≡ r.last_included_index)
  unfolding follow_commit
  follow_commit-log c r =
      if_intro
        (λ (r' : Raft C D). (r'.log ≡ r.log) × (r'.last_included_index ≡ r.last_included_index))
        (ltb r.commit_index c) (λ _. (refl, refl)) (λ _. (refl, refl))

  place_of :
      (i k : ℕ) (r : Raft C D)
      → log_index i r ≡ some k
      → (r.last_included_index ≤ i) × (k ≡ i - r.last_included_index)
  unfolding log_index
  place_of i k r e =
      if_intro (λ o. o ≡ some k → (r.last_included_index ≤ i) × (k ≡ i - r.last_included_index))
        (ltb i r.last_included_index) (λ _ f. absurd (cc f))
        (λ b f. (ground arith, sym (some_inj (i - r.last_included_index) k f))) e

  store_entries-IsStored :
      (a : AppendEntriesArgs C) (k : ℕ) (e : LogEntry C) (r : Raft C D)
      → a.prev_log_index ≤ last_log_index r
      → log_index a.prev_log_index r ≡ some k
      → get_elem? r.log k ≡ some e
      → e.term == a.prev_log_term ≡ true
      → IsStored a r (store_entries a k r).0
  unfolding store_entries persist
  store_entries-IsStored a k e r within place found same =
      let (above, here) = place_of a.prev_log_index k r place in
      let (log, base) =
        follow_commit-log a.leader_commit
          (persist (record r { log = take (k + 1) r.log ++ a.entries })) in
      record {
        above = above;
        within = within;
        base = base;
        log = log ∙ ap (λ n. take (n + 1) r.log ++ a.entries) here;
        commit = follow_commit-commit a.leader_commit _;
        prev = e;
        found = ap (get_elem? r.log) (sym here) ∙ found;
        matched = ground (arith, ==_iff e.term a.prev_log_term);
      }

  check_entries-Outcome :
      (a : AppendEntriesArgs C) (r : Raft C D) → OnSome (Outcome a r) (check_entries a r)
  unfolding check_entries conflict
  check_entries-Outcome a r =
      if_intro (OnSome (Outcome a r)) (ltb (last_log_index r) a.prev_log_index) (λ _. inl refl)
        (λ within.
          if_intro (OnSome (Outcome a r)) (ltb a.prev_log_index r.last_included_index)
            (λ _. inl refl)
            (λ above. OnSome-bind (Outcome a r) (log_index a.prev_log_index r) _ (λ k place.
              OnSome-bind (Outcome a r) (get_elem? r.log k) _ (λ e found.
                if_intro (Outcome a r) (e.term == a.prev_log_term)
                  (λ same. inr (store_entries-IsStored a k e r (ground arith) place found same))
                  (λ _. inl refl)))))

  IsStored-entry_at :
      (a : AppendEntriesArgs C) (r r' : Raft C D) (i : ℕ)
      → IsStored a r r'
      → entry_at i r' ≡ (
          if leb i a.prev_log_index
          then entry_at i r
          else get_elem? a.entries (i - (a.prev_log_index + 1)))
  IsStored-entry_at a r r' i s =
      let n = a.prev_log_index - r.last_included_index + 1 in
      let short = get_elem?-bound r.log (a.prev_log_index - r.last_included_index) s.prev s.found in
      let parts =
        get_elem?-take_append n r.log a.entries (i - r.last_included_index) (omega arith) in
      let seen = entry_at-log i r in
      entry_at-log i r'
      ∙ (ap (λ b. if ltb i b then none else get_elem? r'.log (i - b)) s.base
          ∙ ground (arith, s.log, parts, seen, s.above))

  -- Only the log, its base and the commit index count.
  IsStored-same :
      (a : AppendEntriesArgs C) (r r1 : Raft C D) (p : Raft C D × AppendEntriesReply)
      → SameLog r r1
      → Outcome a r1 p
      → Outcome a r p
  unfolding last_log_index
  IsStored-same a r r1 (r', reply) same (inl failed) = inl failed
  IsStored-same a r r1 (r', reply) same (inr s) = inr (record {
    above = omega (arith, s.above, same.base);
    within = omega (arith, s.within, same.base, ap length same.log);
    base = s.base ∙ same.base;
    log = cc (s.log, same.log, same.base);
    commit = cc (s.commit, same.commit);
    prev = s.prev;
    found = cc (s.found, same.log, same.base);
    matched = s.matched;
  })

  append_entries-IsStored :
      (a : AppendEntriesArgs C) (r r' : Raft C D) (reply : AppendEntriesReply)
      → append_entries a r ≡ some (r', reply)
      → reply.success ≡ true
      → IsStored a r r'
  unfolding append_entries
  append_entries-IsStored a r r' reply e ok =
      let outcome : OnSome (Outcome a r) (append_entries a r) =
        if_intro (OnSome (Outcome a r)) (ltb a.term r.current_term) (λ _. inl refl)
          (λ _.
            OnSome-weaken (Outcome a (accept_leader a.term r)) (Outcome a r)
              (check_entries a (accept_leader a.term r))
              (λ p. IsStored-same a r (accept_leader a.term r) p (accept_leader-SameLog a.term r))
              (check_entries-Outcome a (accept_leader a.term r))) in
      elim (OnSome-elim (Outcome a r) (append_entries a r) (r', reply) outcome e) [
        | inl failed ↦ absurd (cc (failed, ok))
        | inr s ↦ s
      ]

  -- A node that answers AppendEntries with success had the previous entry, with its term. Then its
  -- log has what it had up to that entry, and from there on the entries sent and no other; and its
  -- commit index is as it was, or what the leader has committed, as far as the log goes.
  pub append_entries_lem :
      (a : AppendEntriesArgs C) (r r' : Raft C D) (reply : AppendEntriesReply)
      → append_entries a r ≡ some (r', reply)
      → reply.success ≡ true
      → ((prev : LogEntry C) × (entry_at a.prev_log_index r ≡ some prev)
          × (prev.term ≡ a.prev_log_term))
        × ((i : ℕ)
            → entry_at i r' ≡ (
                if leb i a.prev_log_index
                then entry_at i r
                else get_elem? a.entries (i - (a.prev_log_index + 1))))
        × (r'.commit_index ≡ (
            if ltb r.commit_index a.leader_commit
            then min a.leader_commit (last_log_index r')
            else r.commit_index))
  append_entries_lem a r r' reply e ok =
      let s = append_entries-IsStored a r r' reply e ok in
      (
        (s.prev, ground (arith, entry_at-log a.prev_log_index r, s.found, s.above), s.matched),
        λ i. IsStored-entry_at a r r' i s,
        s.commit,
      )

  found_within :
      (i : ℕ) (r : Raft C D) (e : LogEntry C)
      → entry_at i r ≡ some e
      → (r.last_included_index ≤ i)
        × (i ≤ last_log_index r)
        × (get_elem? r.log (i - r.last_included_index) ≡ some e)
  unfolding last_log_index
  found_within i r e found =
      if_intro
        (λ o.
          o ≡ some e
          → (r.last_included_index ≤ i)
            × (i ≤ last_log_index r)
            × (get_elem? r.log (i - r.last_included_index) ≡ some e))
        (ltb i r.last_included_index) (λ _ f. absurd (cc f))
        (λ b f.
          let above : r.last_included_index ≤ i = ground arith in
          let short = get_elem?-bound r.log (i - r.last_included_index) e f in
          (above, omega arith, f))
        (sym (entry_at-log i r) ∙ found)

  append_entries-matching :
      (a : AppendEntriesArgs C) (r : Raft C D) (e : LogEntry C)
      → a.term ≡ r.current_term
      → entry_at a.prev_log_index r ≡ some e
      → e.term ≡ a.prev_log_term
      → append_entries a r
        ≡ some (store_entries a (a.prev_log_index - r.last_included_index) (as_follower r))
  unfolding append_entries accept_leader check_entries log_index last_log_index
  append_entries-matching a r e term found matched =
      let (above, within, here) = found_within a.prev_log_index r e found in
      let r1 : Raft C D = as_follower r in
      let prev = a.prev_log_index - r.last_included_index in
      let accepted : accept_leader a.term r ≡ r1 =
        ap as_follower (if_of_false (ltb r.current_term a.term) _ _ (ground arith)) in
      let checked : check_entries a r1 ≡ some (store_entries a prev r1) =
        if_of_false (ltb (last_log_index r) a.prev_log_index) _ _ (ground arith)
        ∙ (if_of_false (ltb a.prev_log_index r.last_included_index) _ _ (ground arith)
            ∙ (bind_some (log_index a.prev_log_index r1) _ prev
                  (log_index_above a.prev_log_index r1 above)
                ∙ (bind_some (get_elem? r.log prev) _ e here
                    ∙ ap some (
                        if_of_true (e.term == a.prev_log_term) _ _
                          (ground (arith, ==_iff e.term a.prev_log_term)))))) in
      if_of_false (ltb a.term r.current_term) _ _ (ground arith)
      ∙ (ap (check_entries a) accepted ∙ checked)

  -- AppendEntries cuts the log after the entries sent, whatever the node has committed: a message of
  -- the node's term, whose previous entry the node has, whose entries end below the commit index of
  -- the node and whose own commit index is not above it, is answered with success; the node keeps its
  -- commit index, and has no entry left there.
  pub late_append_lem :
      (a : AppendEntriesArgs C) (r : Raft C D) (e : LogEntry C)
      → a.term ≡ r.current_term
      → entry_at a.prev_log_index r ≡ some e
      → e.term ≡ a.prev_log_term
      → a.leader_commit ≤ r.commit_index
      → a.prev_log_index + length a.entries < r.commit_index
      → (r' : Raft C D) × (reply : AppendEntriesReply) × (append_entries a r ≡ some (r', reply))
        × (reply.success ≡ true)
        × (r'.commit_index ≡ r.commit_index)
        × (entry_at r'.commit_index r' ≡ none)
  unfolding store_entries
  late_append_lem a r e term found matched old short =
      let k = a.prev_log_index - r.last_included_index in
      let r' = (store_entries a k (as_follower r)).0 in
      let reply = (store_entries a k (as_follower r)).1 in
      let answer : append_entries a r ≡ some (r', reply) =
        append_entries-matching a r e term found matched in
      let s = append_entries-IsStored a r r' reply answer refl in
      let kept : r'.commit_index ≡ r.commit_index = ground (arith, s.commit) in
      let seen = IsStored-entry_at a r r' r'.commit_index s in
      let gone =
        get_elem?-beyond a.entries (r'.commit_index - (a.prev_log_index + 1)) (omega arith) in
      (r', reply, answer, refl, kept, ground (arith, seen, gone))
