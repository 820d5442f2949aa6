-- ===== src/Raft/Node/InOrder.antt =====
-- raft/raft.go: what a node hands to its state machine through `applyChan`, over all its events.
use mathlib.Core.Path.{subst}
use collaborative_ide.Raft.Replication.{append_entries, on_append_reply}
use collaborative_ide.Raft.Elections.{request_vote, start_election}
use collaborative_ide.Raft.{Raft, LogEntry, log_index}
use collaborative_ide.Raft.Snapshots.{
  ApplyMsg, snapshot_msg, command_msg, number_from, committed_entries, apply_committed,
}
use collaborative_ide.Raft.Node.{
  Event, Node, step, vote_asked, entries_sent, snapshot_sent, timed_out, vote_replied,
  entries_replied, snapshot_replied, started, snapshot_taken, applied, restarted, after_vote,
  after_election, goes_to,
}
use collaborative_ide.Raft.Node.Applied.{
  Stays, request_vote-Stays, append_entries-Stays, install_snapshot-Stays, start_election-Stays,
  on_vote_reply-Stays, on_append_reply-IsAt, on_snapshot_reply-IsAt, start-Stays,
  take_snapshot-IsAt, IsAt,
}
use collaborative_ide.Prelude.{
  none, some, refl, [], ◌∷◌, ◌++◌, ℕ, Option, List, ◌≡◌, ◌≤◌, ◌<◌, ◌+◌, ◌-◌, arith, ltb, length,
  take, drop, length-take, if_intro, OnSome, OnSome-map, ◌>>=◌, All, if◌then◌else◌, sym, ap,
}

-- The indices of the commands.
abbrev pub indices : {C D : Type 0} → List (ApplyMsg C D) → List ℕ
indices [] = []
indices (snapshot_msg d i t ∷ msgs) = indices msgs
indices (command_msg c i ∷ msgs) = i ∷ indices msgs

-- Each is above the one before it, and the first above the bound.
abbrev pub Ascend : ℕ → List ℕ → Type 0
Ascend k [] = Unit
Ascend k (i ∷ is) = (k < i) × Ascend i is

-- The same, with a bound that none is above.
abbrev AscendTo : ℕ → List ℕ → ℕ → Type 0
AscendTo k [] m = k ≤ m
AscendTo k (i ∷ is) m = (k < i) × AscendTo i is m

Ascend-later : (k m : ℕ) (is : List ℕ) → k ≤ m → Ascend m is → Ascend k is
Ascend-later k m [] h a = tt
Ascend-later k m (i ∷ is) h (j, a) = (omega arith, a)

Ascend-append : (k m : ℕ) (is js : List ℕ) → AscendTo k is m → Ascend m js → Ascend k (is ++ js)
Ascend-append k m [] js h a = Ascend-later k m js h a
Ascend-append k m (i ∷ is) js (h, hs) a = (h, Ascend-append i m is js hs a)

AscendTo-later : (k m n : ℕ) (is : List ℕ) → m ≤ n → AscendTo k is m → AscendTo k is n
AscendTo-later k m n [] h a = omega arith
AscendTo-later k m n (i ∷ is) h (j, a) = (j, AscendTo-later i m n is h a)

indices-append :
    {C D : Type 0} (xs ys : List (ApplyMsg C D)) → indices (xs ++ ys) ≡ indices xs ++ indices ys
indices-append [] ys = refl
indices-append (snapshot_msg d i t ∷ xs) ys = indices-append xs ys
indices-append (command_msg c i ∷ xs) ys = ap (λ is. i ∷ is) (indices-append xs ys)

number_from-AscendTo :
    {C : Type 0} (D : Type 0) (k m : ℕ) (es : List (LogEntry C))
    → k + length es ≤ m
    → AscendTo k (indices (number_from {D = D} (k + 1) es)) m
unfolding number_from
number_from-AscendTo D k m [] h = omega arith
number_from-AscendTo D k m (e ∷ es) h =
    (omega arith, number_from-AscendTo D (k + 1) m es (omega arith))

stays : (n m : ℕ) → m ≡ n → n ≤ m
stays n m e = omega (arith, e)

-- No restart.
abbrev pub IsUp : {C D : Type 0} → Event C D → Type 0
IsUp restarted = ⊥
IsUp _ = Unit

module _ {C D : Type 0} where
  -- What an event sends through the channel.
  abbrev pub handed : Event C D → Node C D → List (ApplyMsg C D)
  handed applied s = elim (apply_committed s.raft) [ none ↦ [] | some p ↦ p.1 ]
  handed _ s = []

  -- What the events send, as long as the node does not fail.
  unfoldable pub handed_all : List (Event C D) → Node C D → List (ApplyMsg C D)
  unfolding step
  handed_all [] s = []
  handed_all (e ∷ es) s = elim (step e s) [ none ↦ [] | some s' ↦ handed e s ++ handed_all es s' ]

  committed_entries-length :
      (r : Raft C D)
      → r.last_included_index ≤ r.last_applied
      → OnSome (λ es. length es ≤ r.commit_index - r.last_applied) (committed_entries r)
  unfolding committed_entries log_index
  committed_entries-length r above =
      if_intro (λ o. OnSome fits (o >>= rest)) (ltb (r.last_applied + 1) r.last_included_index)
        (λ _. tt)
        (λ _.
          let from = r.last_applied + 1 - r.last_included_index in
          let to = r.commit_index + 1 - r.last_included_index in
          if_intro (λ o. OnSome fits (o >>= cut from))
            (ltb (r.commit_index + 1) r.last_included_index) (λ _. tt)
            (λ _.
              if_intro (OnSome fits) (ltb (length r.log) to) (λ _. tt)
                (λ _. omega (arith, length-take (to - from) (drop from r.log)))))
    where
      fits : List (LogEntry C) → Type 0
      fits es = length es ≤ r.commit_index - r.last_applied

      cut : ℕ → ℕ → Option (List (LogEntry C))
      cut from to =
          if ltb (length r.log) to then none else some (take (to - from) (drop from r.log))

      rest : ℕ → Option (List (LogEntry C))
      rest from = do to ← log_index (r.commit_index + 1) r; cut from to

  Moves : ℕ → Raft C D × List (ApplyMsg C D) → Type 0
  Moves k p = AscendTo k (indices p.1) p.0.last_applied

  apply_committed-Moves : (r : Raft C D) → OnSome (Moves r.last_applied) (apply_committed r)
  unfolding apply_committed Moves
  apply_committed-Moves r =
      if_intro (OnSome (Moves r.last_applied)) (ltb r.last_applied r.last_included_index)
        (λ behind. ground (arith, behind))
        (λ ahead.
          if_intro (OnSome (Moves r.last_applied)) (ltb r.last_applied r.commit_index)
            (λ new.
              OnSome-map (λ es. length es ≤ r.commit_index - r.last_applied) (Moves r.last_applied)
                (committed_entries r) _
                (λ es short. number_from-AscendTo D r.last_applied r.commit_index es (ground arith))
                (committed_entries-length r (ground arith)))
            (λ _. omega arith))

  Goes : Event C D → Node C D → Node C D → Type 0
  Goes e s s' = AscendTo s.raft.last_applied (indices (handed e s)) s'.raft.last_applied

  step-Goes : (e : Event C D) (s : Node C D) → IsUp e → OnSome (Goes e s) (step e s)
  unfolding step Goes Moves after_vote after_election
  step-Goes (vote_asked a) s t =
      OnSome-map (Stays n) _ (request_vote a s.raft) (after_vote a s) (λ p e. omega (arith, e))
        (request_vote-Stays n a s.raft refl)
    where
      n : ℕ
      n = s.raft.last_applied
  step-Goes (entries_sent a) s t =
      OnSome-map (Stays s.raft.last_applied) _ (append_entries a s.raft) _ (λ p e. omega (arith, e))
        (append_entries-Stays s.raft.last_applied a s.raft refl)
  step-Goes (snapshot_sent a) s t =
      stays s.raft.last_applied _ (install_snapshot-Stays s.raft.last_applied a s.raft refl)
  step-Goes timed_out s t =
      OnSome-map (Stays s.raft.last_applied) _ (start_election s.raft) (after_election s)
        (λ p e. omega (arith, e)) (start_election-Stays s.raft.last_applied s.raft refl)
  step-Goes (vote_replied term votes reply) s t =
      stays s.raft.last_applied _
        (on_vote_reply-Stays s.raft.last_applied term votes reply s.raft refl)
  step-Goes (entries_replied term target a reply) s t =
      OnSome-map (IsAt s.raft.last_applied) _ (on_append_reply term target a reply s.raft) _
        (λ r e. omega (arith, e))
        (on_append_reply-IsAt s.raft.last_applied term target a reply s.raft refl)
  step-Goes (snapshot_replied term target a reply) s t =
      stays s.raft.last_applied _
        (on_snapshot_reply-IsAt s.raft.last_applied term target a reply s.raft refl)
  step-Goes (started c) s t =
      stays s.raft.last_applied _ (start-Stays s.raft.last_applied c s.raft refl)
  step-Goes (snapshot_taken i contents) s t =
      stays s.raft.last_applied _ (take_snapshot-IsAt s.raft.last_applied i contents s.raft refl)
  step-Goes applied s t = go (apply_committed s.raft) (apply_committed-Moves s.raft)
    where
      go :
          (o : Option (Raft C D × List (ApplyMsg C D)))
          → OnSome (Moves s.raft.last_applied) o
          → OnSome
              (λ (s' : Node C D).
                AscendTo s.raft.last_applied
                  (indices (elim o [ none ↦ [] | some p ↦ p.1 ]))
                  s'.raft.last_applied)
              (o >>= λ p. goes_to s p.0)
      go none h = tt
      go (some p) h = h
  step-Goes restarted s t = absurd t

  -- From any state on and through any events without a restart, the commands that a node hands to its
  -- state machine have indices that grow: none comes twice, and none after a later one.
  pub handed_in_order :
      (es : List (Event C D)) (s : Node C D)
      → All IsUp es
      → Ascend s.raft.last_applied (indices (handed_all es s))
  unfolding handed_all Goes
  handed_in_order [] s t = tt
  handed_in_order (e ∷ es) s (t, ts) =
      go (step e s) (step-Goes e s t) (λ s'. handed_in_order es s' ts)
    where
      go :
          (o : Option (Node C D))
          → OnSome (Goes e s) o
          → ((s' : Node C D) → Ascend s'.raft.last_applied (indices (handed_all es s')))
          → Ascend s.raft.last_applied
              (indices (elim o [ none ↦ [] | some s' ↦ handed e s ++ handed_all es s' ]))
      go none h k = tt
      go (some s') h k =
          subst (Ascend s.raft.last_applied) (sym (indices-append (handed e s) (handed_all es s')))
            (Ascend-append s.raft.last_applied s'.raft.last_applied (indices (handed e s))
              (indices (handed_all es s')) h (k s'))
