-- ===== src/Raft/Node/OneVote.antt =====
-- raft/raft.go: the votes that a node gives over all its events, restarts among them.
use collaborative_ide.Raft.Node.{Event, Node, step, vote_replied, entries_replied, snapshot_replied}
use collaborative_ide.Prelude.{none, some, refl, true, [], ◌∷◌, ◌∙◌, IsIn, ap, All-IsIn}
use collaborative_ide.Raft.Node.Votes.{AreKept, AreSingle}
use collaborative_ide.Prelude.{refl, sym, OnSome, ◌≤◌}
use collaborative_ide.Raft.Node.{vote_replied, Node, entries_replied, snapshot_replied}
use collaborative_ide.Raft.{Raft}
use collaborative_ide.Prelude.{none, some, [], ◌∷◌, true, inl, inr, ℕ, List, ◌<◌, ◌≡◌, ◌⊎◌}

pub single_alike :
    (votes : List (ℕ × ℕ)) (t c c' : ℕ)
    → AreSingle votes
    → IsIn (t, c) votes
    → IsIn (t, c') votes
    → c ≡ c'
single_alike [] t c c' o h k = absurd h
single_alike ((t', d) ∷ votes) t c c' (o, os) (inl h) (inl k) = ap (λ x. x.1) (h ∙ sym k)
single_alike ((t', d) ∷ votes) t c c' (o, os) (inl h) (inr k) =
    ap (λ x. x.1) h ∙ sym (All-IsIn _ votes (t, c') o k (ap (λ x. x.0) h))
single_alike ((t', d) ∷ votes) t c c' (o, os) (inr h) (inl k) =
    All-IsIn _ votes (t, c) o h (ap (λ x. x.0) k) ∙ sym (ap (λ x. x.1) k)
single_alike (v ∷ votes) t c c' (o, os) (inr h) (inr k) = single_alike votes t c c' os h k

-- A late reply has a term above that of its request, which the node itself has reached meanwhile.
abbrev IsInTime : ℕ → ℕ → ℕ → Type 0
IsInTime sent reply now = (reply ≤ sent) ⊎ (now < reply)

module _ {C D : Type 0} where
  -- The event is no late reply.
  abbrev pub IsTimely : Event C D → Raft C D → Type 0
  IsTimely (vote_replied term votes reply) r = IsInTime term reply.term r.current_term
  IsTimely (entries_replied term target a reply) r = IsInTime term reply.term r.current_term
  IsTimely (snapshot_replied term target a reply) r = IsInTime term reply r.current_term
  IsTimely _ r = Unit

  abbrev pub AreTimely : List (Event C D) → Node C D → Type 0
  AreTimely [] s = Unit
  AreTimely (e ∷ es) s = IsTimely e s.raft × OnSome (AreTimely es) (step e s)

  abbrev IsKept : Node C D → Type 0
  IsKept s = AreKept s.votes s.raft
