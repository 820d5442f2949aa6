-- ===== src/Raft/Node/Winners.antt =====
-- raft/raft.go: the votes that the nodes of a cluster give.
use collaborative_ide.Raft.Node.{Event, Node, boot, run}
use collaborative_ide.Raft.Node.OneVote.{AreTimely}
use collaborative_ide.Prelude.{
  false, some, [], ◌∷◌, ℕ, Bool, List, ◌≡◌, ◌+◌, ◌==◌, ◌&&◌, ◌||◌, if◌then◌else◌,
}

-- The vote is among those.
abbrev has_vote : ℕ → ℕ → List (ℕ × ℕ) → Bool
has_vote t c [] = false
has_vote t c ((t', c') ∷ votes) = (t' == t && c' == c) || has_vote t c votes

abbrev count : {A : Type 0} → (A → Bool) → List A → ℕ
count p [] = 0
count p (x ∷ xs) = let rest = count p xs in if p x then rest + 1 else rest

module _ {C D : Type 0} where
  -- A node of a cluster of that size, after any events from its first start on.
  abbrev pub IsReached : ℕ → Node C D → Type 0
  IsReached peers s =
      (me : ℕ) × (es : List (Event C D)) × AreTimely es (boot me peers)
      × (run es (boot me peers) ≡ some s)

  -- How many of them have given that candidate their vote in that term.
  abbrev pub voters : ℕ → ℕ → List (Node C D) → ℕ
  voters t c = count (λ s. has_vote t c s.votes)
