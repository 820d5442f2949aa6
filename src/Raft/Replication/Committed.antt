-- ===== src/Raft/Replication/Committed.antt =====
-- raft/raft.go: which entry a leader commits after a reply.
use mathlib.Core.Path.{subst}
use collaborative_ide.Raft.Replication.Holders.{HaveMost, most_counted, counted_most}
use collaborative_ide.Raft.Entries.{entry_within}
use collaborative_ide.Raft.{Raft, LogEntry, entry_at, last_log_index}
use collaborative_ide.Raft.Replication.{advance_commit, find_commit, replicas, commit_to, majority}
use collaborative_ide.Prelude.{
  none, some, refl, true, inl, inr, ℕ, ◌≡◌, ◌≤◌, ◌<◌, ◌+◌, ◌-◌, ◌⊎◌, zero, suc, Option, if_intro,
  leb, ◌&&◌, arith, ==_iff, ◌==◌, Bool, &&-true, some_inj, length, sym, Gives, bind_some, ◌∙◌,
  Gives-bind, ap,
}

below_or_top : (j c n : ℕ) → j ≤ c + suc n → (j ≤ c + n) ⊎ (j ≡ c + suc n)
below_or_top j c n h = grind arith

module _ {C D : Type 0} where
  -- The entry is of that term, and more than half of the nodes have it.
  pub record IsReplicated (t i : ℕ) (r : Raft C D) : Type 0 where
    pub entry : LogEntry C
    pub found : entry_at i r ≡ some entry
    pub present : entry.term ≡ t
    pub most : HaveMost i r

  abbrev passes : ℕ → ℕ → LogEntry C → Raft C D → Bool
  passes t i e r = e.term == t && leb (majority r) (1 + replicas r.me i 0 r.match_index)

  passes-IsReplicated :
      (t i : ℕ) (e : LogEntry C) (r : Raft C D)
      → entry_at i r ≡ some e
      → passes t i e r ≡ true
      → IsReplicated t i r
  passes-IsReplicated t i e r found ok =
      let (same, most) = &&-true (e.term == t) _ ok in
      record {
        entry = e;
        found = found;
        present = ground (arith, ==_iff e.term t);
        most = most_counted i r most;
      }

  IsReplicated-passes :
      (t i : ℕ) (e : LogEntry C) (r : Raft C D)
      → entry_at i r ≡ some e
      → IsReplicated t i r
      → passes t i e r ≡ true
  IsReplicated-passes t i e r found k =
      let same : e ≡ k.entry = some_inj e k.entry (sym found ∙ k.found) in
      let present : e.term ≡ t = ap (λ e'. e'.term) same ∙ k.present in
      ground (arith, ==_iff e.term t, present, counted_most i r k.most)

  -- What the search over the n indices above the commit index finds.
  abbrev IsGreatest : ℕ → ℕ → Raft C D → Option ℕ → Type 0
  IsGreatest t n r none =
      (j : ℕ) → r.commit_index < j → j ≤ r.commit_index + n → ¬ IsReplicated t j r
  IsGreatest t n r (some i) =
      (r.commit_index < i)
      × (i ≤ r.commit_index + n)
      × IsReplicated t i r
      × ((j : ℕ) → i < j → j ≤ r.commit_index + n → ¬ IsReplicated t j r)

  widen :
      (t n : ℕ) (r : Raft C D) (o : Option ℕ)
      → ¬ IsReplicated t (r.commit_index + suc n) r
      → IsGreatest t n r o
      → IsGreatest t (suc n) r o
  widen t n r none not_top k = λ j above below. elim (below_or_top j r.commit_index n below) [
    | inl low ↦ k j above low
    | inr top ↦ λ h. not_top (subst (λ i. IsReplicated t i r) top h)
  ]
  widen t n r (some i) not_top (above, below, has, k) = (
    above,
    omega arith,
    has,
    λ j above' below'. elim (below_or_top j r.commit_index n below') [
      | inl low ↦ k j above' low
      | inr top ↦ λ h. not_top (subst (λ i. IsReplicated t i r) top h)
    ],
  )

  find_commit-IsGreatest :
      (t n : ℕ) (r : Raft C D)
      → r.last_included_index ≤ r.commit_index
      → 0 < length r.log
      → ((i : ℕ) → r.commit_index < i → i ≤ r.commit_index + n → i ≤ last_log_index r)
      → Gives (IsGreatest t n r) (find_commit t n r)
  unfolding find_commit
  find_commit-IsGreatest t zero r above filled within =
      (none, refl, λ j above' below. absurd (omega arith))
  find_commit-IsGreatest t (suc n) r above filled within =
      let i = r.commit_index + suc n in
      let (e, found) =
        entry_within i r (omega arith) (within i (omega arith) (omega arith)) filled in
      let (o, rest, k) =
        find_commit-IsGreatest t n r above filled (λ j a b. within j a (omega arith)) in
      Gives-bind (IsGreatest t (suc n) r) (entry_at i r) e _ found (
        if_intro (Gives (IsGreatest t (suc n) r)) (passes t i e r)
          (λ ok. (
            some i,
            refl,
            (
              omega arith,
              omega arith,
              passes-IsReplicated t i e r found ok,
              λ j above' below. absurd (omega arith),
            ),
          ))
          (λ bad. (
            o,
            rest,
            widen t n r o (λ h. absurd (cc (bad, IsReplicated-passes t i e r found h))) k,
          )))

  -- A leader whose log is not empty and does not begin above its commit index looks at no entry
  -- outside of its log. What it has committed after a reply in its term is what it had committed, or a
  -- later entry of its log that is of that term and that more than half of the nodes have, as far as
  -- it knows; no entry after it is one of that term that more than half of the nodes have. Nothing but
  -- the commit index changes.
  pub advance_commit_lem :
      (t : ℕ) (r : Raft C D)
      → r.last_included_index ≤ r.commit_index
      → 0 < length r.log
      → (r' : Raft C D) × (advance_commit t r ≡ some r')
        × (r' ≡ (record r { commit_index = r'.commit_index }))
        × ((r'.commit_index ≡ r.commit_index)
            ⊎ ((r.commit_index < r'.commit_index)
                × (r'.commit_index ≤ last_log_index r)
                × IsReplicated t r'.commit_index r))
        × ((j : ℕ) → r'.commit_index < j → j ≤ last_log_index r → ¬ IsReplicated t j r)
  unfolding advance_commit
  advance_commit_lem t r above filled =
      let (o, found, k) =
        find_commit-IsGreatest t (last_log_index r - r.commit_index) r above filled
          (λ i a b. omega arith) in
      let (only, moved, greatest) = go o k in
      (
        commit_to o r,
        bind_some (find_commit t (last_log_index r - r.commit_index) r) _ o found,
        only,
        moved,
        greatest,
      )
    where
      go :
          (o : Option ℕ)
          → IsGreatest t (last_log_index r - r.commit_index) r o
          → (commit_to o r ≡ (record r { commit_index = (commit_to o r).commit_index }))
            × (((commit_to o r).commit_index ≡ r.commit_index)
                ⊎ ((r.commit_index < (commit_to o r).commit_index)
                    × ((commit_to o r).commit_index ≤ last_log_index r)
                    × IsReplicated t (commit_to o r).commit_index r))
            × ((j : ℕ)
                → (commit_to o r).commit_index < j
                → j ≤ last_log_index r
                → ¬ IsReplicated t j r)
      go none k = (refl, inl refl, λ j above' below. k j above' (omega arith))
      go (some i) (above', below, has, k) =
          (refl, inr (above', omega arith, has), λ j high low. k j high (omega arith))
