-- ===== src/Rsm/Told.antt =====
-- What the results of a log of operations allow the waiters, the buffers and the reader to hold.
use mathlib.Core.Path.{subst}
use collaborative_ide.Rsm.{
  Op, OpResult, done, wrong_leader, Phase, started, waiting, received, returned, Call, find_call,
  set_phase, find_buffer, drop_buffer,
}
use collaborative_ide.Prelude.{
  none, some, inl, inr, [], ◌∷◌, List, keep, ℕ, Option, All, IsIn, ◌≡◌, Bool-cases, ◌==◌, ==_iff,
  sym, some_inj,
}

module _ {Req Value : Type 0} where
  abbrev pub IsTold : List (Op Req × Value) → ℕ → OpResult Value → Type 0
  IsTold log id (done v) = (op : Op Req) × IsIn (op, v) log × (op.id ≡ id)
  IsTold log id wrong_leader = Unit

  abbrev pub IsPhaseTold : List (Op Req × Value) → ℕ → Phase Value → Type 0
  IsPhaseTold log id (started index term) = Unit
  IsPhaseTold log id (waiting index) = Unit
  IsPhaseTold log id (received index r) = IsTold log id r
  IsPhaseTold log id (returned r) = IsTold log id r

  abbrev pub IsReaderTold : List (Op Req × Value) → Option (Op Req × ℕ × Value) → Type 0
  IsReaderTold log none = Unit
  IsReaderTold log (some (op, index, v)) = IsIn (op, v) log

  abbrev pub AreBuffersTold : List (Op Req × Value) → List (ℕ × OpResult Value) → Type 0
  AreBuffersTold log = All (λ b. IsTold log b.0 b.1)

  abbrev pub AreCallsTold : List (Op Req × Value) → List (Call Req Value) → Type 0
  AreCallsTold log = All (λ c. IsPhaseTold log c.op.id c.phase)

  pub IsTold-later :
      (a : Op Req × Value) (log : List (Op Req × Value)) (id : ℕ) (r : OpResult Value)
      → IsTold log id r
      → IsTold (a ∷ log) id r
  IsTold-later a log id (done v) (op, there, same) = (op, inr there, same)
  IsTold-later a log id wrong_leader h = tt

  IsPhaseTold-later :
      (a : Op Req × Value) (log : List (Op Req × Value)) (id : ℕ) (ph : Phase Value)
      → IsPhaseTold log id ph
      → IsPhaseTold (a ∷ log) id ph
  IsPhaseTold-later a log id (started index term) h = tt
  IsPhaseTold-later a log id (waiting index) h = tt
  IsPhaseTold-later a log id (received index r) h = IsTold-later a log id r h
  IsPhaseTold-later a log id (returned r) h = IsTold-later a log id r h

  pub AreBuffersTold-later :
      (a : Op Req × Value) (log : List (Op Req × Value)) (bs : List (ℕ × OpResult Value))
      → AreBuffersTold log bs
      → AreBuffersTold (a ∷ log) bs
  AreBuffersTold-later a log [] h = tt
  AreBuffersTold-later a log (b ∷ bs) (h, hs) =
      (IsTold-later a log b.0 b.1 h, AreBuffersTold-later a log bs hs)

  pub AreCallsTold-later :
      (a : Op Req × Value) (log : List (Op Req × Value)) (cs : List (Call Req Value))
      → AreCallsTold log cs
      → AreCallsTold (a ∷ log) cs
  AreCallsTold-later a log [] h = tt
  AreCallsTold-later a log (c ∷ cs) (h, hs) =
      (IsPhaseTold-later a log c.op.id c.phase h, AreCallsTold-later a log cs hs)

  pub find_buffer-IsTold :
      (log : List (Op Req × Value)) (id : ℕ) (bs : List (ℕ × OpResult Value)) (r : OpResult Value)
      → find_buffer id bs ≡ some r
      → AreBuffersTold log bs
      → IsTold log id r
  unfolding find_buffer
  find_buffer-IsTold log id [] r e h = absurd (cc e)
  find_buffer-IsTold log id (b ∷ bs) r e (h, hs) = elim (Bool-cases (b.0 == id)) [
    | inl k ↦
        subst (λ i. IsTold log i r) ((==_iff b.0 id).0 k)
          (subst (IsTold log b.0) (some_inj b.1 r (rw (k) at e)) h)
    | inr k ↦ find_buffer-IsTold log id bs r (rw (k) at e) hs
  ]

  pub drop_buffer-AreBuffersTold :
      (log : List (Op Req × Value)) (id : ℕ) (bs : List (ℕ × OpResult Value))
      → AreBuffersTold log bs
      → AreBuffersTold log (drop_buffer id bs)
  unfolding drop_buffer keep
  drop_buffer-AreBuffersTold log id [] h = tt
  drop_buffer-AreBuffersTold log id (b ∷ bs) (h, hs) = elim (Bool-cases (b.0 == id)) [
    | inl k ↦ rw (drop_buffer, keep, k) (drop_buffer-AreBuffersTold log id bs hs)
    | inr k ↦ rw (drop_buffer, keep, k) (h, drop_buffer-AreBuffersTold log id bs hs)
  ]

  pub set_phase-AreCallsTold :
      (log : List (Op Req × Value)) (id : ℕ) (ph : Phase Value) (cs : List (Call Req Value))
      → IsPhaseTold log id ph
      → AreCallsTold log cs
      → AreCallsTold log (set_phase id ph cs)
  unfolding set_phase
  set_phase-AreCallsTold log id ph [] p h = tt
  set_phase-AreCallsTold log id ph (c ∷ cs) p (h, hs) = elim (Bool-cases (c.op.id == id)) [
    | inl k ↦ rw (k) (
      subst (λ i. IsPhaseTold log i ph) (sym ((==_iff c.op.id id).0 k)) p,
      set_phase-AreCallsTold log id ph cs p hs,
    )
    | inr k ↦ rw (k) (h, set_phase-AreCallsTold log id ph cs p hs)
  ]

  pub find_call-IsPhaseTold :
      (log : List (Op Req × Value)) (id : ℕ) (cs : List (Call Req Value)) (c : Call Req Value)
      → find_call id cs ≡ some c
      → AreCallsTold log cs
      → IsPhaseTold log c.op.id c.phase
  unfolding find_call
  find_call-IsPhaseTold log id [] c e h = absurd (cc e)
  find_call-IsPhaseTold log id (c' ∷ cs) c e (h, hs) = elim (Bool-cases (c'.op.id == id)) [
    | inl k ↦ subst (λ x. IsPhaseTold log x.op.id x.phase) (some_inj c' c (rw (k) at e)) h
    | inr k ↦ find_call-IsPhaseTold log id cs c (rw (k) at e) hs
  ]
