-- ===== src/Rsm/Answers.antt =====
-- What a call of Submit is told: a value only for an operation of its identifier that DoOp was given.
use collaborative_ide.Rsm.Calls.{
  IsHonest, start-IsHonest, register-IsHonest, receive-IsHonest, finish-IsHonest, notify-IsHonest,
  send-IsHonest,
}
use mathlib.Core.Path.{subst}
use collaborative_ide.Rsm.{
  Op, done, wrong_leader, returned, Call, Event, Rsm, submit, register, receive, finish, apply,
  notify, restore, wake, check, find_entry, find_call, apply_op, step, run, make_rsm, close,
}
use collaborative_ide.Rsm.Told.{
  IsPhaseTold, IsReaderTold, AreCallsTold, AreBuffersTold-later, AreCallsTold-later,
  find_call-IsPhaseTold,
}
use collaborative_ide.Prelude.{
  none, some, inl, inr, refl, [], ◌∷◌, ℕ, Option, ◌≡◌, List, Option-cases, bind_inv, IsIn, some_inj,
  Bool-cases, ltb, sym, All,
}

module _ {Machine Req Value Snapshot : Type 0} (do_op : Req → Machine → Machine × Value)
    (load : Snapshot → Machine → Machine) where
  -- DoOp returned that value for the operation, in some state.
  abbrev pub IsComputed : Op Req × Value → Type 0
  IsComputed (op, v) = (before : Machine) × ((do_op op.req before).1 ≡ v)

  abbrev IsSound : Rsm Machine Req Value → Type 0
  IsSound = IsHonest IsComputed

  apply_op-IsSound :
      (op : Op Req) (index : ℕ) (s : Rsm Machine Req Value)
      → IsSound s
      → IsSound (apply_op do_op load op index s)
  unfolding apply_op
  apply_op-IsSound op index s h = record {
    buffers = AreBuffersTold-later _ s.applied s.buffers h.buffers;
    calls = AreCallsTold-later _ s.applied s.calls h.calls;
    reader = inl refl;
    recorded = ((s.machine, refl), h.recorded);
  }

  step-IsSound :
      (ev : Event Req Snapshot) (s s' : Rsm Machine Req Value)
      → IsSound s
      → step do_op load ev s ≡ some s'
      → IsSound s'
  unfolding step
  step-IsSound (submit req answer) s s' h e =
      subst IsSound (some_inj _ s' e) (start-IsHonest IsComputed req answer s h)
  step-IsSound (register id) s s' h e =
      let (c, found, e') = bind_inv (find_call id s.calls) _ s' e in
      register-IsHonest IsComputed c s s' h e'
  step-IsSound (receive id) s s' h e =
      let (c, found, e') = bind_inv (find_call id s.calls) _ s' e in
      receive-IsHonest IsComputed c s s' h e'
  step-IsSound (finish id) s s' h e =
      let (c, found, e') = bind_inv (find_call id s.calls) _ s' e in
      finish-IsHonest IsComputed c s s' (find_call-IsPhaseTold s.applied id s.calls c found h.calls)
        h e'
  step-IsSound (apply op index) s s' h e = elim (Option-cases s.reader) [
    | inl k ↦ subst IsSound (some_inj _ s' (rw (step, k) at e)) (apply_op-IsSound op index s h)
    | inr (_, k) ↦ absurd (cc (rw (step, k) at e))
  ]
  step-IsSound notify s s' h e =
      let ((op, index, v), found, e') = bind_inv s.reader _ s' e in
      notify-IsHonest IsComputed op index v (record s { reader = none }) s'
        (subst (IsReaderTold s.applied) found h.reader)
        (record { buffers = h.buffers; calls = h.calls; reader = tt; recorded = h.recorded }) e'
  step-IsSound (restore bytes) s s' h e = elim (Option-cases s.reader) [
    | inl k ↦
        subst IsSound (some_inj _ s' (rw (step, k) at e)) (record {
          buffers = h.buffers;
          calls = h.calls;
          reader = h.reader;
          recorded = h.recorded;
        })
    | inr (_, k) ↦ absurd (cc (rw (step, k) at e))
  ]
  step-IsSound (wake index) s s' h e =
      let (entry, found, e') = bind_inv (find_entry index s.entries) _ s' e in
      send-IsHonest IsComputed entry.id wrong_leader _ s' tt
        (record { buffers = h.buffers; calls = h.calls; reader = h.reader; recorded = h.recorded })
        e'
  step-IsSound (close index) s s' h e =
      let (entry, found, e') = bind_inv (find_entry index s.entries) _ s' e in
      send-IsHonest IsComputed entry.id wrong_leader s s' tt h e'
  step-IsSound (check index current) s s' h e =
      let (entry, found, e') = bind_inv (find_entry index s.entries) _ s' e in
      elim (Bool-cases (ltb entry.term current)) [
        | inl k ↦ send-IsHonest IsComputed entry.id wrong_leader s s' tt h (rw (k) at e')
        | inr k ↦ absurd (cc (rw (k) at e'))
      ]

  run-IsSound :
      (evs : List (Event Req Snapshot)) (s s' : Rsm Machine Req Value)
      → IsSound s
      → run do_op load evs s ≡ some s'
      → IsSound s'
  unfolding run
  run-IsSound [] s s' h e = subst IsSound (some_inj s s' e) h
  run-IsSound (ev ∷ evs) s s' h e =
      let (s₁, e₁, e₂) = bind_inv (step do_op load ev s) _ s' e in
      run-IsSound evs s₁ s' (step-IsSound ev s s₁ h e₁) e₂

  told_of_call :
      (log : List (Op Req × Value)) (cs : List (Call Req Value)) (c : Call Req Value)
      → AreCallsTold log cs
      → IsIn c cs
      → IsPhaseTold log c.op.id c.phase
  told_of_call log [] c h k = absurd k
  told_of_call log (c' ∷ cs) c (h, hs) (inl e) =
      subst (λ x. IsPhaseTold log x.op.id x.phase) (sym e) h
  told_of_call log (c' ∷ cs) c (h, hs) (inr k) = told_of_call log cs c hs k

  recorded_of :
      (log : List (Op Req × Value)) (a : Op Req × Value)
      → All IsComputed log
      → IsIn a log
      → IsComputed a
  recorded_of [] a h k = absurd k
  recorded_of (a' ∷ log) a (h, hs) (inl e) = subst IsComputed (sym e) h
  recorded_of (a' ∷ log) a (h, hs) (inr k) = recorded_of log a hs k

  -- However the steps of the goroutines interleave and whatever Raft commits, a call of Submit
  -- returns OK with a value only if DoOp was given a committed operation with the identifier of the
  -- call and returned that value for it in some state of the machine.
  pub returned_value :
      (me : ℕ) (m : Machine) (saved : Option Snapshot) (evs : List (Event Req Snapshot))
      (s : Rsm Machine Req Value) (c : Call Req Value) (v : Value)
      → run do_op load evs (make_rsm do_op load me m saved) ≡ some s
      → IsIn c s.calls
      → c.phase ≡ returned (done v)
      → (op : Op Req) × IsIn (op, v) s.applied
        × (op.id ≡ c.op.id)
        × ((before : Machine) × ((do_op op.req before).1 ≡ v))
  unfolding make_rsm
  returned_value me m saved evs s c v e k ph =
      let sound =
        run-IsSound evs (make_rsm do_op load me m saved) s
          (record { buffers = tt; calls = tt; reader = tt; recorded = tt }) e in
      let (op, there, same) =
        subst (IsPhaseTold s.applied c.op.id) ph (told_of_call s.applied s.calls c sound.calls k) in
      (op, there, same, recorded_of s.applied (op, v) sound.recorded there)
