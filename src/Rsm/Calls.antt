-- ===== src/Rsm/Calls.antt =====
-- The steps of Submit and of its waiter, one by one.
use mathlib.Core.Path.{subst}
use collaborative_ide.Rsm.{
  Op, OpResult, done, wrong_leader, started, waiting, received, returned, Call, Rsm, find_entry,
  find_buffer, send, start, register_call, receive_result, finish_call, notify_waiter,
}
use collaborative_ide.Rsm.Told.{
  IsTold, IsPhaseTold, IsReaderTold, AreBuffersTold, AreCallsTold, find_buffer-IsTold,
  drop_buffer-AreBuffersTold, set_phase-AreCallsTold,
}
use collaborative_ide.Prelude.{
  none, some, inl, inr, refl, ℕ, Option, ◌≡◌, Option-cases, bind_inv, IsIn, some_inj, Bool-cases,
  ◌==◌, ==_iff, All,
}

module _ {Machine Req Value : Type 0} (P : Op Req × Value → Type 0) where
  -- No value is under way to a call without an operation of its identifier that was applied, and
  -- all that was applied has the property.
  pub record IsHonest (s : Rsm Machine Req Value) : Type 0 where
    pub buffers : AreBuffersTold s.applied s.buffers
    pub calls : AreCallsTold s.applied s.calls
    pub reader : IsReaderTold s.applied s.reader
    pub recorded : All P s.applied

  pub send-IsHonest :
      (id : ℕ) (r : OpResult Value) (s s' : Rsm Machine Req Value)
      → IsTold s.applied id r
      → IsHonest s
      → send id r s ≡ some s'
      → IsHonest s'
  unfolding send
  send-IsHonest id r s s' t h e = elim (Option-cases (find_buffer id s.buffers)) [
    | inl k ↦ subst IsHonest (some_inj _ s' (rw (send, k) at e)) (record {
      buffers = (t, h.buffers);
      calls = h.calls;
      reader = h.reader;
      recorded = h.recorded;
    })
    | inr (_, k) ↦ absurd (cc (rw (send, k) at e))
  ]

  pub start-IsHonest :
      (req : Req) (answer : Option (ℕ × ℕ)) (s : Rsm Machine Req Value)
      → IsHonest s
      → IsHonest (start req answer s)
  unfolding start
  start-IsHonest req none s h = record {
    buffers = h.buffers;
    calls = (tt, h.calls);
    reader = h.reader;
    recorded = h.recorded;
  }
  start-IsHonest req (some (index, term)) s h = record {
    buffers = h.buffers;
    calls = (tt, h.calls);
    reader = h.reader;
    recorded = h.recorded;
  }

  pub register-IsHonest :
      (c : Call Req Value) (s s' : Rsm Machine Req Value)
      → IsHonest s
      → register_call c s ≡ some s'
      → IsHonest s'
  unfolding register_call
  register-IsHonest c s s' h e =
      elim c.phase as (λ ph. c.phase ≡ ph → IsHonest s') [
        | started index term ↦ λ k.
            subst IsHonest (some_inj _ s' (rw (register_call, k) at e)) (record {
              buffers = h.buffers;
              calls = set_phase-AreCallsTold s.applied c.op.id (waiting index) s.calls tt h.calls;
              reader = h.reader;
              recorded = h.recorded;
            })
        | waiting index ↦ λ k. absurd (cc (rw (register_call, k) at e))
        | received index r ↦ λ k. absurd (cc (rw (register_call, k) at e))
        | returned r ↦ λ k. absurd (cc (rw (register_call, k) at e))
      ]
        refl

  pub receive-IsHonest :
      (c : Call Req Value) (s s' : Rsm Machine Req Value)
      → IsHonest s
      → receive_result c s ≡ some s'
      → IsHonest s'
  unfolding receive_result
  receive-IsHonest c s s' h e =
      elim c.phase as (λ ph. c.phase ≡ ph → IsHonest s') [
        | started index term ↦ λ k. absurd (cc (rw (receive_result, k) at e))
        | waiting index ↦ λ k.
            let (r, found, e') =
              bind_inv (find_buffer c.op.id s.buffers) _ s' (rw (receive_result, k) at e) in
            subst IsHonest (some_inj _ s' e') (record {
              buffers = drop_buffer-AreBuffersTold s.applied c.op.id s.buffers h.buffers;
              calls =
                  set_phase-AreCallsTold s.applied c.op.id (received index r) s.calls
                    (find_buffer-IsTold s.applied c.op.id s.buffers r found h.buffers) h.calls;
              reader = h.reader;
              recorded = h.recorded;
            })
        | received index r ↦ λ k. absurd (cc (rw (receive_result, k) at e))
        | returned r ↦ λ k. absurd (cc (rw (receive_result, k) at e))
      ]
        refl

  pub finish-IsHonest :
      (c : Call Req Value) (s s' : Rsm Machine Req Value)
      → IsPhaseTold s.applied c.op.id c.phase
      → IsHonest s
      → finish_call c s ≡ some s'
      → IsHonest s'
  unfolding finish_call
  finish-IsHonest c s s' t h e =
      elim c.phase as (λ ph. c.phase ≡ ph → IsHonest s') [
        | started index term ↦ λ k. absurd (cc (rw (finish_call, k) at e))
        | waiting index ↦ λ k. absurd (cc (rw (finish_call, k) at e))
        | received index r ↦ λ k.
            subst IsHonest (some_inj _ s' (rw (finish_call, k) at e)) (record {
              buffers = h.buffers;
              calls =
                  set_phase-AreCallsTold s.applied c.op.id (returned r) s.calls
                    (subst (IsPhaseTold s.applied c.op.id) k t) h.calls;
              reader = h.reader;
              recorded = h.recorded;
            })
        | returned r ↦ λ k. absurd (cc (rw (finish_call, k) at e))
      ]
        refl

  pub notify-IsHonest :
      (op : Op Req) (index : ℕ) (v : Value) (s s' : Rsm Machine Req Value)
      → IsIn (op, v) s.applied
      → IsHonest s
      → notify_waiter (op, index, v) s ≡ some s'
      → IsHonest s'
  unfolding notify_waiter
  notify-IsHonest op index v s s' there h e = elim (Option-cases (find_entry index s.entries)) [
    | inl k ↦ subst IsHonest (some_inj s s' (rw (notify_waiter, k) at e)) h
    | inr (entry, k) ↦ elim (Bool-cases (op.id == entry.id)) [
      | inl m ↦
          send-IsHonest entry.id (done v) s s' (op, there, (==_iff op.id entry.id).0 m) h
            (rw (notify_waiter, k, m) at e)
      | inr m ↦ send-IsHonest entry.id wrong_leader s s' tt h (rw (notify_waiter, k, m) at e)
    ]
  ]
