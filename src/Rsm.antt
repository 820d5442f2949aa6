-- ===== src/Rsm.antt =====
-- rsm/rsm.go: Submit, the goroutine `reader` and the goroutine `leaderCheck`, as steps that
-- interleave. What Raft says is part of an event: the answer of Start, the committed entries, the
-- snapshots, the term. `none` is a step that cannot be taken: its goroutine is elsewhere or blocked.
-- A loop over the waiters is a step for each; that it holds the lock meanwhile is not used, so the
-- model has all runs of the code and more.
pub mod Told
pub mod Calls
pub mod Answers
use collaborative_ide.Prelude.{
  ℕ, ◌+◌, ◌*◌, ◌^◌, Bool, true, false, not, ◌&&◌, Option, none, some, List, [], ◌∷◌, keep, ltb,
  ◌==◌, if◌then◌else◌, ◌>>=◌,
}

pub record Op (Req : Type 0) : Type 0 where
  pub req : Req
  pub id : ℕ

-- An error other than OK is ErrWrongLeader, without a value.
pub data OpResult (Value : Type 0) : Type 0 where
  done : Value → OpResult Value
  wrong_leader : OpResult Value

-- `channels`, `chanIds` and `chanTerms` have the same keys. Each call of Submit makes one channel,
-- which is known here by the identifier of the call.
pub record Entry : Type 0 where
  pub index : ℕ
  pub id : ℕ
  pub term : ℕ

-- Where a call of Submit is: after Start, after the registration of its channel, after `<-currChannel`,
-- and at its end.
pub data Phase (Value : Type 0) : Type 0 where
  started : ℕ → ℕ → Phase Value
  waiting : ℕ → Phase Value
  received : ℕ → OpResult Value → Phase Value
  returned : OpResult Value → Phase Value

pub record Call (Req Value : Type 0) : Type 0 where
  pub op : Op Req
  pub phase : Phase Value

-- The indices are those of the entry, the numbers those of the call.
pub data Event (Req Snapshot : Type 0) : Type 0 where
  -- Submit, with what Start answers: the index and the term, for a leader
  submit : Req → Option (ℕ × ℕ) → Event Req Snapshot
  register receive finish : ℕ → Event Req Snapshot
  -- the reader: a committed operation at an index, and the answer to its waiter
  apply : Op Req → ℕ → Event Req Snapshot
  notify : Event Req Snapshot
  -- the reader: a snapshot, and a waiter that it wakes
  restore : Snapshot → Event Req Snapshot
  wake : ℕ → Event Req Snapshot
  -- the reader, after `applyCh` closed: a waiter that it wakes
  close : ℕ → Event Req Snapshot
  -- leaderCheck: a waiter, in the current term
  check : ℕ → ℕ → Event Req Snapshot

-- `applied` records what DoOp was given and returned, the latest first; `reader` is the committed
-- operation whose waiter is still to be told, with its index and its value.
pub record Rsm (Machine Req Value : Type 0) : Type 0 where
  pub me : ℕ
  pub next_id : ℕ
  pub machine : Machine
  pub entries : List Entry
  pub buffers : List (ℕ × OpResult Value)
  pub calls : List (Call Req Value)
  pub reader : Option (Op Req × ℕ × Value)
  pub applied : List (Op Req × Value)

unfoldable pub find_entry : ℕ → List Entry → Option Entry
find_entry index [] = none
find_entry index (e ∷ es) = if e.index == index then some e else find_entry index es

unfoldable pub delete_entry : ℕ → List Entry → List Entry
unfolding keep
delete_entry index = keep (λ e. not (e.index == index))

module _ {Req Value : Type 0} where
  unfoldable pub find_call : ℕ → List (Call Req Value) → Option (Call Req Value)
  find_call id [] = none
  find_call id (c ∷ cs) = if c.op.id == id then some c else find_call id cs

  unfoldable pub set_phase : ℕ → Phase Value → List (Call Req Value) → List (Call Req Value)
  set_phase id phase [] = []
  set_phase id phase (c ∷ cs) =
      let rest = set_phase id phase cs in
      if c.op.id == id then record c { phase = phase } ∷ rest else c ∷ rest

module _ {Value : Type 0} where
  unfoldable pub find_buffer : ℕ → List (ℕ × OpResult Value) → Option (OpResult Value)
  find_buffer id [] = none
  find_buffer id (b ∷ bs) = if b.0 == id then some b.1 else find_buffer id bs

  unfoldable pub drop_buffer : ℕ → List (ℕ × OpResult Value) → List (ℕ × OpResult Value)
  unfolding keep
  drop_buffer id = keep (λ b. not (b.0 == id))

module _ {Machine Req Value : Type 0} where
  -- A send on a channel of capacity 1 blocks while a result is in it.
  unfoldable pub send : ℕ → OpResult Value → Rsm Machine Req Value → Option (Rsm Machine Req Value)
  unfolding find_buffer
  send id r s = elim (find_buffer id s.buffers) [
    | none ↦ some (record s { buffers = (id, r) ∷ s.buffers })
    | some _ ↦ none
  ]

  -- `int64(rsm.me)<<32 | rsm.nextId`, of which the `|` is a sum while the numbers are below 2^32.
  unfoldable pub new_id : Rsm Machine Req Value → ℕ
  new_id s = s.me * 2 ^ 32 + (s.next_id + 1)

  unfoldable pub start : Req → Option (ℕ × ℕ) → Rsm Machine Req Value → Rsm Machine Req Value
  unfolding new_id
  start req answer s = record s {
    next_id = s.next_id + 1;
    calls =
        record {
          op = record { req = req; id = new_id s };
          phase = elim answer [
            | none ↦ returned wrong_leader
            | some (index, term) ↦ started index term
          ];
        }
        ∷ s.calls;
  }

  unfoldable pub register_call :
      Call Req Value → Rsm Machine Req Value → Option (Rsm Machine Req Value)
  unfolding delete_entry set_phase
  register_call c s = elim c.phase [
    | started index term ↦ some (record s {
      entries = record { index = index; id = c.op.id; term = term } ∷ delete_entry index s.entries;
      calls = set_phase c.op.id (waiting index) s.calls;
    })
    | _ ↦ none
  ]

  unfoldable pub receive_result :
      Call Req Value → Rsm Machine Req Value → Option (Rsm Machine Req Value)
  unfolding find_buffer drop_buffer set_phase
  receive_result c s = elim c.phase [
    | waiting index ↦ do
      r ← find_buffer c.op.id s.buffers
      some (record s {
        buffers = drop_buffer c.op.id s.buffers;
        calls = set_phase c.op.id (received index r) s.calls;
      })
    | _ ↦ none
  ]

  unfoldable pub finish_call :
      Call Req Value → Rsm Machine Req Value → Option (Rsm Machine Req Value)
  unfolding delete_entry set_phase
  finish_call c s = elim c.phase [
    | received index r ↦ some (record s {
      entries = delete_entry index s.entries;
      calls = set_phase c.op.id (returned r) s.calls;
    })
    | _ ↦ none
  ]

  unfoldable pub notify_waiter :
      Op Req × ℕ × Value → Rsm Machine Req Value → Option (Rsm Machine Req Value)
  unfolding find_entry send
  notify_waiter (op, index, v) s = elim (find_entry index s.entries) [
    | none ↦ some s
    | some e ↦ send e.id (if op.id == e.id then done v else wrong_leader) s
  ]

-- DoOp and Restore are the state machine's.
module _ {Machine Req Value Snapshot : Type 0} (do_op : Req → Machine → Machine × Value)
    (load : Snapshot → Machine → Machine) where
  -- That the reader may have Raft take a snapshot here changes nothing of this state.
  unfoldable pub apply_op : Op Req → ℕ → Rsm Machine Req Value → Rsm Machine Req Value
  apply_op op index s =
      let (machine, v) = do_op op.req s.machine in
      record s { machine = machine; reader = some (op, index, v); applied = (op, v) ∷ s.applied }

  unfoldable pub step : Event Req Snapshot → Rsm Machine Req Value → Option (Rsm Machine Req Value)
  unfolding start register_call receive_result finish_call apply_op notify_waiter find_call
      find_entry send delete_entry
  step (submit req answer) s = some (start req answer s)
  step (register id) s = do c ← find_call id s.calls; register_call c s
  step (receive id) s = do c ← find_call id s.calls; receive_result c s
  step (finish id) s = do c ← find_call id s.calls; finish_call c s
  step (apply op index) s = elim s.reader [ none ↦ some (apply_op op index s) | some _ ↦ none ]
  step notify s = do p ← s.reader; notify_waiter p (record s { reader = none })
  step (restore bytes) s = elim s.reader [
    | none ↦ some (record s { machine = load bytes s.machine })
    | some _ ↦ none
  ]
  step (wake index) s = do
    e ← find_entry index s.entries
    send e.id wrong_leader (record s { entries = delete_entry index s.entries })
  step (close index) s = do e ← find_entry index s.entries; send e.id wrong_leader s
  step (check index current) s = do
    e ← find_entry index s.entries
    if ltb e.term current then send e.id wrong_leader s else none

  unfoldable pub run :
      List (Event Req Snapshot) → Rsm Machine Req Value → Option (Rsm Machine Req Value)
  unfolding step
  run [] s = some s
  run (e ∷ es) s = do s' ← step e s; run es s'

  -- MakeRSM, with the snapshot that was saved, if any.
  unfoldable pub make_rsm : ℕ → Machine → Option Snapshot → Rsm Machine Req Value
  make_rsm me m saved = record {
    me = me;
    next_id = 0;
    machine = elim saved [ none ↦ m | some bytes ↦ load bytes m ];
    entries = [];
    buffers = [];
    calls = [];
    reader = none;
    applied = [];
  }
