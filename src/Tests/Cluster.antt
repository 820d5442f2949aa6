-- ===== src/Tests/Cluster.antt =====
-- Examples on the replicated state machine: a counter, to which a request adds.
use collaborative_ide.Rsm.{
  Op, done, Call, returned, waiting, Event, Rsm, submit, register, receive, finish, apply, notify,
  run, make_rsm,
}
use collaborative_ide.Rsm.Answers.{returned_value}
use collaborative_ide.Prelude.{none, some, refl, inl, [], ◌∷◌, ℕ, List, ◌≡◌, ◌+◌, IsIn}

abbrev add : ℕ → ℕ → ℕ × ℕ
add r m = (m + r, m)

abbrev load : ℕ → ℕ → ℕ
load bytes m = bytes

abbrev op : Op ℕ
op = record { req = 5; id = 1 }

abbrev call : Call ℕ ℕ
call = record { op = op; phase = returned (done 7) }

abbrev events : List (Event ℕ ℕ)
events = submit 5 (some (1, 1)) ∷ register 1 ∷ apply op 1 ∷ notify ∷ receive 1 ∷ finish 1 ∷ []

abbrev after : Rsm ℕ ℕ ℕ
after = record {
  me = 0;
  next_id = 1;
  machine = 12;
  entries = [];
  buffers = [];
  calls = call ∷ [];
  reader = none;
  applied = (op, 7) ∷ [];
}

events-run : run add load events (make_rsm add load 0 7 none) ≡ some after
unfolding run make_rsm
events-run = refl

returned_value_example :
    (o : Op ℕ) × IsIn (o, 7) after.applied
    × (o.id ≡ call.op.id)
    × ((before : ℕ) × ((add o.req before).1 ≡ 7))
returned_value_example =
    returned_value add load 0 7 none events after call 7 events-run (inl refl) refl

-- The operation may be committed and applied before Submit registers its channel. Then it is
-- told to nobody, and the call waits with nothing to come.
abbrev early : List (Event ℕ ℕ)
early = submit 5 (some (1, 1)) ∷ apply op 1 ∷ notify ∷ register 1 ∷ []

missed :
    run add load early (make_rsm add load 0 7 none)
    ≡ some (record after {
      entries = record { index = 1; id = 1; term = 1 } ∷ [];
      calls = record { op = op; phase = waiting 1 } ∷ [];
    })
unfolding run make_rsm
missed = refl
