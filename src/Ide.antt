-- ===== src/Ide.antt =====
-- components/IDE.jsx: the handlers of the session's page.
pub mod Run
pub mod Accept
pub mod View
use collaborative_ide.Prelude.{
  ℕ, ◌-◌, Bool, true, false, not, Option, none, some, List, [], ◌∷◌, map, String, str_eq, Text,
  utf16, truthy, if◌then◌else◌, keep, ltb, ◌==◌,
}
use collaborative_ide.Platform.{Platform, Index, undefined, nan, at, minus, Op, del, ins}
use collaborative_ide.PositionUtils.{Proposal, Range, positions, resolve_range, is_stale}
use collaborative_ide.Client.{
  Client, Line, json, proposal_accept, proposal_reject, role_change, run_result, with_role,
  drop_proposal, send, set_proposals, local_transact,
}

abbrev pub to_index : Option ℕ → Index
to_index none = undefined
to_index (some i) = at i

-- `endIndex - startIndex`
unfoldable pub difference : Option ℕ → Option ℕ → Index
difference (some e) (some s) = if ltb e s then minus (s - e) else at (e - s)
difference _ _ = nan

-- `proposal.startIndex !== proposal.endIndex`
unfoldable pub indices_differ : Option ℕ → Option ℕ → Bool
indices_differ none none = false
indices_differ (some s) (some e) = not (s == e)
indices_differ _ _ = true

-- The edit of a resolved range, in one transaction.
unfoldable pub range_ops : Range → Text → List Op
range_ops r replacement =
    if ltb r.start r.stop
    then del (at r.start) (at (r.stop - r.start)) ∷ ins (at r.start) replacement ∷ []
    else ins (at r.start) replacement ∷ []

-- What the server of /run answers: `data.Errors` and `data.Events`, or an exception's message.
pub record RunEvent : Type 0 where
  pub kind : String
  pub message : Text

pub data Response : Type 0 where
  answer : Option Text → Option (List RunEvent) → Response
  failure : Text → Response

-- `s.split('\n')`, the part before the first line break and the others.
unfoldable pub split_lines : Text → Text × List Text
split_lines [] = ([], [])
split_lines (c ∷ s) =
    let (first, rest) = split_lines s in if c == 10 then ([], first ∷ rest) else (c ∷ first, rest)

abbrev pub is_empty : Text → Bool
is_empty [] = true
is_empty (_ ∷ _) = false

-- `data.Errors.split('\n').filter(Boolean)`, as lines.
unfoldable pub error_lines : Text → List Line
unfolding split_lines keep
error_lines errors =
    let (first, rest) = split_lines errors in
    map (λ l. record { kind = "err"; text = l }) (keep (λ l. not (is_empty l)) (first ∷ rest))

unfoldable pub event_lines : List RunEvent → List Line
unfolding utf16
event_lines [] = record { kind = "meta"; text = utf16 "▸ (no output)" } ∷ []
event_lines (ev ∷ events) =
    map (λ e. record { kind = if str_eq e.kind "stderr" then "err" else "ok"; text = e.message })
      (ev ∷ events)

-- The lines and the status that a response comes to.
unfoldable pub run_report : Response → List Line × String
unfolding error_lines event_lines
run_report (failure message) = (record { kind = "err"; text = message } ∷ [], "err")
run_report (answer errors events) = elim (truthy errors) [
  | some text ↦ (error_lines text, "err")
  | none ↦ (event_lines (elim events [ none ↦ [] | some es ↦ es ]), "ok")
]

module _ (p : Platform) where
  unfoldable pub handle_role_change : String → String → Client p → Client p
  unfolding send with_role
  handle_role_change target role c =
      let c' = send p (json (role_change target role)) c in
      record c' { participants = map (with_role target role) c'.participants }

  unfoldable pub handle_reject_proposal : String → Client p → Client p
  unfolding send set_proposals drop_proposal
  handle_reject_proposal id c =
      let c' = send p (json (proposal_reject id)) c in
      set_proposals p (drop_proposal id c'.proposals) c'

  -- The end of `handleAcceptProposal`, which an exception in the edit skips.
  unfoldable pub finish_accept : Proposal → Client p × Bool → Client p
  unfolding send set_proposals drop_proposal
  finish_accept q (c, true) = c
  finish_accept q (c, false) =
      let c' = send p (json (proposal_accept q)) c in
      set_proposals p (drop_proposal q.id c'.proposals) c'

  unfoldable pub accept_at : Proposal → Text × Text → Client p → Client p
  unfolding handle_reject_proposal finish_accept local_transact range_ops
  accept_at q (rel_start, rel_end) c =
      if is_stale p q c.doc
      then handle_reject_proposal q.id c
      else (elim (resolve_range p c.doc rel_start rel_end) [
        | none ↦ handle_reject_proposal q.id c
        | some r ↦ finish_accept q (local_transact p (range_ops r q.replacement) c)
      ])

  -- The insertion of a proposal without positions, unless the deletion threw.
  unfoldable pub legacy_insert : Proposal → Client p × Bool → Client p × Bool
  unfolding local_transact
  legacy_insert q (c, true) = (c, true)
  legacy_insert q (c, false) = local_transact p (ins (to_index q.start_index) q.replacement ∷ []) c

  unfoldable pub accept_legacy : Proposal → Client p → Client p
  unfolding finish_accept legacy_insert local_transact indices_differ difference
  accept_legacy q c = finish_accept q (
      legacy_insert q (
        if indices_differ q.start_index q.end_index
        then local_transact p
            (del (to_index q.start_index) (difference q.end_index q.start_index) ∷ []) c
        else (c, false)))

  unfoldable pub handle_accept_proposal : Proposal → Client p → Client p
  unfolding accept_at accept_legacy
  handle_accept_proposal q c = elim (positions q) [
    | none ↦ accept_legacy q c
    | some at_range ↦ accept_at q at_range c
  ]

  -- `runCode` up to the request; the second part is the body of the request, if one is made.
  unfoldable pub run_code : Client p → Client p × Option Text
  unfolding utf16
  run_code c = if c.running then (c, none) else (
    record c {
      running = true;
      output_status = none;
      output_lines = record { kind = "meta"; text = utf16 "▸ Compiling and running…" } ∷ [];
    },
    some (p.text c.doc),
  )

  -- `runCode` from the response on.
  unfoldable pub run_response : Response → Client p → Client p
  unfolding send run_report
  run_response response c =
      let (lines, status) = run_report response in
      let c' =
        send p (json (run_result lines status))
          (record c { output_status = some status; output_lines = lines }) in
      record c' { running = false }
