-- ===== src/Session/Induction.antt =====
-- Induction over the events of a session: a predicate on clients that the few elementary changes
-- keep is kept by every handler.
use collaborative_ide.Sidebar.{submit_proposal, Dialog}
use collaborative_ide.PositionUtils.{
  positions, is_stale, resolve_range, to_base64, Proposal, encode_range,
}
use collaborative_ide.Ide.{
  finish_accept, legacy_insert, Response, indices_differ, to_index, difference, run_code,
  handle_reject_proposal, handle_accept_proposal, handle_role_change, accept_at, accept_legacy,
  run_response,
}
use collaborative_ide.Prelude.{
  ℕ, ◌≡◌, inl, inr, Bool, true, false, List, [], ◌∷◌, arith, Bool-cases, Option-cases, String,
  Option, some, none, ◌++◌, if◌then◌else◌, Text, not, ◌&&◌, str_eq, length, ◌==◌, text_eq, ◌⊎◌,
}
use collaborative_ide.Platform.{Platform, Op, ins, at, del}
use collaborative_ide.Client.{
  Client, Participant, Line, closed, send, ws_send, on_update, set_doc, set_proposals,
  local_transact, on_some, on_proposal, drop_proposal, is_ready, json, Message, ready,
}
use collaborative_ide.CollabWs.{
  Incoming, redirect, participants, proposal, role_change, run_result, sync_sv, sync_update, other,
  do_sync_handshake, on_awareness_change, set_awareness, on_timeout, after_starter, starter,
  on_binary, on_text, mark_received, on_open,
}
use collaborative_ide.Session.{
  Event, opened, leader_connected, timed_out, binary_frame, text_frame, malformed, disconnected,
  moved, edited, role_selected, accept_clicked, reject_clicked, submit_clicked, run_clicked,
  run_answered, is_editor, step,
}

-- Every message but the answer to a state vector.
abbrev pub IsNoAnswer : Message → Type 0
IsNoAnswer (Message.sync_update b64 to) = ⊥
IsNoAnswer _ = Unit

pub record Closed (p : Platform) (P : Client p → Type 0) : Type 0 where
  pub sends : (m : Message) → IsNoAnswer m → (c : Client p) → P c → P (send p (json m) c)
  pub ws_sends : (m : Message) → IsNoAnswer m → (c : Client p) → P c → P (ws_send p (json m) c)
  pub updates : (c : Client p) → P c → P (on_update p c)
  pub documents : (d : p.Doc) (c : Client p) → P c → P (set_doc p d c)
  pub idles :
      (ops : List Op) (c : Client p)
      → (p.transact ops c.doc).fired ≡ false
      → P c
      → P (record c { doc = (p.transact ops c.doc).doc })
  pub proposes : (qs : List Proposal) (c : Client p) → P c → P (set_proposals p qs c)
  pub shows :
      (people : List Participant) (lines : List Line) (status : Option String) (busy : Bool)
      (a : p.Awareness) (c : Client p)
      → P c
      → P (record c {
        participants = people;
        output_lines = lines;
        output_status = status;
        running = busy;
        presence = a;
      })
  pub receives : (c : Client p) → P c → P (record c { received_doc = true; doc_ready = true })
  pub begins : (c : Client p) → P c → P (record c { doc_ready = true })
  pub connects : (c : Client p) → P c → P (record c { leader_ws = some ready })
  pub closes : (c : Client p) → P c → P (record c { ws = closed; ws_ref = none })

-- The events that open a socket, give this client a role or ask it for what it has.
abbrev pub IsSpecial : {p : Platform} → Event p → Type 0
IsSpecial opened = Unit
IsSpecial (text_frame (redirect port)) = Unit
IsSpecial (text_frame (role_change user role)) = Unit
IsSpecial (text_frame (sync_sv b64 from)) = Unit
IsSpecial _ = ⊥

pub IsSpecial-cases : {p : Platform} (e : Event p) → IsSpecial e ⊎ (IsSpecial e → ⊥)
IsSpecial-cases opened = inl tt
IsSpecial-cases (text_frame (redirect port)) = inl tt
IsSpecial-cases (text_frame (role_change user role)) = inl tt
IsSpecial-cases (text_frame (sync_sv b64 from)) = inl tt
IsSpecial-cases _ = inr (λ h. h)

module _ (p : Platform) {P : Client p → Type 0} (k : Closed p P) where
  transact-closed : (ops : List Op) (c : Client p) → P c → P (local_transact p ops c).0
  unfolding local_transact
  transact-closed ops c h = elim (Bool-cases (p.transact ops c.doc).fired) [
    | inl e ↦ rw e (k.updates _ (k.documents _ c h))
    | inr e ↦ rw e (k.idles ops c e h)
  ]

  if-closed : (b : Bool) {x y : Client p} → P x → P y → P (if b then x else y)
  if-closed true h h' = h
  if-closed false h h' = h'

  if-fst : {B : Type 0} (b : Bool) (x y : Client p × B) → P x.0 → P y.0 → P (if b then x else y).0
  if-fst true x y h h' = h
  if-fst false x y h h' = h'

  on_some-closed :
      {A : Type 0} (o : Option A) (f : A → Client p → Client p) (c : Client p)
      → ((a : A) (c' : Client p) → P c' → P (f a c'))
      → P c
      → P (on_some p o f c)
  unfolding on_some
  on_some-closed none f c g h = h
  on_some-closed (some a) f c g h = g a c h

  handshake-closed : (c : Client p) → P c → P (do_sync_handshake p c)
  unfolding do_sync_handshake
  handshake-closed c = on_some-closed _ _ c (λ sv c'. k.ws_sends _ tt c')

  change-closed : (changed : List ℕ) (c : Client p) → P c → P (on_awareness_change p changed c)
  unfolding on_awareness_change
  change-closed changed c =
      on_some-closed (to_base64 p (p.encode_awareness c.presence changed))
        (λ b c'. if is_ready c'.ws then ws_send p (json (Message.awareness b)) c' else c') c
        (λ b c' h. if-closed (is_ready c'.ws) (k.ws_sends (Message.awareness b) tt c' h) h)

  set_awareness-closed :
      (change : p.Awareness × List ℕ) (c : Client p) → P c → P (set_awareness p change c)
  unfolding set_awareness
  set_awareness-closed (a, []) c h = k.shows _ _ _ _ a c h
  set_awareness-closed (a, i ∷ changed) c h = change-closed (i ∷ changed) _ (k.shows _ _ _ _ a c h)

  after_starter-closed : (r : Client p × Bool) → P r.0 → P (after_starter p r)
  unfolding after_starter
  after_starter-closed (c, true) h = h
  after_starter-closed (c, false) h = handshake-closed _ (k.begins c h)

  timeout-closed : (c : Client p) → P c → P (on_timeout p c)
  unfolding on_timeout
  timeout-closed c h =
      let begun = local_transact p (ins (at 0) starter ∷ []) c in
      if-closed (not c.received_doc && str_eq c.my_role "editor")
        (if-closed (length (p.text c.doc) == 0)
          (after_starter-closed begun (transact-closed (ins (at 0) starter ∷ []) c h)) h)
        h

  mark_received-closed : (c : Client p) → P c → P (mark_received p c)
  unfolding mark_received
  mark_received-closed c h = ground (arith, k.receives c h)

  binary-closed : (bytes : List ℕ) (c : Client p) → P c → P (on_binary p bytes c)
  unfolding on_binary
  binary-closed bytes c h =
      on_some-closed _ _ _ (λ d c' i. handshake-closed _ (k.documents d c' i))
        (mark_received-closed c h)

  proposal-closed :
      (action : String) (q : Proposal) (c : Client p) → P c → P (on_proposal p action q c)
  unfolding on_proposal
  proposal-closed action q c h = ground (
    arith,
    k.proposes (c.proposals ++ q ∷ []) c h,
    k.proposes (drop_proposal q.id c.proposals) c h,
  )

  text-closed :
      (m : Incoming) (c : Client p)
      → (IsSpecial {p = p} (text_frame m) → P (on_text p m c))
      → P c
      → P (on_text p m c)
  unfolding on_text
  text-closed (redirect port) c special h = special tt
  text-closed (role_change user role) c special h = special tt
  text-closed (participants list) c special h = k.shows _ _ _ _ _ c h
  text-closed (proposal action q) c special h = proposal-closed action q c h
  text-closed (run_result lines status) c special h = k.shows _ _ _ _ _ c h
  text-closed (Incoming.awareness b64) c special h = on_some-closed _ _ c set_awareness-closed h
  text-closed (sync_sv b64 from) c special h = special tt
  text-closed (sync_update b64) c special h = on_some-closed _ _ c k.documents h
  text-closed other c special h = h

  reject-closed : (id : String) (c : Client p) → P c → P (handle_reject_proposal p id c)
  unfolding handle_reject_proposal
  reject-closed id c h = k.proposes _ _ (k.sends _ tt c h)

  finish_accept-closed : (q : Proposal) (r : Client p × Bool) → P r.0 → P (finish_accept p q r)
  unfolding finish_accept
  finish_accept-closed q (c, true) h = h
  finish_accept-closed q (c, false) h = k.proposes _ _ (k.sends _ tt c h)

  legacy_insert-closed : (q : Proposal) (r : Client p × Bool) → P r.0 → P (legacy_insert p q r).0
  unfolding legacy_insert
  legacy_insert-closed q (c, true) h = h
  legacy_insert-closed q (c, false) h = transact-closed _ c h

  delete-closed :
      (q : Proposal) (c : Client p)
      → P c
      → P
          (if indices_differ q.start_index q.end_index
            then local_transact p
                (del (to_index q.start_index) (difference q.end_index q.start_index) ∷ [])
                c
            else (c, false)).0
  delete-closed q c h =
      if-fst (indices_differ q.start_index q.end_index) _ _ (transact-closed _ c h) h

  accept_at-closed :
      (q : Proposal) (range : Text × Text) (c : Client p) → P c → P (accept_at p q range c)
  unfolding accept_at
  accept_at-closed q (a, b) c h =
      if-closed (is_stale p q c.doc) (reject-closed q.id c h)
        (elim (Option-cases (resolve_range p c.doc a b)) [
          | inl e ↦ rw e (reject-closed q.id c h)
          | inr (r, e) ↦ rw e (finish_accept-closed q _ (transact-closed _ c h))
        ])

  accept-closed : (q : Proposal) (c : Client p) → P c → P (handle_accept_proposal p q c)
  unfolding handle_accept_proposal accept_legacy
  accept-closed q c h = elim (Option-cases (positions q)) [
    | inl e ↦
        rw (handle_accept_proposal, e)
          (finish_accept-closed q _ (legacy_insert-closed q _ (delete-closed q c h)))
    | inr (range, e) ↦ rw (handle_accept_proposal, e) (accept_at-closed q range c h)
  ]

  role-closed : (user role : String) (c : Client p) → P c → P (handle_role_change p user role c)
  unfolding handle_role_change
  role-closed user role c h = k.shows _ _ _ _ _ _ (k.sends _ tt c h)

  run_code-closed : (c : Client p) → P c → P (run_code p c).0
  unfolding run_code
  run_code-closed c h = if-fst c.running _ _ h (k.shows _ _ _ _ _ c h)

  response-closed : (r : Response) (c : Client p) → P c → P (run_response p r c)
  unfolding run_response
  response-closed r c h = k.shows _ _ _ _ _ _ (k.sends _ tt _ (k.shows _ _ _ _ _ c h))

  submit-closed :
      (m : Dialog) (replacement : Option Text) (id : String) (c : Client p)
      → P c
      → P (submit_proposal p replacement id (m, c)).1
  unfolding submit_proposal
  submit-closed m none id c h = h
  submit-closed m (some replacement) id c h = elim (Option-cases m.selection) [
    | inl e ↦ rw (submit_proposal, e) h
    | inr (s, e) ↦ elim (Bool-cases (text_eq replacement s.text)) [
      | inl same ↦ rw (submit_proposal, e, same) h
      | inr other_text ↦ elim (Option-cases (encode_range p c.doc s.from s.to)) [
        | inl lost ↦ rw (submit_proposal, e, other_text, lost) h
        | inr (range, found) ↦ rw (submit_proposal, e, other_text, found) (k.sends _ tt c h)
      ]
    ]
  ]

  pub open-closed : (c : Client p) → P (record c { ws = ready }) → P (on_open p c)
  unfolding on_open
  open-closed c h = set_awareness-closed _ _ h

  -- What the elementary changes keep, every event keeps that is not special.
  pub step-closed :
      (c : Client p) (e : Event p) → (IsSpecial e → P (step p c e)) → P c → P (step p c e)
  unfolding step
  step-closed c opened special h = special tt
  step-closed c timed_out special h = timeout-closed c h
  step-closed c (binary_frame bytes) special h = binary-closed bytes c h
  step-closed c (text_frame m) special h = text-closed m c special h
  step-closed c malformed special h = h
  step-closed c disconnected special h = k.closes c h
  step-closed c leader_connected special h =
      on_some-closed c.leader_ws _ c (λ _ c' i. k.connects c' i) h
  step-closed c (moved a changed) special h = set_awareness-closed (a, changed) c h
  step-closed c (edited ops) special h = transact-closed ops c h
  step-closed c (role_selected user role) special h =
      if-closed (is_editor p c) (role-closed user role c h) h
  step-closed c (accept_clicked q) special h = if-closed (is_editor p c) (accept-closed q c h) h
  step-closed c (reject_clicked id) special h = if-closed (is_editor p c) (reject-closed id c h) h
  step-closed c (submit_clicked m replacement id) special h = submit-closed m replacement id c h
  step-closed c run_clicked special h =
      if-closed (not (str_eq c.my_role "viewer")) (run_code-closed c h) h
  step-closed c (run_answered r) special h = response-closed r c h
