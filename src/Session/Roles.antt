-- ===== src/Session/Roles.antt =====
-- What a client may do that is not an editor.
use collaborative_ide.Sidebar.{submit_proposal, Dialog}
use collaborative_ide.Prelude.{
  none, some, ◌≡◌, refl, false, List, [], ◌∷◌, arith, ℕ, ◌++◌, inl, inr, Option, Text, String, Bool,
  if◌then◌else◌, ◌⊎◌, true, ap, ◌∙◌, if_of_false, append-nil, some, if_intro,
}
use collaborative_ide.Platform.{Platform}
use collaborative_ide.CollabWs.{Incoming, set_awareness}
use collaborative_ide.Client.{
  Client, send, ws_send, on_update, set_doc, set_proposals, Socket, Frame, Message, own, binary,
  leader, json, on_some, is_ready,
}
use collaborative_ide.Session.{
  opened, text_frame, timed_out, disconnected, leader_connected, moved, edited, role_selected,
  accept_clicked, reject_clicked, submit_clicked, run_clicked, run_answered, malformed, is_editor,
  step, Event, binary_frame, text_frame,
}
use collaborative_ide.Session.Induction.{
  Closed, IsSpecial, open-closed, IsSpecial-cases, step-closed, IsNoAnswer,
}

-- A frame with document state: a whole one, or what another client lacks.
abbrev pub has_state : Frame → Bool
has_state (binary bytes) = true
has_state (json (Message.sync_update b64 to)) = true
has_state (json m) = false

-- The frames with document state that were handed to a socket.
unfoldable pub snapshots : List (Socket × Frame) → List Frame
snapshots [] = []
snapshots ((s, f) ∷ frames) = let rest = snapshots frames in if has_state f then f ∷ rest else rest

has_state-IsNoAnswer : (m : Message) → IsNoAnswer m → has_state (json m) ≡ false
has_state-IsNoAnswer (Message.sync_update b64 to) h = absurd h
has_state-IsNoAnswer (Message.proposal_add q) h = refl
has_state-IsNoAnswer (Message.proposal_accept q) h = refl
has_state-IsNoAnswer (Message.proposal_reject id) h = refl
has_state-IsNoAnswer (Message.role_change user role) h = refl
has_state-IsNoAnswer (Message.run_result lines status) h = refl
has_state-IsNoAnswer (Message.awareness b64) h = refl
has_state-IsNoAnswer (Message.sync_sv b64 from) h = refl

snapshots-append :
    (frames more : List (Socket × Frame))
    → snapshots (frames ++ more) ≡ snapshots frames ++ snapshots more
unfolding snapshots
snapshots-append [] more = refl
snapshots-append ((s, f) ∷ frames) more = go (has_state f) (snapshots-append frames more)
  where
    go :
        (b : Bool)
        → snapshots (frames ++ more) ≡ snapshots frames ++ snapshots more
        → (if b then f ∷ snapshots (frames ++ more) else snapshots (frames ++ more))
          ≡ (if b then f ∷ snapshots frames else snapshots frames) ++ snapshots more
    go true h = ap (λ fs. f ∷ fs) h
    go false h = h

snapshots-json :
    (s : Socket) (m : Message) (frames : List (Socket × Frame))
    → IsNoAnswer m
    → snapshots (frames ++ (s, json m) ∷ []) ≡ snapshots frames
unfolding snapshots
snapshots-json s m frames h =
    snapshots-append frames ((s, json m) ∷ [])
    ∙ (ap (λ fs. snapshots frames ++ fs)
          (if_of_false (has_state (json m)) (json m ∷ []) [] (has_state-IsNoAnswer m h))
        ∙ append-nil (snapshots frames))

-- What an event may add to the frames with document state: nothing, but for a state vector, to which
-- there may be one answer, to the client that sent it.
abbrev pub Adds : {p : Platform} → Event p → List Frame → List Frame → Type 0
Adds (text_frame (Incoming.sync_sv b64 from)) old new =
    (new ≡ old) ⊎ ((b : Text) × (new ≡ old ++ json (Message.sync_update b from) ∷ []))
Adds _ old new = new ≡ old

Adds-same : {p : Platform} (e : Event p) (old new : List Frame) → new ≡ old → Adds e old new
Adds-same (text_frame (Incoming.sync_sv b64 from)) old new h = inl h
Adds-same _ old new h = h

module _ (p : Platform) where
  record IsReadOnly (states : List Frame) (c : Client p) : Type 0 where
    role : is_editor p c ≡ false
    same : snapshots c.sent ≡ states

  module _ (states : List Frame) where
    IsReadOnly-closed : Closed p (IsReadOnly states)
    unfolding set_doc set_proposals
    IsReadOnly-closed = record {
      sends = λ m n c h. record {
        role = unfold send in ground (arith);
        same =
            unfold send in
            ground (arith, snapshots-json own m c.sent n, snapshots-json leader m c.sent n);
      };
      ws_sends = λ m n c h. unfold ws_send in ground (arith, snapshots-json own m c.sent n);
      updates = λ c h. unfold on_update in ground arith;
      documents = λ d c h. record { role = h.role; same = h.same };
      idles = λ ops c e h. record { role = h.role; same = h.same };
      proposes = λ qs c h. record { role = h.role; same = h.same };
      shows = λ people lines status busy a c h. record { role = h.role; same = h.same };
      receives = λ c h. record { role = h.role; same = h.same };
      begins = λ c h. record { role = h.role; same = h.same };
      connects = λ c h. record { role = h.role; same = h.same };
      closes = λ c h. record { role = h.role; same = h.same };
    }

    -- The answer to a state vector, if there is one.
    answered-Adds :
        (o : Option Text) (b64 : Text) (from : String) (c : Client p)
        → snapshots c.sent ≡ states
        → Adds {p = p}
            (text_frame (Incoming.sync_sv b64 from))
            states
            (snapshots (on_some p o (λ b. ws_send p (json (Message.sync_update b from))) c).sent)
    unfolding on_some ws_send snapshots
    answered-Adds none b64 from c h = inl h
    answered-Adds (some b) b64 from c h =
        let answer = json (Message.sync_update b from) in
        if_intro
          (λ (c' : Client p).
            Adds {p = p} (text_frame (Incoming.sync_sv b64 from)) states (snapshots c'.sent))
          (is_ready c.ws)
          (λ _.
            inr (b, snapshots-append c.sent ((own, answer) ∷ []) ∙ ap (λ fs. fs ++ answer ∷ []) h))
          (λ _. inl h)

    special-snapshots :
        (c : Client p) (e : Event p)
        → IsReadOnly states c
        → IsSpecial e
        → Adds e states (snapshots (step p c e).sent)
    unfolding step
    special-snapshots c opened h _ =
        (open-closed p IsReadOnly-closed c (record { role = h.role; same = h.same })).same
    special-snapshots c (text_frame (Incoming.redirect port)) h _ = ground arith
    special-snapshots c (text_frame (Incoming.role_change user role)) h _ = h.same
    special-snapshots c (text_frame (Incoming.sync_sv b64 from)) h _ =
        answered-Adds _ b64 from c h.same
    special-snapshots c _ h i = elim i [ ]

  -- A client that is not an editor hands no frame with document state to a socket, whole or in part,
  -- at any event but one: to a state vector of another client it hands at most one answer, which is
  -- for that client.
  pub snapshots-step :
      (c : Client p) (e : Event p)
      → is_editor p c ≡ false
      → Adds e (snapshots c.sent) (snapshots (step p c e).sent)
  snapshots-step c e h = elim (IsSpecial-cases e) [
    | inl i ↦ special-snapshots (snapshots c.sent) c e reader i
    | inr plain ↦
        Adds-same e (snapshots c.sent) (snapshots (step p c e).sent)
          (step-closed p (IsReadOnly-closed (snapshots c.sent)) c e (λ i. absurd (plain i))
            reader).same
  ]
    where
      reader : IsReadOnly (snapshots c.sent) c
      reader = record { role = h; same = refl }

-- The events of the page, its socket's timer and the awareness: all but what the server sends, and
-- input to the editor pane.
abbrev pub IsLocal : {p : Platform} → Event p → Type 0
IsLocal (binary_frame bytes) = ⊥
IsLocal (text_frame m) = ⊥
IsLocal (edited ops) = ⊥
IsLocal _ = Unit

module _ (p : Platform) where
  doc-send : (f : Frame) (c : Client p) → (send p f c).doc ≡ c.doc
  unfolding send
  doc-send f c = ground arith

  doc-set_awareness :
      (change : p.Awareness × List ℕ) (c : Client p) → (set_awareness p change c).doc ≡ c.doc
  unfolding set_awareness ws_send
  doc-set_awareness (a, []) c = refl
  doc-set_awareness (a, i ∷ changed) c = ground (arith)

  doc-submit :
      (m : Dialog) (replacement : Option Text) (id : String) (c : Client p)
      → (submit_proposal p replacement id (m, c)).1.doc ≡ c.doc
  unfolding submit_proposal send
  doc-submit m replacement id c = ground (arith)

  -- Nothing that happens on the page of a client that is not an editor changes its document, but
  -- for input to the editor pane.
  pub doc-step :
      (c : Client p) (e : Event p) → is_editor p c ≡ false → IsLocal e → (step p c e).doc ≡ c.doc
  unfolding step
  doc-step c opened h l = doc-set_awareness _ _
  doc-step c (moved a changed) h l = doc-set_awareness _ c
  doc-step c (submit_clicked m replacement id) h l = doc-submit m replacement id c
  doc-step c (run_answered r) h l = doc-send _ _
  doc-step c (role_selected user role) h l = rw h
  doc-step c (accept_clicked q) h l = rw h
  doc-step c (reject_clicked id) h l = rw h
  doc-step c timed_out h l = ground arith
  doc-step c leader_connected h l = ground arith
  doc-step c run_clicked h l = ground arith
  doc-step c malformed h l = refl
  doc-step c disconnected h l = refl
  doc-step c _ h l = elim l [ ]
