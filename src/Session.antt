-- ===== src/Session.antt =====
-- One open session as a machine: the events of the socket, of the document and of the page, each
-- with the handler that it runs, under the conditions by which the page shows its buttons. Input to
-- the editor pane has no condition: `EditorView.editable`, which EditorPane sets for an editor only,
-- does not stop a command that is bound to a key.
pub mod Induction
pub mod Redirect
pub mod Roles
pub mod Stale
use collaborative_ide.Prelude.{
  ℕ, Bool, true, false, not, ◌&&◌, Option, none, some, List, [], ◌∷◌, String, str_eq, Text,
  if◌then◌else◌,
}
use collaborative_ide.Platform.{Platform, Op}
use collaborative_ide.PositionUtils.{Proposal}
use collaborative_ide.Client.{ready, Client, local_transact, on_some}
use collaborative_ide.CollabWs.{
  Incoming, on_open, on_timeout, on_binary, on_text, on_close, set_awareness,
}
use collaborative_ide.Ide.{
  Response, handle_role_change, handle_accept_proposal, handle_reject_proposal, run_code,
  run_response,
}
use collaborative_ide.Sidebar.{Dialog, submit_proposal}

pub data Event (p : Platform) : Type 0 where
  -- the socket and its timer
  opened : Event p
  timed_out : Event p
  binary_frame : List ℕ → Event p
  text_frame : Incoming → Event p
  malformed : Event p
  disconnected : Event p
  -- the socket of a redirect, for which the code sets no handlers
  leader_connected : Event p
  -- the awareness of this client
  moved : p.Awareness → List ℕ → Event p
  -- the page
  edited : List Op → Event p
  role_selected : String → String → Event p
  accept_clicked : Proposal → Event p
  reject_clicked : String → Event p
  submit_clicked : Dialog → Option Text → String → Event p
  run_clicked : Event p
  run_answered : Response → Event p

module _ (p : Platform) where
  abbrev pub is_editor : Client p → Bool
  is_editor c = str_eq c.my_role "editor"

  unfoldable pub step : Client p → Event p → Client p
  unfolding on_some on_open on_timeout on_binary on_text on_close set_awareness local_transact
      handle_role_change handle_accept_proposal handle_reject_proposal submit_proposal run_code
      run_response
  step c opened = on_open p c
  step c timed_out = on_timeout p c
  step c (binary_frame bytes) = on_binary p bytes c
  step c (text_frame m) = on_text p m c
  step c malformed = c
  step c disconnected = on_close p c
  step c leader_connected = on_some p c.leader_ws (λ _ c'. record c' { leader_ws = some ready }) c
  step c (moved a changed) = set_awareness p (a, changed) c
  step c (edited ops) = (local_transact p ops c).0
  step c (role_selected user role) = if is_editor c then handle_role_change p user role c else c
  step c (accept_clicked q) = if is_editor c then handle_accept_proposal p q c else c
  step c (reject_clicked id) = if is_editor c then handle_reject_proposal p id c else c
  step c (submit_clicked m replacement id) = (submit_proposal p replacement id (m, c)).1
  step c run_clicked = if not (str_eq c.my_role "viewer") then (run_code p c).0 else c
  step c (run_answered r) = run_response p r c

  unfoldable pub run : Client p → List (Event p) → Client p
  unfolding step
  run c [] = c
  run c (e ∷ es) = run (step c e) es
