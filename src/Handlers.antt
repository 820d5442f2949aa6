-- ===== src/Handlers.antt =====
-- ide/handlers.go: the HTTP handlers and the frames of one WebSocket connection. `Submit` of the
-- replicated state machine is Raft's: in a cluster each call is told whether it returned OK, which
-- it does after the command was applied here, and if not, whether the command was applied
-- nevertheless. A command that was refused may also be committed later, which is a step `replicated`
-- of its own.
pub mod Authority
pub mod Validity
pub mod Escape
pub mod HubValidity
pub mod Delivery
use collaborative_ide.Prelude.{
  ℕ, ◌+◌, Bool, true, false, not, ◌&&◌, ◌||◌, Option, none, some, List, [], ◌∷◌, ◌++◌, String,
  str_eq, if◌then◌else◌,
}
use collaborative_ide.Collab.{
  Proposal, Sessions, Cmd, crdt_update, proposal_cmd, role_change, session_cmd, do_op, get_doc,
  session_exists, get_role,
}
use collaborative_ide.Hub.{
  Client, Hub, WsMessage, binary, text, Outgoing, redirect, participants, proposal_add,
  proposal_end, relay, register, unregister, broadcast_session, broadcast_session_all,
  session_participants, update_client_role, send_raw, end_loop, find_client,
}

-- `rsm == nil`, or a cluster, in which this call of Submit returns OK or another error, or another
-- error although the command was applied before it returned.
pub data Mode : Type 0 where
  single : Mode
  cluster : Bool → Mode
  cluster_lost : Mode

pub record Server : Type 0 where
  pub hub : Hub
  pub sessions : Sessions
  pub leader_port : ℕ
  -- the address of the next client object
  pub next_handle : ℕ
  -- frames written to a connection past its queue, the oldest first
  pub written : List (ℕ × WsMessage)

-- incomingMsg. `kind` is the field `type`, `nested` the identifier of the nested proposal.
pub record IncomingMsg : Type 0 where
  pub kind : String
  pub action : String
  pub id : String
  pub replacement : String
  pub nested : Option String
  pub user_id : String
  pub role : String
  pub original_text : String
  pub rel_start : String
  pub rel_end : String
  pub start_line : ℕ
  pub end_line : ℕ
  pub to : String

-- A frame from a client: binary, or text, with what `json.Unmarshal` makes of it.
pub data ClientFrame : Type 0 where
  update : List ℕ → ClientFrame
  message : List ℕ → Option IncomingMsg → ClientFrame

unfoldable pub submit : Mode → Cmd → Server → Server × Bool
unfolding do_op
submit single cmd s = (record s { sessions = do_op cmd s.sessions }, true)
submit (cluster true) cmd s = (record s { sessions = do_op cmd s.sessions }, true)
submit (cluster false) cmd s = (s, false)
submit cluster_lost cmd s = (record s { sessions = do_op cmd s.sessions }, false)

unfoldable pub write : ℕ → WsMessage → Server → Server
write handle m s = record s { written = s.written ++ (handle, m) ∷ [] }

unfoldable pub send_redirect : ℕ → Server → Server
unfolding write
send_redirect handle s = write handle (text (redirect s.leader_port)) s

unfoldable pub broadcast_participants : String → Server → Server
unfolding broadcast_session_all session_participants
broadcast_participants code s = record s {
  hub = broadcast_session_all (text (participants (session_participants code s.hub))) code s.hub;
}

unfoldable pub tell_session : Outgoing → String → Server → Server
unfolding broadcast_session_all
tell_session out code s = record s { hub = broadcast_session_all (text out) code s.hub }

unfoldable pub proposal_of : Client → IncomingMsg → Proposal
proposal_of c m = record {
  id = m.id;
  author = c.id;
  replacement = m.replacement;
  original_text = m.original_text;
  rel_start = m.rel_start;
  rel_end = m.rel_end;
  start_line = m.start_line;
  end_line = m.end_line;
}

-- A command that carries only the identifier of a proposal; the other fields are empty.
unfoldable pub bare_proposal : String → Proposal
bare_proposal id = record {
  id = id;
  author = "";
  replacement = "";
  original_text = "";
  rel_start = "";
  rel_end = "";
  start_line = 0;
  end_line = 0;
}

-- After `submit`: tell the session, or redirect the client.
unfoldable pub tell_or_redirect : Client → Outgoing → Server × Bool → Server
unfolding tell_session send_redirect
tell_or_redirect c out (s, true) = tell_session out c.code s
tell_or_redirect c out (s, false) = send_redirect c.handle s

-- handleProposalMsg, the case "add"
unfoldable pub add_proposal : Mode → Client → IncomingMsg → Server → Server
unfolding submit tell_or_redirect proposal_of
add_proposal mode c m s =
    if str_eq c.role "proposer" || str_eq c.role "editor"
    then tell_or_redirect c (proposal_add (proposal_of c m))
        (submit mode (proposal_cmd c.code (proposal_of c m) "add") s)
    else s

-- handleProposalMsg, the cases "accept" and "reject"
unfoldable pub end_proposal : Mode → Client → IncomingMsg → Server → Server
unfolding submit tell_or_redirect bare_proposal
end_proposal mode c m s =
    if str_eq c.role "editor"
    then (elim m.nested [
      | none ↦ s
      | some id ↦
          tell_or_redirect c (proposal_end m.action id)
            (submit mode (proposal_cmd c.code (bare_proposal id) m.action) s)
    ])
    else s

unfoldable pub handle_proposal_msg : Mode → Client → IncomingMsg → Server → Server
unfolding add_proposal end_proposal
handle_proposal_msg mode c m s =
    if str_eq m.action "add"
    then add_proposal mode c m s
    else (if str_eq m.action "accept" || str_eq m.action "reject"
        then end_proposal mode c m s
        else s)

abbrev pub is_role : String → Bool
is_role r = str_eq r "editor" || (str_eq r "proposer" || str_eq r "viewer")

unfoldable pub finish_role_change : Client → IncomingMsg → Server × Bool → Server
unfolding tell_session broadcast_participants send_redirect
finish_role_change c m (s, true) =
    broadcast_participants c.code (tell_session (Outgoing.role_change m.user_id m.role) c.code s)
finish_role_change c m (s, false) = send_redirect c.handle s

unfoldable pub handle_role_change_msg : Mode → Client → IncomingMsg → Server → Server
unfolding submit finish_role_change update_client_role
handle_role_change_msg mode c m s =
    if str_eq c.role "editor" && is_role m.role
    then finish_role_change c m (
        submit mode (role_change c.code m.user_id m.role)
          (record s { hub = update_client_role m.user_id m.role s.hub }))
    else s

unfoldable pub relay_others : Client → WsMessage → Server → Server
unfolding broadcast_session
relay_others c m s = record s { hub = broadcast_session m c.id c.code s.hub }

-- The end of handleWS: its loop, and the deferred calls.
unfoldable pub disconnect : Client → Server → Server
unfolding unregister broadcast_participants end_loop
disconnect c s =
    broadcast_participants c.code (record s { hub = end_loop c.handle (unregister c.handle s.hub) })

-- A binary frame that was let through; after a refusal the loop ends.
unfoldable pub finish_update : Client → List ℕ → Server × Bool → Server
unfolding relay_others send_redirect disconnect
finish_update c bytes (s, true) = relay_others c (binary bytes) s
finish_update c bytes (s, false) = disconnect c (send_redirect c.handle s)

unfoldable pub handle_message : Mode → Client → List ℕ → IncomingMsg → Server → Server
unfolding handle_proposal_msg handle_role_change_msg relay_others send_raw
handle_message mode c raw m s =
    if str_eq m.kind "proposal"
    then handle_proposal_msg mode c m s
    else (if str_eq m.kind "role_change"
        then handle_role_change_msg mode c m s
        else (if str_eq m.kind "run_result"
              || (str_eq m.kind "awareness" || str_eq m.kind "sync_sv")
            then relay_others c (text (relay raw)) s
            else (if str_eq m.kind "sync_update" && not (str_eq m.to "")
                then record s { hub = send_raw m.to (relay raw) s.hub }
                else s)))

-- One round of the loop of handleWS, for a client object as it is now.
unfoldable pub handle_frame : Mode → Client → ClientFrame → Server → Server
unfolding submit finish_update handle_message
handle_frame mode c (update bytes) s =
    if str_eq c.role "editor"
    then finish_update c bytes (submit mode (crdt_update c.code bytes) s)
    else s
handle_frame mode c (message raw none) s = s
handle_frame mode c (message raw (some m)) s = handle_message mode c raw m s

-- The status of an HTTP answer, with the code and the role of a success.
pub data Reply : Type 0 where
  status : ℕ → Reply
  joined : String → String → Reply

unfoldable pub send_doc : ℕ → Option (List ℕ) → Server → Server
unfolding write
send_doc handle none s = s
send_doc handle (some []) s = s
send_doc handle (some (b ∷ bytes)) s = write handle (binary (b ∷ bytes)) s

unfoldable pub new_client : ℕ → String → String → String → Client
new_client handle user code role = record {
  handle = handle;
  id = user;
  role = role;
  code = code;
  queue = [];
  closed = false;
  registered = false;
  connected = true;
}

-- handleWS up to its loop, where the upgrade succeeds; `none` is the switch of protocols.
unfoldable pub handle_ws : String → String → Server → Server × Option Reply
unfolding session_exists get_role register send_doc broadcast_participants get_doc new_client
handle_ws user code s =
    if str_eq user "" || str_eq code ""
    then (s, some (status 400))
    else (if not (session_exists code s.sessions) then (s, some (status 404)) else (
      broadcast_participants code (
          send_doc s.next_handle (get_doc code s.sessions) (record s {
            hub =
                register (new_client s.next_handle user code (get_role code user s.sessions)) s.hub;
            next_handle = s.next_handle + 1;
          })),
      none,
    ))

-- handleCreate: whether the method is POST, the `user_id` of the body, if that decodes, and the
-- code that `generateCode` drew.
unfoldable pub handle_create : Mode → Bool → Option String → String → Server → Server × Reply
unfolding submit
handle_create mode false body code s = (s, status 405)
handle_create mode true none code s = (s, status 400)
handle_create mode true (some user) code s =
    if str_eq user ""
    then (s, status 400)
    else (let (s', ok) = submit mode (session_cmd "create" code user "editor") s in
        (s', if ok then joined code "editor" else status 503))

-- handleJoin: the `code` and the `user_id` of the body, if that decodes.
unfoldable pub handle_join : Mode → Bool → Option (String × String) → Server → Server × Reply
unfolding submit session_exists get_role
handle_join mode false body s = (s, status 405)
handle_join mode true none s = (s, status 400)
handle_join mode true (some (code, user)) s =
    if not (session_exists code s.sessions)
    then (s, status 404)
    else (let (s', ok) = submit mode (session_cmd "join" code user "viewer") s in
        (s', if ok then joined code (get_role code user s'.sessions) else status 503))

-- What a server is asked to do.
pub data Request : Type 0 where
  ws : String → String → Request
  frame : Mode → ℕ → ClientFrame → Request
  left : ℕ → Request
  create : Mode → Bool → Option String → String → Request
  join : Mode → Bool → Option (String × String) → Request
  replicated : Cmd → Request

-- A connection whose loop has ended delivers nothing more.
unfoldable pub with_client : Option Client → (Client → Server → Server) → Server → Server
with_client none f s = s
with_client (some c) f s = if c.connected then f c s else s

unfoldable pub serve : Request → Server → Server
unfolding handle_ws handle_frame disconnect handle_create handle_join do_op with_client find_client
serve (ws user code) s = (handle_ws user code s).0
serve (frame mode handle fr) s =
    with_client (find_client handle s.hub) (λ c. handle_frame mode c fr) s
serve (left handle) s = with_client (find_client handle s.hub) disconnect s
serve (create mode post body code) s = (handle_create mode post body code s).0
serve (join mode post body) s = (handle_join mode post body s).0
serve (replicated cmd) s = record s { sessions = do_op cmd s.sessions }
