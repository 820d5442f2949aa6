-- ===== src/Client.antt =====
-- The state of one open session in the browser: the props and React state of components/IDE.jsx,
-- the refs and the socket of useCollabWS.js, and the set `staleIds` of components/Sidebar.jsx.
-- A render follows each state change before the next event, so `roleRef.current` is `my_role`.
use collaborative_ide.Prelude.{
  ℕ, Bool, true, false, not, Option, none, some, List, [], ◌∷◌, ◌++◌, map, String, str_eq, Text,
  keep, if◌then◌else◌, ◌&&◌, ◌||◌,
}
use collaborative_ide.Platform.{Platform, Op}
use collaborative_ide.PositionUtils.{Proposal, is_stale}

pub record Participant : Type 0 where
  pub id : String
  pub role : String
  pub is_me : Bool

-- A line of output: { kind, text }.
pub record Line : Type 0 where
  pub kind : String
  pub text : Text

-- A text frame to the server, before `JSON.stringify`.
pub data Message : Type 0 where
  proposal_add : Proposal → Message
  proposal_accept : Proposal → Message
  proposal_reject : String → Message
  role_change : String → String → Message
  run_result : List Line → String → Message
  awareness : Text → Message
  sync_sv : Text → String → Message
  sync_update : Text → String → Message

pub data Frame : Type 0 where
  binary : List ℕ → Frame
  json : Message → Frame

pub data ReadyState : Type 0 where
  connecting ready closing closed : ReadyState

-- The socket that the effect opened, and the one that a redirect opened.
pub data Socket : Type 0 where
  own leader : Socket

pub record Client (p : Platform) : Type 0 where
  -- session
  pub code : String
  pub user_id : String
  pub avatar_color : String
  pub location_port : String
  -- IDE.jsx
  pub my_role : String
  pub participants : List Participant
  pub proposals : List Proposal
  pub output_lines : List Line
  pub output_status : Option String
  pub running : Bool
  pub doc_ready : Bool
  pub doc : p.Doc
  pub presence : p.Awareness
  -- useCollabWS.js
  pub ws : ReadyState
  pub leader_ws : Option ReadyState
  pub ws_ref : Option Socket
  pub received_doc : Bool
  -- Sidebar.jsx
  pub stale_ids : List String
  -- what was handed to the sockets, the oldest first
  pub sent : List (Socket × Frame)

abbrev pub is_ready : ReadyState → Bool
is_ready ready = true
is_ready _ = false

-- The participant of that name gets the role.
unfoldable pub with_role : String → String → Participant → Participant
with_role id role q = if str_eq q.id id then record q { role = role } else q

unfoldable pub drop_proposal : String → List Proposal → List Proposal
unfolding keep
drop_proposal id = keep (λ q. not (str_eq q.id id))

module _ (p : Platform) where
  -- The state in which the page of a session opens: its document and its awareness are new.
  unfoldable pub open_session :
      String → String → String → String → String → p.Doc → p.Awareness → Client p
  open_session code user role color port d a = record {
    code = code;
    user_id = user;
    avatar_color = color;
    location_port = port;
    my_role = role;
    participants = record { id = user; role = role; is_me = true } ∷ [];
    proposals = [];
    output_lines = [];
    output_status = none;
    running = false;
    doc_ready = false;
    doc = d;
    presence = a;
    ws = connecting;
    leader_ws = none;
    ws_ref = some own;
    received_doc = false;
    stale_ids = [];
    sent = [];
  }

  abbrev pub transmit : Socket → Frame → Client p → Client p
  transmit s f c = record c { sent = c.sent ++ (s, f) ∷ [] }

  abbrev pub socket_ready : Socket → Client p → Bool
  socket_ready own c = is_ready c.ws
  socket_ready leader c = elim c.leader_ws [ none ↦ false | some s ↦ is_ready s ]

  -- Go on with a value, where there is one.
  unfoldable pub on_some : {A : Type 0} → Option A → (A → Client p → Client p) → Client p → Client p
  on_some none f c = c
  on_some (some a) f c = f a c

  -- `send`, through `wsRef`.
  unfoldable pub send : Frame → Client p → Client p
  send f c = elim c.ws_ref [ none ↦ c | some s ↦ if socket_ready s c then transmit s f c else c ]

  -- `ws.send`, on the socket that the effect opened. The code calls it after the `open` event, when
  -- a socket that is not open any more discards the frame.
  unfoldable pub ws_send : Frame → Client p → Client p
  ws_send f c = if is_ready c.ws then transmit own f c else c

  unfoldable pub stale_now : p.Doc → List Proposal → List String
  unfolding keep
  stale_now d qs = map (λ q. q.id) (keep (λ q. is_stale p q d) qs)

  -- `check` of Sidebar.jsx.
  unfoldable pub check : Client p → Client p
  check c = record c { stale_ids = stale_now c.doc c.proposals }

  -- The effect of Sidebar.jsx runs when the proposals have changed, and calls `check`.
  unfoldable pub set_proposals : List Proposal → Client p → Client p
  unfolding check
  set_proposals qs c = check (record c { proposals = qs })

  -- `check` listens to the `update` event of the document.
  unfoldable pub set_doc : p.Doc → Client p → Client p
  unfolding check
  set_doc d c = check (record c { doc = d })

  -- `onUpdate` for an update whose origin is not 'remote'.
  unfoldable pub on_update : Client p → Client p
  on_update c =
      if str_eq c.my_role "editor" && is_ready c.ws
      then ws_send (binary (p.full_state c.doc)) c
      else c

  -- A transaction of this client on the text: the document changes, and the listeners of its
  -- `update` event run if it fires. The second part tells whether the transaction threw.
  unfoldable pub local_transact : List Op → Client p → Client p × Bool
  unfolding on_update set_doc
  local_transact ops c =
      let o = p.transact ops c.doc in
      (if o.fired then on_update (set_doc o.doc c) else record c { doc = o.doc }, o.threw)

  -- The callbacks of IDE.jsx.
  unfoldable pub on_participants : List (String × String) → Client p → Client p
  on_participants list c = record c {
    participants = map (λ e. record { id = e.0; role = e.1; is_me = str_eq e.0 c.user_id }) list;
  }

  unfoldable pub on_proposal : String → Proposal → Client p → Client p
  unfolding set_proposals drop_proposal
  on_proposal action q c =
      if str_eq action "add"
      then set_proposals (c.proposals ++ q ∷ []) c
      else (if str_eq action "accept" || str_eq action "reject"
          then set_proposals (drop_proposal q.id c.proposals) c
          else c)

  unfoldable pub on_role_change : String → String → Client p → Client p
  unfolding with_role
  on_role_change user role c = record c {
    my_role = if str_eq user c.user_id then role else c.my_role;
    participants = map (with_role user role) c.participants;
  }

  unfoldable pub on_run_result : List Line → String → Client p → Client p
  on_run_result lines status c = record c {
    output_status = some status;
    output_lines = lines;
    running = false;
  }
