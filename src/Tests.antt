-- ===== src/Tests.antt =====
-- Concrete clients and servers, and the examples on them.
pub mod Frontend
pub mod Backend
pub mod Output
pub mod Pages
pub mod Cluster
pub mod Nodes
pub mod Editors
use collaborative_ide.Prelude.{true, false, none, some, List, [], ◌∷◌, Text}
use collaborative_ide.Sample.{sample}
use collaborative_ide.PositionUtils.{Proposal}
use collaborative_ide.Client.{Client, ready, own}
use collaborative_ide.Sidebar.{EditorView, Dialog}
use collaborative_ide.Collab.{Cmd, session_cmd, role_change, replay, Sessions}
use collaborative_ide.Hub
use collaborative_ide.Handlers.{Server, IncomingMsg}

-- The document "hel", and the text "x".
abbrev pub hel : Text
hel = 104 ∷ 101 ∷ 108 ∷ []

abbrev pub letter_x : Text
letter_x = 120 ∷ []

-- An editor and a proposer of the session "KLM".
abbrev pub alice : Client sample
alice = record {
  code = "KLM";
  user_id = "alice";
  avatar_color = "#00adb5";
  location_port = "8081";
  my_role = "editor";
  participants = [];
  proposals = [];
  output_lines = [];
  output_status = none;
  running = false;
  doc_ready = true;
  doc = hel;
  presence = [];
  ws = ready;
  leader_ws = none;
  ws_ref = some own;
  received_doc = true;
  stale_ids = [];
  sent = [];
}

abbrev pub bob : Client sample
bob = record alice { user_id = "bob"; my_role = "proposer" }

-- Replace the "e"; the positions of the sample platform are unary.
abbrev pub replace_e : Proposal
replace_e = record {
  id = "p1";
  author = some "bob";
  replacement = letter_x;
  original_text = some (101 ∷ []);
  rel_start = some (1 ∷ 1 ∷ []);
  rel_end = some (1 ∷ 1 ∷ 1 ∷ []);
  start_line = some 1;
  end_line = some 1;
  start_index = none;
  end_index = none;
}

-- The same range with another recorded text.
abbrev pub replace_a : Proposal
replace_a = record replace_e { original_text = some (97 ∷ []) }

abbrev pub view : EditorView
view = record { from = 1; to = 2; doc = hel; line_at = λ i. 1 }

abbrev pub dialog : Dialog
dialog = record { show_propose_modal = false; selection = none }

abbrev pub editor : Hub.Client
editor = record {
  handle = 1;
  id = "alice";
  role = "editor";
  code = "KLM";
  queue = [];
  closed = false;
  registered = true;
  connected = true;
}

abbrev pub viewer : Hub.Client
viewer = record editor { handle = 2; id = "vera"; role = "viewer" }

abbrev pub commands : List Cmd
commands =
    session_cmd "create" "KLM" "alice" "editor"
    ∷ session_cmd "join" "KLM" "vera" "viewer"
    ∷ role_change "KLM" "bob" "proposer"
    ∷ []

abbrev pub sessions : Sessions
unfolding replay
sessions = replay commands []

abbrev pub server : Server
server = record {
  hub = editor ∷ viewer ∷ [];
  sessions = sessions;
  leader_port = 8080;
  next_handle = 3;
  written = [];
}

-- A change of the role of "vera".
abbrev pub promote : IncomingMsg
promote = record {
  kind = "role_change";
  action = "";
  id = "";
  replacement = "";
  nested = none;
  user_id = "vera";
  role = "proposer";
  original_text = "";
  rel_start = "";
  rel_end = "";
  start_line = 0;
  end_line = 0;
  to = "";
}
