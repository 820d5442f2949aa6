-- ===== src/EndToEnd.antt =====
-- ide/handlers.go as a whole: a server from its start, over the requests that it serves in turn.
pub mod Refusals
pub mod Entry
pub mod Pages
use collaborative_ide.Handlers.{Server, Request, serve}
use collaborative_ide.Prelude.{ℕ, List, [], ◌∷◌}

-- NewServer, with the port that main.go sets then.
unfoldable pub new_server : ℕ → Server
new_server port = record {
  hub = [];
  sessions = [];
  leader_port = port;
  next_handle = 0;
  written = [];
}

unfoldable pub serve_all : List Request → Server → Server
unfolding serve
serve_all [] s = s
serve_all (r ∷ rs) s = serve_all rs (serve r s)
