-- ===== src/Collab/Isolation.antt =====
-- A command reads and writes the session that it names.
use collaborative_ide.Prelude.{
  ◌≡◌, ◌≢◌, some, arith, lookup-insert, String, lookup, if◌then◌else◌, eq_iff, str_eq,
}
use collaborative_ide.Collab.{
  SessionState, Sessions, Cmd, crdt_update, proposal_cmd, role_change, session_cmd, do_op, update,
  get_or_create, create_session, join_session, set_doc, apply_proposal, set_role,
}

-- The session that a command names.
abbrev pub session_of : Cmd → String
session_of (crdt_update code bytes) = code
session_of (proposal_cmd code q action) = code
session_of (role_change code user role) = code
session_of (session_cmd action code user role) = code

pub lookup-update :
    (code d : String) (f : SessionState → SessionState) (ss : Sessions)
    → lookup d (update code f ss)
      ≡ (if str_eq code d then some (f (get_or_create code ss)) else lookup d ss)
unfolding update
lookup-update code d f ss = lookup-insert code d (f (get_or_create code ss)) ss

lookup-update_ne :
    (code d : String) (f : SessionState → SessionState) (ss : Sessions)
    → code ≢ d
    → lookup d (update code f ss) ≡ lookup d ss
lookup-update_ne code d f ss h = ground (arith, lookup-update code d f ss, eq_iff code d)

-- A command leaves every session but the one that it names as it is.
pub lookup-do_op :
    (cmd : Cmd) (d : String) (ss : Sessions)
    → session_of cmd ≢ d
    → lookup d (do_op cmd ss) ≡ lookup d ss
unfolding do_op
lookup-do_op (crdt_update code bytes) d ss h = lookup-update_ne code d (set_doc bytes) ss h
lookup-do_op (proposal_cmd code q action) d ss h =
    lookup-update_ne code d (apply_proposal q action) ss h
lookup-do_op (role_change code user role) d ss h = lookup-update_ne code d (set_role user role) ss h
lookup-do_op (session_cmd action code user role) d ss h = ground (
  arith,
  lookup-update_ne code d (create_session user) ss h,
  lookup-update_ne code d (join_session user) ss h,
)
