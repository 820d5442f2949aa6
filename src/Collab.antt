-- ===== src/Collab.antt =====
-- ide/server.go and ide/commands.go: the replicated state of all sessions, and the commands on it.
-- A method runs under the lock of the server, so it is one step.
pub mod Isolation
pub mod Roles
pub mod Access
use collaborative_ide.Prelude.{
  ℕ, Bool, true, false, Option, none, some, List, [], ◌∷◌, String, str_eq, Map, lookup, insert,
  delete, if◌then◌else◌, ◌||◌,
}

-- Texts are opaque here, as the code only stores them; line numbers count from 1.
pub record Proposal : Type 0 where
  pub id : String
  pub author : String
  pub replacement : String
  pub original_text : String
  pub rel_start : String
  pub rel_end : String
  pub start_line : ℕ
  pub end_line : ℕ

pub record SessionState : Type 0 where
  pub doc : List ℕ
  pub proposals : Map Proposal
  pub roles : Map String
  pub creator : String

-- CRDTUpdateCmd, ProposalCmd, RoleChangeCmd and SessionCmd, each behind the code of its session. A
-- ProposalCmd carries the fields of the proposal and an action.
pub data Cmd : Type 0 where
  crdt_update : String → List ℕ → Cmd
  proposal_cmd : String → Proposal → String → Cmd
  role_change : String → String → String → Cmd
  session_cmd : String → String → String → String → Cmd

abbrev pub Sessions : Type 0
Sessions = Map SessionState

unfoldable pub new_session : SessionState
new_session = record { doc = []; proposals = []; roles = []; creator = "" }

unfoldable pub get_or_create : String → Sessions → SessionState
unfolding lookup new_session
get_or_create code ss = elim (lookup code ss) [ none ↦ new_session | some s ↦ s ]

-- A change of the session that `getOrCreate` points to.
unfoldable pub update : String → (SessionState → SessionState) → Sessions → Sessions
unfolding insert get_or_create
update code f ss = insert code (f (get_or_create code ss)) ss

unfoldable pub apply_proposal : Proposal → String → SessionState → SessionState
unfolding insert delete
apply_proposal q action s =
    if str_eq action "add"
    then record s { proposals = insert q.id q s.proposals }
    else (if str_eq action "accept" || str_eq action "reject"
        then record s { proposals = delete q.id s.proposals }
        else s)

unfoldable pub set_doc : List ℕ → SessionState → SessionState
set_doc bytes s = record s { doc = bytes }

unfoldable pub set_role : String → String → SessionState → SessionState
unfolding insert
set_role user role s = record s { roles = insert user role s.roles }

-- A user that has a role keeps it.
unfoldable pub join_session : String → SessionState → SessionState
unfolding set_role lookup
join_session user s = elim (lookup user s.roles) [ none ↦ set_role user "viewer" s | some _ ↦ s ]

unfoldable pub create_session : String → SessionState → SessionState
unfolding set_role
create_session user s = set_role user "editor" (record s { creator = user })

unfoldable pub do_op : Cmd → Sessions → Sessions
unfolding update set_doc apply_proposal set_role join_session create_session
do_op (crdt_update code bytes) ss = update code (set_doc bytes) ss
do_op (proposal_cmd code q action) ss = update code (apply_proposal q action) ss
do_op (role_change code user role) ss = update code (set_role user role) ss
do_op (session_cmd action code user role) ss =
    if str_eq action "create"
    then update code (create_session user) ss
    else (if str_eq action "join" then update code (join_session user) ss else ss)

unfoldable pub get_doc : String → Sessions → Option (List ℕ)
unfolding lookup
get_doc code ss = elim (lookup code ss) [ none ↦ none | some s ↦ some s.doc ]

unfoldable pub session_exists : String → Sessions → Bool
unfolding lookup
session_exists code ss = elim (lookup code ss) [ none ↦ false | some _ ↦ true ]

abbrev pub or_viewer : Option String → String
or_viewer none = "viewer"
or_viewer (some role) = role

unfoldable pub get_role : String → String → Sessions → String
unfolding lookup
get_role code user ss = elim (lookup code ss) [
  | none ↦ "viewer"
  | some s ↦ or_viewer (lookup user s.roles)
]

-- GetSession
unfoldable pub get_session : String → String → Sessions → String × Bool
unfolding lookup
get_session code user ss = elim (lookup code ss) [
  | none ↦ ("", false)
  | some s ↦ (or_viewer (lookup user s.roles), true)
]

-- The commands that Raft delivers, in their order.
unfoldable pub replay : List Cmd → Sessions → Sessions
unfolding do_op
replay [] ss = ss
replay (c ∷ cs) ss = replay cs (do_op c ss)

-- Snapshot and Restore, over encoding/gob, whose bytes are opaque; bytes that do not decode leave
-- the state as it is.
module _ {Bytes : Type 0} (encode : Sessions → Bytes) (decode : Bytes → Option Sessions) where
  unfoldable pub snapshot : Sessions → Bytes
  snapshot ss = encode ss

  unfoldable pub restore : Bytes → Sessions → Sessions
  restore bytes ss = elim (decode bytes) [ none ↦ ss | some decoded ↦ decoded ]
