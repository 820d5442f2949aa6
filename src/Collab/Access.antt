-- ===== src/Collab/Access.antt =====
-- Who has which role, as a function of the session and the user, and what each command does to it.
use collaborative_ide.Prelude.{
  ◌≡◌, refl, none, some, arith, lookup-insert, Option, String, if◌then◌else◌, lookup, eq_iff,
  str_eq, ◌&&◌, Bool-cases, inl, inr, Option-cases, ◌||◌,
}
use collaborative_ide.Collab.{
  SessionState, Sessions, Cmd, crdt_update, proposal_cmd, role_change, session_cmd, do_op, update,
  get_or_create, get_role, new_session, or_viewer, set_role, create_session, join_session,
  apply_proposal, set_doc, Proposal,
}
use collaborative_ide.Collab.Isolation.{lookup-update}

-- The role that a command gives, to whom and where.
abbrev pub granted : Cmd → Option (String × String × String)
granted (role_change code user role) = some (code, user, role)
granted (session_cmd action code user role) =
    if str_eq action "create" then some (code, user, "editor") else none
granted _ = none

abbrev pub Access : Type 0
Access = String → String → String

-- The abstract effect: one place of the function changes.
abbrev pub grant : Option (String × String × String) → Access → Access
grant none a = a
grant (some (code, user, role)) a = λ d u. if str_eq code d && str_eq user u then role else a d u

role_in : String → SessionState → String
role_in u s = or_viewer (lookup u s.roles)

get_role-get_or_create :
    (d u : String) (ss : Sessions) → role_in u (get_or_create d ss) ≡ get_role d u ss
unfolding get_or_create get_role role_in new_session lookup
get_role-get_or_create d u ss = elim (Option-cases (lookup d ss)) [
  | inl e ↦ rw (get_or_create, get_role, e)
  | inr (s, e) ↦ rw (get_or_create, get_role, e)
]

get_role-update :
    (code d u : String) (f : SessionState → SessionState) (ss : Sessions)
    → get_role d u (update code f ss)
      ≡ (if str_eq code d then role_in u (f (get_or_create code ss)) else get_role d u ss)
unfolding get_role role_in
get_role-update code d u f ss = elim (Bool-cases (str_eq code d)) [
  | inl e ↦ rw (get_role, lookup-update code d f ss, e)
  | inr e ↦ rw (get_role, lookup-update code d f ss, e)
]

update_same :
    (code d u : String) (f : SessionState → SessionState) (ss : Sessions)
    → ((s : SessionState) → role_in u (f s) ≡ role_in u s)
    → get_role d u (update code f ss) ≡ get_role d u ss
update_same code d u f ss same = ground (
  arith,
  get_role-update code d u f ss,
  eq_iff code d,
  same (get_or_create code ss),
  get_role-get_or_create code u ss,
)

update_role :
    (code d u user role : String) (f : SessionState → SessionState) (ss : Sessions)
    → ((s : SessionState) → role_in u (f s) ≡ (if str_eq user u then role else role_in u s))
    → get_role d u (update code f ss)
      ≡ (if str_eq code d && str_eq user u then role else get_role d u ss)
update_role code d u user role f ss changes = ground (
  arith,
  get_role-update code d u f ss,
  eq_iff code d,
  changes (get_or_create code ss),
  get_role-get_or_create code u ss,
)

role_in-set_role :
    (u user role : String) (s : SessionState)
    → role_in u (set_role user role s) ≡ (if str_eq user u then role else role_in u s)
unfolding role_in set_role
role_in-set_role u user role s = ground (arith, lookup-insert user u role s.roles)

role_in-create :
    (u user : String) (s : SessionState)
    → role_in u (create_session user s) ≡ (if str_eq user u then "editor" else role_in u s)
unfolding role_in create_session
role_in-create u user s = role_in-set_role u user "editor" (record s { creator = user })

role_in-join : (u user : String) (s : SessionState) → role_in u (join_session user s) ≡ role_in u s
unfolding role_in join_session
role_in-join u user s = elim (Option-cases (lookup user s.roles)) [
  | inl e ↦ rw (join_session, e) (ground (arith, role_in-set_role u user "viewer" s, eq_iff user u))
  | inr (r, e) ↦ rw (join_session, e)
]

role_in-apply_proposal :
    (u : String) (q : Proposal) (action : String) (s : SessionState)
    → role_in u (apply_proposal q action s) ≡ role_in u s
unfolding role_in apply_proposal
role_in-apply_proposal u q action s = elim (Bool-cases (str_eq action "add")) [
  | inl e ↦ rw e
  | inr e ↦ elim (Bool-cases (str_eq action "accept" || str_eq action "reject")) [
    | inl f ↦ rw (e, f)
    | inr f ↦ rw (e, f)
  ]
]

-- As far as roles go, a command is at most one grant: creating a session makes its creator an
-- editor there, a role change gives that role, and every other command, joining included, leaves
-- the role of every user in every session as it was.
pub get_role-do_op :
    (cmd : Cmd) (d u : String) (ss : Sessions)
    → get_role d u (do_op cmd ss) ≡ grant (granted cmd) (λ d' u'. get_role d' u' ss) d u
unfolding do_op
get_role-do_op (crdt_update code bytes) d u ss =
    update_same code d u (set_doc bytes) ss (λ s. unfold set_doc role_in in refl)
get_role-do_op (proposal_cmd code q action) d u ss =
    update_same code d u (apply_proposal q action) ss (role_in-apply_proposal u q action)
get_role-do_op (role_change code user role) d u ss =
    update_role code d u user role (set_role user role) ss (role_in-set_role u user role)
get_role-do_op (session_cmd action code user role) d u ss =
    elim (Bool-cases (str_eq action "create")) [
      | inl e ↦
          rw e (update_role code d u user "editor" (create_session user) ss (role_in-create u user))
      | inr e ↦ elim (Bool-cases (str_eq action "join")) [
        | inl f ↦ rw (e, f) (update_same code d u (join_session user) ss (role_in-join u user))
        | inr f ↦ rw (e, f)
      ]
    ]
