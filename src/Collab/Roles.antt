-- ===== src/Collab/Roles.antt =====
-- The roles of a session's users.
use mathlib.Core.Path.{subst}
use collaborative_ide.Prelude.{
  ◌≡◌, refl, some, arith, lookup-insert, String, Bool-cases, ◌⊎◌, lookup, Option-cases, str_eq, inl,
  inr, ◌||◌, some_inj,
}
use collaborative_ide.Collab.{
  SessionState, Sessions, Cmd, crdt_update, proposal_cmd, role_change, session_cmd, do_op, update,
  get_or_create, new_session, set_role, join_session, apply_proposal, Proposal, set_doc,
  create_session,
}
use collaborative_ide.Collab.Isolation.{lookup-update}

abbrev pub IsRole : String → Type 0
IsRole r = (r ≡ "editor") ⊎ ((r ≡ "proposer") ⊎ (r ≡ "viewer"))

abbrev pub HasRoles : SessionState → Type 0
HasRoles s = (user role : String) → lookup user s.roles ≡ some role → IsRole role

-- Every role that any session records is one of the three.
abbrev pub AllHaveRoles : Sessions → Type 0
AllHaveRoles ss = (code : String) (s : SessionState) → lookup code ss ≡ some s → HasRoles s

-- A change of roles names one of the three.
abbrev pub IsValidCmd : Cmd → Type 0
IsValidCmd (role_change code user role) = IsRole role
IsValidCmd _ = Unit

new_session-HasRoles : HasRoles new_session
unfolding new_session lookup
new_session-HasRoles user role h = cc

get_or_create-HasRoles :
    (code : String) (ss : Sessions) → AllHaveRoles ss → HasRoles (get_or_create code ss)
unfolding get_or_create
get_or_create-HasRoles code ss h = elim (Option-cases (lookup code ss)) [
  | inl e ↦ rw (get_or_create, e) new_session-HasRoles
  | inr (s, e) ↦ rw (get_or_create, e) (h code s e)
]

set_role-HasRoles :
    (user role : String) (s : SessionState)
    → IsRole role
    → HasRoles s
    → HasRoles (set_role user role s)
unfolding set_role
set_role-HasRoles user role s v h other found e =
    ground (arith, lookup-insert user other role s.roles, h other found)

join_session-HasRoles :
    (user : String) (s : SessionState) → HasRoles s → HasRoles (join_session user s)
unfolding join_session
join_session-HasRoles user s h = elim (Option-cases (lookup user s.roles)) [
  | inl e ↦ rw (join_session, e) (set_role-HasRoles user "viewer" s (inr (inr refl)) h)
  | inr (r, e) ↦ rw (join_session, e) h
]

apply_proposal-HasRoles :
    (q : Proposal) (action : String) (s : SessionState)
    → HasRoles s
    → HasRoles (apply_proposal q action s)
unfolding apply_proposal
apply_proposal-HasRoles q action s h = elim (Bool-cases (str_eq action "add")) [
  | inl e ↦ rw e h
  | inr e ↦ elim (Bool-cases (str_eq action "accept" || str_eq action "reject")) [
    | inl f ↦ rw (e, f) h
    | inr f ↦ rw (e, f) h
  ]
]

update-AllHaveRoles :
    (code : String) (f : SessionState → SessionState) (ss : Sessions)
    → ((s : SessionState) → HasRoles s → HasRoles (f s))
    → AllHaveRoles ss
    → AllHaveRoles (update code f ss)
update-AllHaveRoles code f ss keeps h d s e = elim (Bool-cases (str_eq code d)) [
  | inl same ↦
      let whole = rw (lookup-update code d f ss, same) at e in
      subst HasRoles (some_inj (f (get_or_create code ss)) s whole)
        (keeps (get_or_create code ss) (get_or_create-HasRoles code ss h))
  | inr other ↦ h d s (rw (lookup-update code d f ss, other) at e)
]

-- A valid command keeps every recorded role one of the three.
pub do_op-AllHaveRoles :
    (cmd : Cmd) (ss : Sessions) → IsValidCmd cmd → AllHaveRoles ss → AllHaveRoles (do_op cmd ss)
unfolding do_op set_doc create_session
do_op-AllHaveRoles (crdt_update code bytes) ss v h =
    update-AllHaveRoles code (set_doc bytes) ss (λ s k. k) h
do_op-AllHaveRoles (proposal_cmd code q action) ss v h =
    update-AllHaveRoles code (apply_proposal q action) ss (apply_proposal-HasRoles q action) h
do_op-AllHaveRoles (role_change code user role) ss v h =
    update-AllHaveRoles code (set_role user role) ss (λ s. set_role-HasRoles user role s v) h
do_op-AllHaveRoles (session_cmd action code user role) ss v h =
    elim (Bool-cases (str_eq action "create")) [
      | inl e ↦ rw e (
          update-AllHaveRoles code (create_session user) ss
            (λ s k. set_role-HasRoles user "editor" (record s { creator = user }) (inl refl) k) h)
      | inr e ↦ elim (Bool-cases (str_eq action "join")) [
        | inl f ↦
            rw (e, f)
              (update-AllHaveRoles code (join_session user) ss (join_session-HasRoles user) h)
        | inr f ↦ rw (e, f) h
      ]
    ]
