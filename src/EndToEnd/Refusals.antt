-- ===== src/EndToEnd/Refusals.antt =====
-- ide/handlers.go: the error paths of the three HTTP handlers.
use collaborative_ide.Handlers.{
  Server, Mode, single, cluster, cluster_lost, Reply, status, joined, handle_create, handle_join,
  handle_ws, submit,
}
use collaborative_ide.Collab.{Cmd, session_exists, session_cmd, get_role, do_op}
use collaborative_ide.Prelude.{
  none, some, inl, inr, true, false, refl, Bool-cases, Option, String, Bool, ◌≡◌, if◌then◌else◌,
  str_eq, ◌||◌, ◌⊎◌,
}

-- An error status leaves the server as it was, but that with 503 the command of the request may have
-- been applied.
abbrev pub IsRefused : Option Cmd → Server → Server × Option Reply → Type 0
IsRefused cmd s (s', some (status n)) =
    (s' ≡ s)
    ⊎ ((n ≡ 503)
        × ((c : Cmd) × (cmd ≡ some c) × (s' ≡ (record s { sessions = do_op c s.sessions }))))
IsRefused cmd s (s', some (joined code role)) = Unit
IsRefused cmd s (s', none) = Unit

-- The commands that the two requests submit.
abbrev pub create_cmd : String → Option String → Option Cmd
create_cmd code none = none
create_cmd code (some user) = some (session_cmd "create" code user "editor")

abbrev pub join_cmd : Option (String × String) → Option Cmd
join_cmd none = none
join_cmd (some (code, user)) = some (session_cmd "join" code user "viewer")

abbrev pub answered : Server × Reply → Server × Option Reply
answered (s, r) = (s, some r)

submitted-IsRefused :
    (mode : Mode) (cmd : Cmd) (code : String) (role : Server → String) (s : Server)
    → IsRefused (some cmd) s (
        answered (
          let (s', ok) = submit mode cmd s in
          (s', if ok then joined code (role s') else status 503)))
unfolding submit
submitted-IsRefused single cmd code role s = tt
submitted-IsRefused (cluster true) cmd code role s = tt
submitted-IsRefused (cluster false) cmd code role s = inl refl
submitted-IsRefused cluster_lost cmd code role s = inr (refl, (cmd, refl, refl))

handle_create-IsRefused :
    (mode : Mode) (post : Bool) (body : Option String) (code : String) (s : Server)
    → IsRefused (create_cmd code body) s (answered (handle_create mode post body code s))
unfolding handle_create
handle_create-IsRefused mode false body code s = inl refl
handle_create-IsRefused mode true none code s = inl refl
handle_create-IsRefused mode true (some user) code s = elim (Bool-cases (str_eq user "")) [
  | inl e ↦ rw (handle_create, e) (inl refl)
  | inr e ↦
      rw (handle_create, e)
        (submitted-IsRefused mode (session_cmd "create" code user "editor") code (λ _. "editor") s)
]

handle_join-IsRefused :
    (mode : Mode) (post : Bool) (body : Option (String × String)) (s : Server)
    → IsRefused (join_cmd body) s (answered (handle_join mode post body s))
unfolding handle_join
handle_join-IsRefused mode false body s = inl refl
handle_join-IsRefused mode true none s = inl refl
handle_join-IsRefused mode true (some (code, user)) s =
    elim (Bool-cases (session_exists code s.sessions)) [
      | inr e ↦ rw (handle_join, e) (inl refl)
      | inl e ↦
          rw (handle_join, e)
            (submitted-IsRefused mode (session_cmd "join" code user "viewer") code
              (λ s'. get_role code user s'.sessions) s)
    ]

handle_ws-IsRefused : (user code : String) (s : Server) → IsRefused none s (handle_ws user code s)
unfolding handle_ws
handle_ws-IsRefused user code s = elim (Bool-cases (str_eq user "" || str_eq code "")) [
  | inl e ↦ rw (handle_ws, e) (inl refl)
  | inr e ↦ elim (Bool-cases (session_exists code s.sessions)) [
    | inr f ↦ rw (handle_ws, e, f) (inl refl)
    | inl f ↦ rw (handle_ws, e, f) tt
  ]
]

-- A request to create or to join a session, or to connect to one, that is answered with an error
-- status leaves the server as it was, unless the status is 503, with which the server may have
-- applied the command of the request, and has changed in nothing else. A connection that is refused
-- changes nothing.
pub refusals_lem :
    (mode mode' : Mode) (post : Bool) (new : Option String) (old : Option (String × String))
    (user code : String) (s : Server)
    → IsRefused (create_cmd code new) s (answered (handle_create mode post new code s))
      × IsRefused (join_cmd old) s (answered (handle_join mode' post old s))
      × IsRefused none s (handle_ws user code s)
refusals_lem mode mode' post new old user code s = (
  handle_create-IsRefused mode post new code s,
  handle_join-IsRefused mode' post old s,
  handle_ws-IsRefused user code s,
)
