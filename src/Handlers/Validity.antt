-- ===== src/Handlers/Validity.antt =====
-- What holds of the server after every request.
use collaborative_ide.Collab.{
  Cmd, role_change, crdt_update, proposal_cmd, session_cmd, session_exists, get_doc,
}
use collaborative_ide.Hub.{Client, find_client}
use collaborative_ide.Prelude.{
  ◌≡◌, refl, true, false, none, some, List, [], ◌∷◌, inl, inr, Option, Bool-cases, ℕ, String, Bool,
  str_eq, ◌||◌, if◌then◌else◌,
}
use collaborative_ide.Handlers.{
  single, cluster, cluster_lost, Server, Request, ws, frame, left, create, join, replicated, serve,
  with_client, submit, Mode, cluster, cluster_lost, send_doc, handle_ws, handle_create, handle_join,
}
use collaborative_ide.Handlers.Authority.{handle_frame-Obeys, Obeys, IsPermitted, idle, command}
use collaborative_ide.Collab.Roles.{AllHaveRoles, do_op-AllHaveRoles, IsValidCmd}

-- A command that another node submitted gives a role that its handler let through.
abbrev pub IsGenuine : Request → Type 0
IsGenuine (replicated cmd) = IsValidCmd cmd
IsGenuine _ = Unit

IsPermitted-IsValidCmd : (c : Client) (cmd : Cmd) → IsPermitted c cmd → IsValidCmd cmd
IsPermitted-IsValidCmd c (crdt_update code bytes) h = tt
IsPermitted-IsValidCmd c (proposal_cmd code q action) h = tt
IsPermitted-IsValidCmd c (role_change code user role) (_, _, r) = r
IsPermitted-IsValidCmd c (session_cmd action code user role) h = tt

Obeys-AllHaveRoles :
    (c : Client) (s s' : Server) → Obeys c s s' → AllHaveRoles s.sessions → AllHaveRoles s'.sessions
Obeys-AllHaveRoles c s s' (idle e) h = rw e h
Obeys-AllHaveRoles c s s' (command cmd p e) h =
    rw e (do_op-AllHaveRoles cmd s.sessions (IsPermitted-IsValidCmd c cmd p) h)

if-AllHaveRoles :
    (b : Bool) (s s' : Server)
    → AllHaveRoles s.sessions
    → AllHaveRoles s'.sessions
    → AllHaveRoles (if b then s else s').sessions
if-AllHaveRoles true s s' h k = h
if-AllHaveRoles false s s' h k = k

with_client-AllHaveRoles :
    (o : Option Client) (f : Client → Server → Server) (s : Server)
    → ((c : Client) → AllHaveRoles (f c s).sessions)
    → AllHaveRoles s.sessions
    → AllHaveRoles (with_client o f s).sessions
unfolding with_client
with_client-AllHaveRoles none f s k h = h
with_client-AllHaveRoles (some c) f s k h = if-AllHaveRoles c.connected (f c s) s (k c) h

submit-AllHaveRoles :
    (mode : Mode) (cmd : Cmd) (s : Server)
    → IsValidCmd cmd
    → AllHaveRoles s.sessions
    → AllHaveRoles (submit mode cmd s).0.sessions
unfolding submit
submit-AllHaveRoles single cmd s v h = do_op-AllHaveRoles cmd s.sessions v h
submit-AllHaveRoles (cluster true) cmd s v h = do_op-AllHaveRoles cmd s.sessions v h
submit-AllHaveRoles (cluster false) cmd s v h = h
submit-AllHaveRoles cluster_lost cmd s v h = do_op-AllHaveRoles cmd s.sessions v h

sessions-send_doc :
    (handle : ℕ) (doc : Option (List ℕ)) (s : Server)
    → (send_doc handle doc s).sessions ≡ s.sessions
unfolding send_doc
sessions-send_doc handle none s = refl
sessions-send_doc handle (some []) s = refl
sessions-send_doc handle (some (b ∷ bytes)) s = refl

sessions-handle_ws :
    (user code : String) (s : Server) → (handle_ws user code s).0.sessions ≡ s.sessions
unfolding handle_ws
sessions-handle_ws user code s = elim (Bool-cases (str_eq user "" || str_eq code "")) [
  | inl e ↦ rw e
  | inr e ↦ elim (Bool-cases (session_exists code s.sessions)) [
    | inl f ↦ rw (e, f) (sessions-send_doc s.next_handle (get_doc code s.sessions) _)
    | inr f ↦ rw (e, f)
  ]
]

create-AllHaveRoles :
    (mode : Mode) (post : Bool) (body : Option String) (code : String) (s : Server)
    → AllHaveRoles s.sessions
    → AllHaveRoles (handle_create mode post body code s).0.sessions
unfolding handle_create
create-AllHaveRoles mode false body code s h = h
create-AllHaveRoles mode true none code s h = h
create-AllHaveRoles mode true (some user) code s h = elim (Bool-cases (str_eq user "")) [
  | inl e ↦ rw e h
  | inr e ↦ rw e (submit-AllHaveRoles mode (session_cmd "create" code user "editor") s tt h)
]

join-AllHaveRoles :
    (mode : Mode) (post : Bool) (body : Option (String × String)) (s : Server)
    → AllHaveRoles s.sessions
    → AllHaveRoles (handle_join mode post body s).0.sessions
unfolding handle_join
join-AllHaveRoles mode false body s h = h
join-AllHaveRoles mode true none s h = h
join-AllHaveRoles mode true (some (code, user)) s h =
    elim (Bool-cases (session_exists code s.sessions)) [
      | inl e ↦ rw e (submit-AllHaveRoles mode (session_cmd "join" code user "viewer") s tt h)
      | inr e ↦ rw e h
    ]

-- Every request keeps all recorded roles among the three, whatever the bodies and frames of the
-- clients hold.
pub serve-AllHaveRoles :
    (r : Request) (s : Server)
    → IsGenuine r
    → AllHaveRoles s.sessions
    → AllHaveRoles (serve r s).sessions
unfolding serve
serve-AllHaveRoles (ws user code) s g h = rw (sessions-handle_ws user code s) h
serve-AllHaveRoles (frame mode handle fr) s g h =
    with_client-AllHaveRoles (find_client handle s.hub) _ s
      (λ c. Obeys-AllHaveRoles c s _ (handle_frame-Obeys mode c fr s) h) h
serve-AllHaveRoles (left handle) s g h =
    with_client-AllHaveRoles (find_client handle s.hub) _ s (λ c. h) h
serve-AllHaveRoles (create mode post body code) s g h = create-AllHaveRoles mode post body code s h
serve-AllHaveRoles (join mode post body) s g h = join-AllHaveRoles mode post body s h
serve-AllHaveRoles (replicated cmd) s g h = do_op-AllHaveRoles cmd s.sessions g h
