-- ===== src/EndToEnd/Entry.antt =====
-- ide/handlers.go: creating or joining a session, and then connecting to it.
use collaborative_ide.Collab.Isolation.{lookup-update}
use collaborative_ide.Collab.{
  get_role, do_op, session_cmd, session_exists, create_session, join_session, get_doc, Sessions,
  Cmd,
}
use collaborative_ide.Collab.Access.{get_role-do_op}
use collaborative_ide.Handlers.{
  Server, handle_ws, Mode, submit, broadcast_participants, send_doc, new_client, single, cluster,
  cluster_lost, joined, Reply, write, status, handle_create, handle_join,
}
use mathlib.Core.Path.{subst}
use collaborative_ide.Prelude.{
  sym, none, some, true, false, refl, [], ◌∷◌, String, List, ℕ, ◌≢◌, ◌≡◌, keep, Option, str_eq,
  ◌||◌, arith, eq_iff, map, ◌+◌, ◌∙◌, if◌then◌else◌, ap, ◌&&◌, Bool-cases, inl, inr, IsIn,
}
use collaborative_ide.Hub.{
  Client, text, participants, Hub, register, session_participants, broadcast_session_all, offer,
  WsMessage, displace,
}

-- The participant list begins with that entry.
abbrev pub StartsWith : String × String → List (String × String) → Type 0
StartsWith e entries = (rest : List (String × String)) × (entries ≡ e ∷ rest)

StartsWith-IsIn :
    (e : String × String) (entries : List (String × String)) → StartsWith e entries → IsIn e entries
StartsWith-IsIn e entries (rest, same) = subst (IsIn e) (sym same) (inl refl)

participants-cons :
    (code : String) (c : Client) (hub : Hub)
    → c.registered && str_eq c.code code ≡ true
    → session_participants code (c ∷ hub) ≡ (c.id, c.role) ∷ session_participants code hub
unfolding session_participants keep
participants-cons code c hub e = rw (session_participants, keep, e) refl

broadcast-cons :
    (m : WsMessage) (code : String) (c : Client) (hub : Hub)
    → c.registered && str_eq c.code code ≡ true
    → broadcast_session_all m code (c ∷ hub) ≡ offer m c ∷ broadcast_session_all m code hub
unfolding broadcast_session_all
broadcast-cons m code c hub e = rw (broadcast_session_all, e) refl

entered-StartsWith :
    (m : WsMessage) (handle : ℕ) (user code role : String) (hub : Hub)
    → StartsWith
        (user, role)
        (session_participants code
          (broadcast_session_all m code (register (new_client handle user code role) hub)))
unfolding register offer new_client
entered-StartsWith m handle user code role hub =
    let same : str_eq code code ≡ true = (eq_iff code code).1 refl in
    let c = record (new_client handle user code role) { registered = true } in
    let others = map (displace user) hub in
    (
      session_participants code (broadcast_session_all m code others),
      ap (session_participants code) (broadcast-cons m code c others same)
          ∙ participants-cons code (offer m c) (broadcast_session_all m code others) same,
    )

send_doc-hub :
    (handle : ℕ) (bytes : Option (List ℕ)) (s : Server) → (send_doc handle bytes s).hub ≡ s.hub
unfolding send_doc write
send_doc-hub handle none s = refl
send_doc-hub handle (some []) s = refl
send_doc-hub handle (some (b ∷ bytes)) s = refl

announced-StartsWith :
    (s : Server) (handle : ℕ) (user code role : String) (hub : Hub)
    → s.hub ≡ register (new_client handle user code role) hub
    → StartsWith (user, role) (session_participants code (broadcast_participants code s).hub)
unfolding broadcast_participants
announced-StartsWith s handle user code role hub e =
    subst
      (λ h.
        StartsWith (user, role)
          (session_participants code
            (broadcast_session_all (text (participants (session_participants code h))) code h)))
      (sym e) (entered-StartsWith _ handle user code role hub)

-- A user with a name who connects to a session that exists is let in, and is in the list of its
-- participants with the recorded role.
pub handle_ws-IsIn :
    (user code : String) (s : Server)
    → user ≢ ""
    → code ≢ ""
    → session_exists code s.sessions ≡ true
    → ((handle_ws user code s).1 ≡ none)
      × IsIn
          (user, get_role code user s.sessions)
          (session_participants code (handle_ws user code s).0.hub)
unfolding handle_ws
handle_ws-IsIn user code s n m e =
    let named : (str_eq user "" || str_eq code "") ≡ false =
      ground (arith, eq_iff user "", eq_iff code "") in
    let role = get_role code user s.sessions in
    let s' = record s {
      hub = register (new_client s.next_handle user code role) s.hub;
      next_handle = s.next_handle + 1;
    } in
    let bytes = get_doc code s.sessions in
    rw (handle_ws, named, e)
      (
        refl,
        StartsWith-IsIn (user, role) _
            (announced-StartsWith (send_doc s.next_handle bytes s') s.next_handle user code role
              s.hub (send_doc-hub s.next_handle bytes s')),
      )

-- After a command of that kind was submitted with success, the session exists.
create_exists :
    (code user : String) (ss : Sessions)
    → session_exists code (do_op (session_cmd "create" code user "editor") ss) ≡ true
unfolding session_exists do_op
create_exists code user ss =
    rw (session_exists, lookup-update code code (create_session user) ss, (eq_iff code code).1 refl)
      refl

create_role :
    (code user : String) (ss : Sessions)
    → get_role code user (do_op (session_cmd "create" code user "editor") ss) ≡ "editor"
create_role code user ss =
    get_role-do_op (session_cmd "create" code user "editor") code user ss
    ∙ rw ((eq_iff code code).1 refl, (eq_iff user user).1 refl) refl

join_exists :
    (code user : String) (ss : Sessions)
    → session_exists code (do_op (session_cmd "join" code user "viewer") ss) ≡ true
unfolding session_exists do_op
join_exists code user ss =
    rw (session_exists, lookup-update code code (join_session user) ss, (eq_iff code code).1 refl)
      refl

-- What the answer to POST /create or POST /join promises of a connection that follows it.
abbrev pub Admits : String → Server × Reply → Type 0
Admits user (s, status n) = Unit
Admits user (s, joined code role) =
    ((handle_ws user code s).1 ≡ none)
    × IsIn (user, role) (session_participants code (handle_ws user code s).0.hub)

module _ (user code : String) (named : user ≢ "") (given : code ≢ "") where
  applied-Admits :
      (role : String) (s : Server)
      → session_exists code s.sessions ≡ true
      → get_role code user s.sessions ≡ role
      → Admits user (s, joined code role)
  applied-Admits role s e r =
      subst (λ role'. Admits user (s, joined code role')) r
        (handle_ws-IsIn user code s named given e)

  submitted-Admits :
      (mode : Mode) (role : Server → String) (cmd : Cmd) (s : Server)
      → session_exists code (do_op cmd s.sessions) ≡ true
      → get_role code user (do_op cmd s.sessions)
        ≡ role (record s { sessions = do_op cmd s.sessions })
      → Admits user (
          let (s', ok) = submit mode cmd s in
          (s', if ok then joined code (role s') else status 503))
  unfolding submit
  submitted-Admits single role cmd s e r =
      applied-Admits _ (record s { sessions = do_op cmd s.sessions }) e r
  submitted-Admits (cluster true) role cmd s e r =
      applied-Admits _ (record s { sessions = do_op cmd s.sessions }) e r
  submitted-Admits (cluster false) role cmd s e r = tt
  submitted-Admits cluster_lost role cmd s e r = tt

  -- Whatever a successful answer to POST /create or POST /join tells a user with a name, a
  -- connection with that code is let in, and is among the participants of the session with the role
  -- of the answer.
  pub answers-Admit :
      (mode : Mode) (s : Server)
      → Admits user (handle_create mode true (some user) code s)
        × Admits user (handle_join mode true (some (code, user)) s)
  unfolding handle_create handle_join
  answers-Admit mode s = (
    elim (Bool-cases (str_eq user "")) [
      | inl e ↦ absurd (named ((eq_iff user "").0 e))
      | inr e ↦
          rw (handle_create, e)
            (submitted-Admits mode (λ _. "editor") (session_cmd "create" code user "editor") s
              (create_exists code user s.sessions) (create_role code user s.sessions))
    ],
    elim (Bool-cases (session_exists code s.sessions)) [
      | inr e ↦ rw (handle_join, e) tt
      | inl e ↦
          rw (handle_join, e)
            (submitted-Admits mode (λ s'. get_role code user s'.sessions)
              (session_cmd "join" code user "viewer") s (join_exists code user s.sessions) refl)
    ],
  )
