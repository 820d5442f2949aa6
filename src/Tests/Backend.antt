-- ===== src/Tests/Backend.antt =====
-- Examples for ide/.
use collaborative_ide.Handlers.Delivery.{handle_frame-relayed, sync_update_escapes}
use collaborative_ide.Handlers.Escape.{role_at, role_change_escapes}
use collaborative_ide.Collab.Isolation.{lookup-do_op}
use collaborative_ide.Collab.Access.{grant, granted, get_role-do_op}
use collaborative_ide.Hub.{relay, find_client, WsMessage, Client}
use collaborative_ide.Hub.Invariant.{IsSound, IsValid}
use collaborative_ide.Collab.Roles.{AllHaveRoles, do_op-AllHaveRoles}
use collaborative_ide.Collab.{replay, get_role, do_op, role_change, session_cmd}
use collaborative_ide.Prelude.{lookup, [], arith, ◌∷◌, inl, inr, eq_iff, some, ◌≡◌, false, refl}
use collaborative_ide.Handlers.{handle_frame, single, message, Server, IncomingMsg, cluster}
use collaborative_ide.Handlers.Authority.{Obeys, handle_frame-Obeys}
use collaborative_ide.Tests.{editor, viewer, sessions, server, promote}

handle_frame-Obeys_example :
    Obeys editor server (handle_frame single editor (message [] (some promote)) server)
handle_frame-Obeys_example = handle_frame-Obeys single editor (message [] (some promote)) server

no_sessions-AllHaveRoles : AllHaveRoles []
unfolding lookup
no_sessions-AllHaveRoles code s e = cc

created-AllHaveRoles : AllHaveRoles (do_op (session_cmd "create" "KLM" "alice" "editor") [])
created-AllHaveRoles =
    do_op-AllHaveRoles (session_cmd "create" "KLM" "alice" "editor") [] tt no_sessions-AllHaveRoles

sessions-AllHaveRoles : AllHaveRoles sessions
unfolding replay
sessions-AllHaveRoles =
    do_op-AllHaveRoles (role_change "KLM" "bob" "proposer")
      (do_op (session_cmd "join" "KLM" "vera" "viewer")
        (do_op (session_cmd "create" "KLM" "alice" "editor") []))
      (inr (inl refl))
      (do_op-AllHaveRoles (session_cmd "join" "KLM" "vera" "viewer")
        (do_op (session_cmd "create" "KLM" "alice" "editor") []) tt created-AllHaveRoles)

get_role-do_op_example :
    get_role "KLM" "vera" (do_op (role_change "KLM" "vera" "proposer") sessions)
    ≡ grant
        (granted (role_change "KLM" "vera" "proposer"))
        (λ d u. get_role d u sessions)
        "KLM"
        "vera"
get_role-do_op_example = get_role-do_op (role_change "KLM" "vera" "proposer") "KLM" "vera" sessions

lookup-do_op_example :
    lookup "KLM" (do_op (session_cmd "create" "XYZ" "bob" "editor") sessions)
    ≡ lookup "KLM" sessions
lookup-do_op_example =
    lookup-do_op (session_cmd "create" "XYZ" "bob" "editor") "KLM" sessions
      (λ e. ground (arith, eq_iff "XYZ" "KLM"))

editor-IsSound : IsSound editor
editor-IsSound = record {
  live = λ _. refl;
  bounded = omega arith;
  role = inl refl;
  named = λ e. ground (arith, eq_iff editor.id "");
}

viewer-IsSound : IsSound viewer
viewer-IsSound = record {
  live = λ _. refl;
  bounded = omega arith;
  role = inr (inr refl);
  named = λ e. ground (arith, eq_iff viewer.id "");
}

hub-IsValid : IsValid (editor ∷ viewer ∷ [])
hub-IsValid = record {
  sound = (editor-IsSound, (viewer-IsSound, tt));
  unique = (λ _. ((λ _ e. ground (arith, eq_iff "vera" "alice")), tt), ((λ _. tt), tt));
}

-- A client of another session, and a server that has it too.
abbrev stranger : Client
stranger = record editor { handle = 3; id = "vera"; role = "viewer"; code = "XYZ" }

abbrev shared_server : Server
shared_server = record server { hub = editor ∷ stranger ∷ [] }

role_change_escapes_example :
    role_at 3 (handle_frame (cluster false) editor (message [] (some promote)) shared_server).hub
    ≡ some ("XYZ", "proposer")
unfolding find_client
role_change_escapes_example =
    role_change_escapes (cluster false) editor stranger [] promote shared_server refl refl refl refl
      refl refl

abbrev cursor : IncomingMsg
cursor = record promote { kind = "awareness" }

handle_frame-relayed_example :
    find_client 2 (handle_frame single editor (message (5 ∷ []) (some cursor)) server).hub
    ≡ some (record viewer { queue = WsMessage.text (relay (5 ∷ [])) ∷ [] })
unfolding find_client
handle_frame-relayed_example =
    handle_frame-relayed single editor viewer (5 ∷ []) cursor server (inr (inl refl)) refl

abbrev diff : IncomingMsg
diff = record promote { kind = "sync_update"; to = "vera" }

sync_update_escapes_example :
    find_client 3 (handle_frame single viewer (message (5 ∷ []) (some diff)) shared_server).hub
    ≡ some (record stranger { queue = WsMessage.text (relay (5 ∷ [])) ∷ [] })
unfolding find_client
sync_update_escapes_example =
    sync_update_escapes single viewer stranger (5 ∷ []) diff shared_server refl refl refl refl refl
      (omega arith)
