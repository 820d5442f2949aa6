-- ===== src/Handlers/HubValidity.antt =====
-- The hub stays well-formed over all frames of a connection, and over its end.
pub mod Requests
use collaborative_ide.Handlers.Authority.{IsRole-is_role}
use collaborative_ide.Collab.Roles.{AllHaveRoles, IsRole}
use collaborative_ide.Hub.Invariant.{
  IsValid, end_loop-IsValid, broadcast_session_all-IsValid, unregister-IsValid,
  broadcast_session-IsValid, update_client_role-IsValid, register-IsValid, send_raw-IsValid,
}
use collaborative_ide.Collab.{
  crdt_update, proposal_cmd, get_role, Cmd, Sessions, session_exists, session_cmd, get_doc,
}
use collaborative_ide.Hub.{
  Client, WsMessage, Outgoing, find_client, end_loop, unregister, update_client_role, send_raw,
  proposal_add, proposal_end,
}
use collaborative_ide.Prelude.{
  [], refl, inl, inr, Option, none, true, false, Bool, ◌≡◌, String, if◌then◌else◌, List, ℕ,
  Bool-cases, str_eq, ◌∷◌, ◌||◌, ◌&&◌, Option-cases, lookup, arith, not,
}
use collaborative_ide.Handlers.{
  proposal_of, bare_proposal, single, cluster, cluster_lost, message, update, Server, submit,
  broadcast_participants, tell_or_redirect, finish_role_change, disconnect, finish_update,
  handle_proposal_msg, handle_message, handle_frame, with_client, send_doc, handle_ws,
  handle_create, handle_join, serve, Mode, tell_session, relay_others, add_proposal,
  handle_role_change_msg, some, write, new_client, Request, send_redirect, end_proposal,
  ClientFrame, IncomingMsg, ws, frame, is_role, left, create, join, replicated,
}

-- The server's hub is valid.
pub record HasValidHub (s : Server) : Type 0 where
  pub hub : IsValid s.hub

pub if-HasValidHub :
    (b : Bool) {s s' : Server}
    → (b ≡ true → HasValidHub s)
    → (b ≡ false → HasValidHub s')
    → HasValidHub (if b then s else s')
if-HasValidHub true h k = h refl
if-HasValidHub false h k = k refl

pub submit-HasValidHub :
    (mode : Mode) (cmd : Cmd) (s : Server) → HasValidHub s → HasValidHub (submit mode cmd s).0
unfolding submit
submit-HasValidHub single cmd s h = record { hub = h.hub }
submit-HasValidHub (cluster true) cmd s h = record { hub = h.hub }
submit-HasValidHub (cluster false) cmd s h = h
submit-HasValidHub cluster_lost cmd s h = record { hub = h.hub }

pub participants-HasValidHub :
    (code : String) (s : Server) → HasValidHub s → HasValidHub (broadcast_participants code s)
unfolding broadcast_participants
participants-HasValidHub code s h = record {
  hub = broadcast_session_all-IsValid _ code s.hub h.hub;
}

told-HasValidHub :
    (out : Outgoing) (code : String) (s : Server)
    → HasValidHub s
    → HasValidHub (tell_session out code s)
unfolding tell_session
told-HasValidHub out code s h = record { hub = broadcast_session_all-IsValid _ code s.hub h.hub }

redirect-HasValidHub :
    (handle : ℕ) (s : Server) → HasValidHub s → HasValidHub (send_redirect handle s)
unfolding send_redirect write
redirect-HasValidHub handle s h = record { hub = h.hub }

tell-HasValidHub :
    (c : Client) (out : Outgoing) (r : Server × Bool)
    → HasValidHub r.0
    → HasValidHub (tell_or_redirect c out r)
unfolding tell_or_redirect
tell-HasValidHub c out (s, true) h = told-HasValidHub out c.code s h
tell-HasValidHub c out (s, false) h = redirect-HasValidHub c.handle s h

role_change-HasValidHub :
    (c : Client) (m : IncomingMsg) (r : Server × Bool)
    → HasValidHub r.0
    → HasValidHub (finish_role_change c m r)
unfolding finish_role_change
role_change-HasValidHub c m (s, true) h =
    participants-HasValidHub c.code _ (told-HasValidHub _ c.code s h)
role_change-HasValidHub c m (s, false) h = redirect-HasValidHub c.handle s h

relay-HasValidHub :
    (c : Client) (m : WsMessage) (s : Server) → HasValidHub s → HasValidHub (relay_others c m s)
unfolding relay_others
relay-HasValidHub c m s h = record { hub = broadcast_session-IsValid m c.id c.code s.hub h.hub }

pub disconnect-HasValidHub :
    (c : Client) (s : Server) → HasValidHub s → HasValidHub (disconnect c s)
unfolding disconnect
disconnect-HasValidHub c s h =
    participants-HasValidHub c.code
      (record s { hub = end_loop c.handle (unregister c.handle s.hub) })
      (record { hub = end_loop-IsValid c.handle _ (unregister-IsValid c.handle s.hub h.hub) })

update-HasValidHub :
    (c : Client) (bytes : List ℕ) (r : Server × Bool)
    → HasValidHub r.0
    → HasValidHub (finish_update c bytes r)
unfolding finish_update
update-HasValidHub c bytes (s, true) h = relay-HasValidHub c _ s h
update-HasValidHub c bytes (s, false) h =
    disconnect-HasValidHub c _ (redirect-HasValidHub c.handle s h)

add-HasValidHub :
    (mode : Mode) (c : Client) (m : IncomingMsg) (s : Server)
    → HasValidHub s
    → HasValidHub (add_proposal mode c m s)
unfolding add_proposal
add-HasValidHub mode c m s h =
    if-HasValidHub (str_eq c.role "proposer" || str_eq c.role "editor")
      (λ _.
        tell-HasValidHub c (proposal_add (proposal_of c m))
          (submit mode (proposal_cmd c.code (proposal_of c m) "add") s)
          (submit-HasValidHub mode _ s h))
      (λ _. h)

end-HasValidHub :
    (mode : Mode) (c : Client) (m : IncomingMsg) (s : Server)
    → HasValidHub s
    → HasValidHub (end_proposal mode c m s)
unfolding end_proposal
end-HasValidHub mode c m s h =
    if-HasValidHub (str_eq c.role "editor")
      (λ _. elim (Option-cases m.nested) [
        | inl e ↦ rw e h
        | inr (id, e) ↦ rw e (
            tell-HasValidHub c (proposal_end m.action id)
              (submit mode (proposal_cmd c.code (bare_proposal id) m.action) s)
              (submit-HasValidHub mode _ s h))
      ])
      (λ _. h)

proposal-HasValidHub :
    (mode : Mode) (c : Client) (m : IncomingMsg) (s : Server)
    → HasValidHub s
    → HasValidHub (handle_proposal_msg mode c m s)
unfolding handle_proposal_msg
proposal-HasValidHub mode c m s h =
    if-HasValidHub (str_eq m.action "add") (λ _. add-HasValidHub mode c m s h)
      (λ _.
        if-HasValidHub (str_eq m.action "accept" || str_eq m.action "reject")
          (λ _. end-HasValidHub mode c m s h) (λ _. h))

roles-HasValidHub :
    (mode : Mode) (c : Client) (m : IncomingMsg) (s : Server)
    → HasValidHub s
    → HasValidHub (handle_role_change_msg mode c m s)
unfolding handle_role_change_msg
roles-HasValidHub mode c m s h =
    if-HasValidHub (str_eq c.role "editor" && is_role m.role)
      (λ e.
        role_change-HasValidHub c m
          (submit mode (Cmd.role_change c.code m.user_id m.role)
            (record s { hub = update_client_role m.user_id m.role s.hub }))
          (submit-HasValidHub mode _ (record s { hub = update_client_role m.user_id m.role s.hub })
            (record {
              hub =
                  update_client_role-IsValid m.user_id m.role s.hub
                    (IsRole-is_role m.role (ground arith)) h.hub;
            })))
      (λ _. h)

raw-HasValidHub :
    (user : String) (out : Outgoing) (s : Server)
    → HasValidHub s
    → HasValidHub (record s { hub = send_raw user out s.hub })
raw-HasValidHub user out s h = record { hub = send_raw-IsValid user out s.hub h.hub }

message-HasValidHub :
    (mode : Mode) (c : Client) (raw : List ℕ) (m : IncomingMsg) (s : Server)
    → HasValidHub s
    → HasValidHub (handle_message mode c raw m s)
unfolding handle_message
message-HasValidHub mode c raw m s h =
    if-HasValidHub (str_eq m.kind "proposal") (λ _. proposal-HasValidHub mode c m s h)
      (λ _.
        if-HasValidHub (str_eq m.kind "role_change") (λ _. roles-HasValidHub mode c m s h)
          (λ _.
            if-HasValidHub
              (str_eq m.kind "run_result" || (str_eq m.kind "awareness" || str_eq m.kind "sync_sv"))
              (λ _. relay-HasValidHub c _ s h)
              (λ _.
                if-HasValidHub (str_eq m.kind "sync_update" && not (str_eq m.to ""))
                  (λ _. raw-HasValidHub m.to _ s h) (λ _. h))))

pub frame-HasValidHub :
    (mode : Mode) (c : Client) (fr : ClientFrame) (s : Server)
    → HasValidHub s
    → HasValidHub (handle_frame mode c fr s)
unfolding handle_frame
frame-HasValidHub mode c (update bytes) s h =
    if-HasValidHub (str_eq c.role "editor")
      (λ _.
        update-HasValidHub c bytes (submit mode (crdt_update c.code bytes) s)
          (submit-HasValidHub mode _ s h))
      (λ _. h)
frame-HasValidHub mode c (message raw none) s h = h
frame-HasValidHub mode c (message raw (some m)) s h = message-HasValidHub mode c raw m s h
