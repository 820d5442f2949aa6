-- ===== src/Handlers/Escape.antt =====
-- Where the boundary between sessions fails: the map of clients is keyed by the user's name alone,
-- and a change of a role names a user without a check of the session.
use collaborative_ide.Collab.{Cmd}
use collaborative_ide.Handlers.{
  single, submit, finish_role_change, handle_frame, Mode, IncomingMsg, handle_message, Server,
  handle_role_change_msg, cluster, cluster_lost, is_role, message,
}
use collaborative_ide.Hub.{
  Client, broadcast_session_all, find_client, Hub, offer, update_client_role, WsMessage,
}
use collaborative_ide.Prelude.{
  ℕ, Option, ◌≡◌, String, none, map, arith, some, Bool, List, ◌∷◌, true, ◌∙◌, if◌then◌else◌, eq_iff,
  ◌==◌, ap, [], refl, false,
}

-- The session and the role of the client object at an address.
abbrev pub role_at : ℕ → Hub → Option (String × String)
role_at handle [] = none
role_at handle (c ∷ hub) = if c.handle == handle then some (c.code, c.role) else role_at handle hub

role_at-map :
    (f : Client → Client) (handle : ℕ) (hub : Hub)
    → ((c : Client) → (f c).handle ≡ c.handle)
    → ((c : Client) → (f c).code ≡ c.code)
    → ((c : Client) → (f c).role ≡ c.role)
    → role_at handle (map f hub) ≡ role_at handle hub
role_at-map f handle [] h k r = refl
role_at-map f handle (c ∷ hub) h k r = cc (h c, k c, r c, role_at-map f handle hub h k r)

role_at-broadcast :
    (handle : ℕ) (m : WsMessage) (code : String) (hub : Hub)
    → role_at handle (broadcast_session_all m code hub) ≡ role_at handle hub
unfolding broadcast_session_all offer
role_at-broadcast handle m code hub =
    role_at-map _ handle hub (λ c. ground arith) (λ c. ground arith) (λ c. ground arith)

role_at-update_client_role :
    (handle : ℕ) (user role : String) (hub : Hub) (d : Client)
    → find_client handle hub ≡ some d
    → d.registered ≡ true
    → d.id ≡ user
    → role_at handle (update_client_role user role hub) ≡ some (d.code, role)
unfolding find_client update_client_role
role_at-update_client_role handle user role [] d e r i = cc
role_at-update_client_role handle user role (c ∷ hub) d e r i =
    ground (arith, eq_iff d.id user, role_at-update_client_role handle user role hub d)

hub-submit : (mode : Mode) (cmd : Cmd) (s : Server) → (submit mode cmd s).0.hub ≡ s.hub
unfolding submit
hub-submit single cmd s = refl
hub-submit (cluster true) cmd s = refl
hub-submit (cluster false) cmd s = refl
hub-submit cluster_lost cmd s = refl

role_at-finish_role_change :
    (handle : ℕ) (c : Client) (m : IncomingMsg) (r : Server × Bool)
    → role_at handle (finish_role_change c m r).hub ≡ role_at handle r.0.hub
unfolding finish_role_change
role_at-finish_role_change handle c m (s, true) =
    role_at-broadcast handle _ c.code _ ∙ role_at-broadcast handle _ c.code s.hub
role_at-finish_role_change handle c m (s, false) = refl

-- The bug: an editor's change of a role sets the role of the connected client object of that name
-- in whatever session it is, and it does so even when the command is refused.
pub role_change_escapes :
    (mode : Mode) (c d : Client) (raw : List ℕ) (m : IncomingMsg) (s : Server)
    → c.role ≡ "editor"
    → m.kind ≡ "role_change"
    → is_role m.role ≡ true
    → find_client d.handle s.hub ≡ some d
    → d.registered ≡ true
    → d.id ≡ m.user_id
    → role_at d.handle (handle_frame mode c (message raw (some m)) s).hub ≡ some (d.code, m.role)
unfolding handle_frame handle_message handle_role_change_msg
role_change_escapes mode c d raw m s editor kind valid found listed named =
    rw (handle_frame, handle_message, handle_role_change_msg, kind, editor, valid)
      (role_at-finish_role_change d.handle c m _
        ∙ (ap (role_at d.handle) (hub-submit mode _ _)
            ∙ role_at-update_client_role d.handle m.user_id m.role s.hub d found listed named))
