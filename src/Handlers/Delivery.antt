-- ===== src/Handlers/Delivery.antt =====
-- To whom the server passes on the frames that it does not interpret.

use collaborative_ide.Handlers.{
  handle_message, handle_frame, Mode, relay_others, IncomingMsg, Server, message,
}
use collaborative_ide.Hub.{
  WsMessage, Client, find_client, send_raw, Hub, broadcast_session, offer, relay, capacity,
}
use collaborative_ide.Prelude.{
  [], inl, inr, String, ℕ, ◌≡◌, ◌⊎◌, List, some, map, ◌∷◌, str_eq, arith, if◌then◌else◌, false,
  ◌&&◌, true, not, length, ltb, ◌<◌, ◌++◌, ap, ◌∙◌, eq_iff,
}

find_client-map :
    (f : Client → Client) (handle : ℕ) (hub : Hub) (d : Client)
    → ((c : Client) → (f c).handle ≡ c.handle)
    → find_client handle hub ≡ some d
    → find_client handle (map f hub) ≡ some (f d)
unfolding find_client
find_client-map f handle [] d k e = cc
find_client-map f handle (c ∷ hub) d k e = ground (arith, k c, find_client-map f handle hub d k)

-- The three kinds of frames that go to the others of the session.
abbrev pub IsRelayed : String → Type 0
IsRelayed kind = (kind ≡ "run_result") ⊎ ((kind ≡ "awareness") ⊎ (kind ≡ "sync_sv"))

IsRelayed-handle_message :
    (mode : Mode) (c : Client) (raw : List ℕ) (m : IncomingMsg) (s : Server)
    → IsRelayed m.kind
    → handle_message mode c raw m s ≡ relay_others c (WsMessage.text (relay raw)) s
unfolding handle_message
IsRelayed-handle_message mode c raw m s (inl e) = rw (handle_message, e)
IsRelayed-handle_message mode c raw m s (inr (inl e)) = rw (handle_message, e)
IsRelayed-handle_message mode c raw m s (inr (inr e)) = rw (handle_message, e)

-- A run's result, an awareness update and a state vector reach, unchanged and in the order of the
-- queue, exactly the other connected clients of the sender's session whose queue has room.
pub handle_frame-relayed :
    (mode : Mode) (c d : Client) (raw : List ℕ) (m : IncomingMsg) (s : Server)
    → IsRelayed m.kind
    → find_client d.handle s.hub ≡ some d
    → find_client d.handle (handle_frame mode c (message raw (some m)) s).hub
      ≡ some (
          if d.registered
            && (not (str_eq d.id c.id) && (str_eq d.code c.code && ltb (length d.queue) capacity))
          then record d { queue = d.queue ++ WsMessage.text (relay raw) ∷ [] }
          else d)
unfolding handle_frame relay_others broadcast_session offer
handle_frame-relayed mode c d raw m s kind found =
    ap (λ s'. find_client d.handle s'.hub) (IsRelayed-handle_message mode c raw m s kind)
    ∙ (find_client-map _ d.handle s.hub d (λ c'. ground arith) found ∙ ap some (ground arith))

-- The bug: a `sync_update` frame of any client, whatever its role and its session, is queued for
-- the connected client of the name that the frame gives, in whatever session that is.
pub sync_update_escapes :
    (mode : Mode) (c d : Client) (raw : List ℕ) (m : IncomingMsg) (s : Server)
    → m.kind ≡ "sync_update"
    → str_eq m.to "" ≡ false
    → find_client d.handle s.hub ≡ some d
    → d.registered ≡ true
    → d.id ≡ m.to
    → length d.queue < capacity
    → find_client d.handle (handle_frame mode c (message raw (some m)) s).hub
      ≡ some (record d { queue = d.queue ++ WsMessage.text (relay raw) ∷ [] })
unfolding handle_frame handle_message send_raw offer
sync_update_escapes mode c d raw m s kind named found listed same room =
    rw (handle_message, kind, named)
      (find_client-map _ d.handle s.hub d (λ c'. ground arith) found
        ∙ ap some (ground (arith, eq_iff d.id m.to)))
