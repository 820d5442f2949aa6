-- ===== src/Session/Redirect.antt =====
-- What becomes of a client that the server redirects to the leader.
use collaborative_ide.Prelude.{◌≡◌, refl, true, none, List, [], ◌∷◌, arith, All, some}
use collaborative_ide.Platform.{Platform}
use collaborative_ide.Client.{
  Client, closed, send, ws_send, on_update, set_doc, set_proposals, Socket, Frame, connecting,
  on_some,
}
use collaborative_ide.CollabWs.{Incoming, Port, redirect, leads_elsewhere, on_redirect, on_close}
use collaborative_ide.Session.{Event, opened, text_frame, disconnected, step, run}
use collaborative_ide.Session.Induction.{Closed, step-closed, IsSpecial}

-- A closed socket does not open again and delivers no redirect.
abbrev pub IsOffline : {p : Platform} → Event p → Type 0
IsOffline opened = ⊥
IsOffline (text_frame (redirect port)) = ⊥
IsOffline _ = Unit

module _ (p : Platform) where
  -- The client has sent `frames` and has no socket left to send by.
  record IsCutOff (frames : List (Socket × Frame)) (c : Client p) : Type 0 where
    socket : c.ws ≡ closed
    no_ref : c.ws_ref ≡ none
    frames_sent : c.sent ≡ frames

  module _ (frames : List (Socket × Frame)) where
    IsCutOff-closed : Closed p (IsCutOff frames)
    unfolding send ws_send on_update set_doc set_proposals
    IsCutOff-closed = record {
      sends = λ m n c h. ground arith;
      ws_sends = λ m n c h. ground arith;
      updates = λ c h. ground arith;
      documents = λ d c h. ground arith;
      idles = λ ops c e h. ground arith;
      proposes = λ qs c h. ground arith;
      shows = λ people lines status busy a c h. ground arith;
      receives = λ c h. ground arith;
      begins = λ c h. ground arith;
      connects = λ c h. ground arith;
      closes = λ c h. ground arith;
    }

    special-IsCutOff :
        (c : Client p) (e : Event p)
        → IsCutOff frames c
        → IsOffline e
        → IsSpecial e
        → IsCutOff frames (step p c e)
    unfolding step
    special-IsCutOff c opened h off _ = elim off [ ]
    special-IsCutOff c (text_frame (redirect port)) h off _ = elim off [ ]
    special-IsCutOff c (text_frame (Incoming.role_change user role)) h _ _ = ground arith
    special-IsCutOff c (text_frame (Incoming.sync_sv b64 from)) h _ _ =
        unfold ws_send on_some in ground arith
    special-IsCutOff c _ h _ i = elim i [ ]

    run-IsCutOff :
        (c : Client p) (es : List (Event p))
        → IsCutOff frames c
        → All IsOffline es
        → IsCutOff frames (run p c es)
    unfolding run
    run-IsCutOff c [] h _ = h
    run-IsCutOff c (e ∷ es) h (off, offs) =
        run-IsCutOff (step p c e) es
          (step-closed p IsCutOff-closed c e (special-IsCutOff c e h off) h) offs

  -- The bug: a redirect to another port opens a second socket, but once the first socket has
  -- closed, the client hands no frame to any socket, whatever happens afterwards on the page, on
  -- the second socket and in the document.
  pub redirect_silences :
      (c : Client p) (port : Port) (es : List (Event p))
      → leads_elsewhere port c.location_port ≡ true
      → All IsOffline es
      → ((step p c (text_frame (redirect port))).leader_ws ≡ some connecting)
        × ((run p c (text_frame (redirect port) ∷ disconnected ∷ es)).sent ≡ c.sent)
  unfolding step run
  redirect_silences c port es elsewhere offline =
      (rw (on_redirect, elsewhere), (run-IsCutOff c.sent _ es cut offline).frames_sent)
    where
      cut : IsCutOff c.sent (on_close p (on_redirect p port c))
      cut =
          rw (on_redirect, elsewhere) (record { socket = refl; no_ref = refl; frames_sent = refl })
