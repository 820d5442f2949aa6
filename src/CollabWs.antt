-- ===== src/CollabWs.antt =====
-- useCollabWS.js: the WebSocket provider between the server and the document. A handler that
-- throws leaves what it had done before; text frames are handled under `try`.
pub mod Sockets
use collaborative_ide.Prelude.{
  ℕ, Bool, true, false, not, none, some, List, [], ◌∷◌, ◌++◌, String, str_eq, Text, utf16,
  if◌then◌else◌, ◌&&◌, ◌>>=◌, ltb, length, ◌==◌,
}
use collaborative_ide.Platform.{Platform, ins, at}
use collaborative_ide.PositionUtils.{Proposal, to_base64, from_base64}
use collaborative_ide.Client.{
  Client, Line, json, Message, connecting, ready, closing, closed, leader, is_ready, ws_send,
  set_doc, local_transact, on_participants, on_proposal, on_role_change, on_run_result, on_some,
}

-- The `port` of a redirect, as JSON gives it.
pub data Port : Type 0 where
  missing : Port
  number : ℕ → Port
  string : String → Port

-- A text frame from the server, after `JSON.parse`.
pub data Incoming : Type 0 where
  redirect : Port → Incoming
  participants : List (String × String) → Incoming
  proposal : String → Proposal → Incoming
  role_change : String → String → Incoming
  run_result : List Line → String → Incoming
  awareness : Text → Incoming
  sync_sv : Text → String → Incoming
  sync_update : Text → Incoming
  other : Incoming

-- STARTER
unfoldable pub starter : Text
unfolding utf16
starter =
    utf16 "package main\n\nimport (\n\t\"fmt\"\n\t\"math\"\n)\n\nfunc fibonacci(n int) int {\n"
    ++ (utf16 "\tif n <= 1 {\n\t\treturn n\n\t}\n\treturn fibonacci(n-1) + fibonacci(n-2)\n}\n\n"
        ++ (utf16 "func main() {\n\tfmt.Println(\"GoCollab IDE — Hello!\")\n\tfmt.Println()\n"
            ++ (utf16 "\tfmt.Println(\"Fibonacci sequence:\")\n\tfor i := 0; i < 10; i++ {\n"
                ++ (utf16 "\t\tfmt.Printf(\"  fib(%d) = %d\\n\", i, fibonacci(i))\n\t}\n"
                    ++ utf16
                        "\tfmt.Printf(\"\\nPi ≈ %.6f\\n\", math.Pi)\n\tfmt.Printf(\"sqrt(2) ≈ %.6f\\n\", math.Sqrt(2))\n}\n"))))

-- `leaderPort && leaderPort !== location.port`. The browser's port is a string, and `!==` tells a
-- number from every string.
unfoldable pub leads_elsewhere : Port → String → Bool
leads_elsewhere missing here = false
leads_elsewhere (number n) here = not (n == 0)
leads_elsewhere (string s) here = not (str_eq s "") && not (str_eq s here)

module _ (p : Platform) where
  unfoldable pub do_sync_handshake : Client p → Client p
  unfolding ws_send on_some
  do_sync_handshake c =
      on_some p (to_base64 p (p.state_vector c.doc))
        (λ sv c'. ws_send p (json (Message.sync_sv sv c'.user_id)) c') c

  -- The listener of the awareness event `change`, which names the clients that changed.
  unfoldable pub on_awareness_change : List ℕ → Client p → Client p
  unfolding ws_send on_some
  on_awareness_change changed c =
      on_some p (to_base64 p (p.encode_awareness c.presence changed))
        (λ b c'. if is_ready c'.ws then ws_send p (json (Message.awareness b)) c' else c') c

  -- The event fires if a client changed.
  unfoldable pub set_awareness : p.Awareness × List ℕ → Client p → Client p
  unfolding on_awareness_change
  set_awareness (a, []) c = record c { presence = a }
  set_awareness (a, i ∷ changed) c = on_awareness_change (i ∷ changed) (record c { presence = a })

  -- ws.onopen
  unfoldable pub on_open : Client p → Client p
  unfolding set_awareness
  on_open c =
      set_awareness
        (p.set_user c.user_id (if str_eq c.avatar_color "" then "#00adb5" else c.avatar_color)
          c.presence)
        (record c { ws = ready })

  -- What follows the insertion of the starter text, unless that threw.
  unfoldable pub after_starter : Client p × Bool → Client p
  unfolding do_sync_handshake
  after_starter (c, true) = c
  after_starter (c, false) = do_sync_handshake (record c { doc_ready = true })

  -- The timer that `onopen` sets: an editor who got no document begins one.
  unfoldable pub on_timeout : Client p → Client p
  unfolding after_starter local_transact starter
  on_timeout c =
      if not c.received_doc && str_eq c.my_role "editor"
      then (if length (p.text c.doc) == 0
          then after_starter (local_transact p (ins (at 0) starter ∷ []) c)
          else c)
      else c

  unfoldable pub mark_received : Client p → Client p
  mark_received c =
      if not c.received_doc then record c { received_doc = true; doc_ready = true } else c

  -- ws.onmessage, of a binary frame
  unfoldable pub on_binary : List ℕ → Client p → Client p
  unfolding do_sync_handshake set_doc mark_received on_some
  on_binary bytes c =
      let c' = mark_received c in
      on_some p (p.apply_update c'.doc bytes) (λ d c''. do_sync_handshake (set_doc p d c'')) c'

  unfoldable pub on_redirect : Port → Client p → Client p
  unfolding leads_elsewhere
  on_redirect port c =
      if leads_elsewhere port c.location_port
      then record c {
        leader_ws = some connecting;
        ws = elim c.ws [ closed ↦ closed | _ ↦ closing ];
        ws_ref = some leader;
      }
      else c

  unfoldable pub on_awareness : Text → Client p → Client p
  unfolding set_awareness on_some
  on_awareness b64 c =
      on_some p (from_base64 p b64 >>= λ bytes. p.apply_awareness c.presence bytes) set_awareness c

  -- Another client's state vector: answer with what it misses, if that is more than nothing.
  unfoldable pub on_sync_sv : Text → String → Client p → Client p
  unfolding ws_send on_some
  on_sync_sv b64 from c =
      on_some p
        (from_base64 p b64 >>= λ sv.
          p.state_since c.doc sv >>= λ diff. if ltb 2 (length diff) then to_base64 p diff else none)
        (λ b. ws_send p (json (Message.sync_update b from))) c

  unfoldable pub on_sync_update : Text → Client p → Client p
  unfolding set_doc on_some
  on_sync_update b64 c = on_some p (from_base64 p b64 >>= λ u. p.apply_update c.doc u) (set_doc p) c

  -- ws.onmessage, of a text frame that parses
  unfoldable pub on_text : Incoming → Client p → Client p
  unfolding on_redirect on_participants on_proposal on_role_change on_run_result on_awareness
      on_sync_sv on_sync_update
  on_text (redirect port) c = on_redirect port c
  on_text (participants list) c = on_participants p list c
  on_text (proposal action q) c = on_proposal p action q c
  on_text (role_change user role) c = on_role_change p user role c
  on_text (run_result lines status) c = on_run_result p lines status c
  on_text (awareness b64) c = on_awareness b64 c
  on_text (sync_sv b64 from) c = on_sync_sv b64 from c
  on_text (sync_update b64) c = on_sync_update b64 c
  on_text other c = c

  -- ws.onclose
  unfoldable pub on_close : Client p → Client p
  on_close c = record c { ws = closed; ws_ref = none }
