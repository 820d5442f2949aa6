-- ===== src/Handlers/HubValidity/Requests.antt =====
-- The hub stays well-formed over all requests to the server.
use collaborative_ide.Collab.Roles.{AllHaveRoles, IsRole}
use collaborative_ide.Hub.Invariant.{IsValid, register-IsValid}
use collaborative_ide.Collab.{get_role, Sessions, session_exists, session_cmd, get_doc}
use collaborative_ide.Hub.{Client, find_client}
use collaborative_ide.Prelude.{
  [], refl, inl, inr, Option, none, true, false, Bool, String, List, ℕ, Bool-cases, str_eq, ◌∷◌,
  ◌||◌, Option-cases, lookup, arith, eq_iff,
}
use collaborative_ide.Handlers.{
  Server, with_client, send_doc, handle_ws, handle_create, handle_join, serve, Mode, some, write,
  new_client, Request, ws, frame, left, create, join, replicated,
}
use collaborative_ide.Handlers.HubValidity.{
  HasValidHub, if-HasValidHub, submit-HasValidHub, participants-HasValidHub, disconnect-HasValidHub,
  frame-HasValidHub,
}

with_client-HasValidHub :
    (o : Option Client) (f : Client → Server → Server) (s : Server)
    → ((c : Client) → HasValidHub (f c s))
    → HasValidHub s
    → HasValidHub (with_client o f s)
unfolding with_client
with_client-HasValidHub none f s k h = h
with_client-HasValidHub (some c) f s k h = if-HasValidHub c.connected (λ _. k c) (λ _. h)

get_role-IsRole :
    (code user : String) (ss : Sessions) → AllHaveRoles ss → IsRole (get_role code user ss)
unfolding get_role
get_role-IsRole code user ss h = elim (Option-cases (lookup code ss)) [
  | inl e ↦ rw (get_role, e) (inr (inr refl))
  | inr (s, e) ↦ elim (Option-cases (lookup user s.roles)) [
    | inl f ↦ rw (get_role, e, f) (inr (inr refl))
    | inr (r, f) ↦ rw (get_role, e, f) (h code s e user r f)
  ]
]

send_doc-HasValidHub :
    (handle : ℕ) (bytes : Option (List ℕ)) (s : Server)
    → HasValidHub s
    → HasValidHub (send_doc handle bytes s)
unfolding send_doc write
send_doc-HasValidHub handle none s h = h
send_doc-HasValidHub handle (some []) s h = h
send_doc-HasValidHub handle (some (b ∷ bytes)) s h = record { hub = h.hub }

ws-HasValidHub :
    (user code : String) (s : Server)
    → AllHaveRoles s.sessions
    → HasValidHub s
    → HasValidHub (handle_ws user code s).0
unfolding handle_ws new_client
ws-HasValidHub user code s a h = elim (Bool-cases (str_eq user "" || str_eq code "")) [
  | inl e ↦ rw (handle_ws, e) h
  | inr e ↦ elim (Bool-cases (session_exists code s.sessions)) [
    | inr f ↦ rw (handle_ws, e, f) h
    | inl f ↦
        rw (handle_ws, e, f)
          (participants-HasValidHub code _ (
            send_doc-HasValidHub s.next_handle (get_doc code s.sessions) _ (record {
              hub =
                  register-IsValid
                    (new_client s.next_handle user code (get_role code user s.sessions)) s.hub
                    (record {
                      live = λ _. refl;
                      bounded = omega arith;
                      role = get_role-IsRole code user s.sessions a;
                      named = λ n. ground (arith, eq_iff user "");
                    })
                    refl h.hub;
            })))
  ]
]

create-HasValidHub :
    (mode : Mode) (post : Bool) (body : Option String) (code : String) (s : Server)
    → HasValidHub s
    → HasValidHub (handle_create mode post body code s).0
unfolding handle_create
create-HasValidHub mode false body code s h = h
create-HasValidHub mode true none code s h = h
create-HasValidHub mode true (some user) code s h = elim (Bool-cases (str_eq user "")) [
  | inl e ↦ rw e h
  | inr e ↦ rw e (submit-HasValidHub mode (session_cmd "create" code user "editor") s h)
]

join-HasValidHub :
    (mode : Mode) (post : Bool) (body : Option (String × String)) (s : Server)
    → HasValidHub s
    → HasValidHub (handle_join mode post body s).0
unfolding handle_join
join-HasValidHub mode false body s h = h
join-HasValidHub mode true none s h = h
join-HasValidHub mode true (some (code, user)) s h =
    elim (Bool-cases (session_exists code s.sessions)) [
      | inl e ↦ rw e (submit-HasValidHub mode (session_cmd "join" code user "viewer") s h)
      | inr e ↦ rw e h
    ]

serve-HasValidHub :
    (r : Request) (s : Server) → AllHaveRoles s.sessions → HasValidHub s → HasValidHub (serve r s)
unfolding serve
serve-HasValidHub (ws user code) s a h = ws-HasValidHub user code s a h
serve-HasValidHub (frame mode handle fr) s a h =
    with_client-HasValidHub (find_client handle s.hub) _ s (λ c. frame-HasValidHub mode c fr s h) h
serve-HasValidHub (left handle) s a h =
    with_client-HasValidHub (find_client handle s.hub) _ s (λ c. disconnect-HasValidHub c s h) h
serve-HasValidHub (create mode post body code) s a h = create-HasValidHub mode post body code s h
serve-HasValidHub (join mode post body) s a h = join-HasValidHub mode post body s h
serve-HasValidHub (replicated cmd) s a h = record { hub = h.hub }

-- Every request keeps the hub valid, while the recorded roles are among the three: no client that
-- can be reached has a closed channel, no queue exceeds its capacity, every client object has one
-- of the three roles and a name that is not empty, and no two objects of one name are in the map.
pub serve-IsValid :
    (r : Request) (s : Server) → AllHaveRoles s.sessions → IsValid s.hub → IsValid (serve r s).hub
serve-IsValid r s a h = (serve-HasValidHub r s a (record { hub = h })).hub
