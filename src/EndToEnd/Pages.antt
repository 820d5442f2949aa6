-- ===== src/EndToEnd/Pages.antt =====
-- ide/handlers.go with components/IDE.jsx: the participants that the server tells a client, and the
-- page that the client shows then.
use collaborative_ide.Collab.Roles.{AllHaveRoles}
use collaborative_ide.Platform.{Platform}
use collaborative_ide.CollabWs.{on_text, participants}
use collaborative_ide.Client.{Client, on_participants}
use collaborative_ide.Hub.{Hub, session_participants}
use collaborative_ide.Hub.Invariant.{IsValid, IsSound}
use collaborative_ide.Ide.View.{Overlays, page_view}
use collaborative_ide.Ide.View.Total.{AllNamed, page_view_total}
use collaborative_ide.View.{Html}
use collaborative_ide.Handlers.{Request, Server, serve}
use collaborative_ide.Handlers.Validity.{IsGenuine, serve-AllHaveRoles}
use collaborative_ide.Handlers.HubValidity.Requests.{serve-IsValid}
use collaborative_ide.EndToEnd.{new_server, serve_all}
use collaborative_ide.Prelude.{
  some, inl, inr, [], ◌∷◌, List, lookup, ℕ, keep, String, Text, All, ◌≢◌, ◌≡◌, Bool-cases, map,
  ◌&&◌, str_eq,
}

serve_all-AllHaveRoles :
    (rs : List Request) (s : Server)
    → All IsGenuine rs
    → AllHaveRoles s.sessions
    → IsValid s.hub
    → AllHaveRoles (serve_all rs s).sessions × IsValid (serve_all rs s).hub
unfolding serve_all
serve_all-AllHaveRoles [] s gs a v = (a, v)
serve_all-AllHaveRoles (r ∷ rs) s (g, gs) a v =
    serve_all-AllHaveRoles rs (serve r s) gs (serve-AllHaveRoles r s g a) (serve-IsValid r s a v)

no_sessions-AllHaveRoles : AllHaveRoles []
unfolding lookup
no_sessions-AllHaveRoles code s e = cc

-- Whatever requests a new server has served, with no replicated command among them but those that a
-- server submits, each recorded role is one of editor, proposer and viewer, and the hub is valid: no
-- client that can be reached has a closed channel, no queue exceeds its capacity, every client object
-- has one of the three roles and a name that is not empty, and no two objects of one name are in the
-- map.
pub serve_all_lem :
    (port : ℕ) (rs : List Request)
    → All IsGenuine rs
    → AllHaveRoles (serve_all rs (new_server port)).sessions
      × IsValid (serve_all rs (new_server port)).hub
unfolding new_server
serve_all_lem port rs gs =
    serve_all-AllHaveRoles rs (new_server port) gs no_sessions-AllHaveRoles
      (record { sound = tt; unique = tt })

session_participants-named :
    (code : String) (hub : Hub)
    → All IsSound hub
    → All (λ e. e.0 ≢ "") (session_participants code hub)
unfolding session_participants keep
session_participants-named code [] h = tt
session_participants-named code (c ∷ hub) (h, hs) =
    elim (Bool-cases (c.registered && str_eq c.code code)) [
      | inl e ↦ rw (session_participants, keep, e) (h.named, session_participants-named code hub hs)
      | inr e ↦ rw (session_participants, keep, e) (session_participants-named code hub hs)
    ]

told-AllNamed :
    (user : String) (list : List (String × String))
    → All (λ e. e.0 ≢ "") list
    → AllNamed (map (λ e. record { id = e.0; role = e.1; is_me = str_eq e.0 user }) list)
told-AllNamed user [] h = tt
told-AllNamed user (e ∷ list) (h, hs) = (h, told-AllNamed user list hs)

-- Whatever requests a new server has served, none of them a replicated command that no server issues,
-- a client that it tells the participants of a session shows its page.
pub told_page_view :
    (p : Platform) (to_upper : Text → Text) (shown : ℕ → Text) (port : ℕ) (rs : List Request)
    (code : String) (c : Client p) (o : Overlays)
    → All IsGenuine rs
    → (h : Html) × (next : ℕ) × (page_view p to_upper shown
          (on_text p
            (participants (session_participants code (serve_all rs (new_server port)).hub))
            c)
          o
        ≡ some (h, next))
unfolding on_text on_participants
told_page_view p to_upper shown port rs code c o gs = page_view_total p to_upper shown _ o (
    told-AllNamed c.user_id _
      (session_participants-named code _ (serve_all_lem port rs gs).1.sound))
