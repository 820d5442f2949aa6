-- ===== src/Handlers/Authority.antt =====
-- Which commands a connection may submit.
use collaborative_ide.Prelude.{
  ◌≡◌, ◌⊎◌, inl, inr, refl, true, false, none, some, List, arith, eq_iff, ap, Bool, ℕ, String,
  str_eq, if◌then◌else◌, ◌||◌, Option-cases, ◌&&◌, not, ◌∙◌,
}
use collaborative_ide.Handlers.{
  Mode, single, cluster, cluster_lost, Server, IncomingMsg, ClientFrame, submit, tell_or_redirect,
  finish_role_change, finish_update, handle_message, handle_frame, handle_proposal_msg,
  handle_role_change_msg, add_proposal, end_proposal, is_role, update, message, proposal_of,
  bare_proposal,
}
use collaborative_ide.Collab.{Cmd, crdt_update, proposal_cmd, role_change, session_cmd, do_op}
use collaborative_ide.Hub.{Client, Outgoing}
use collaborative_ide.Collab.Roles.{IsRole}

-- The rights of a client: everything concerns its own session; only an editor writes the document,
-- ends proposals and gives roles, which are among the three; a proposal is added by a proposer or
-- an editor, under the client's own name.
abbrev pub IsPermitted : Client → Cmd → Type 0
IsPermitted c (crdt_update code bytes) = (code ≡ c.code) × (c.role ≡ "editor")
IsPermitted c (proposal_cmd code q action) =
    (code ≡ c.code)
    × (((action ≡ "add") × (q.author ≡ c.id) × ((c.role ≡ "proposer") ⊎ (c.role ≡ "editor")))
        ⊎ (((action ≡ "accept") ⊎ (action ≡ "reject")) × (c.role ≡ "editor")))
IsPermitted c (role_change code user role) = (code ≡ c.code) × (c.role ≡ "editor") × IsRole role
IsPermitted c (session_cmd action code user role) = ⊥

-- The sessions stay, or change by one permitted command.
pub data Obeys (c : Client) (s s' : Server) : Type 0 where
  idle : s'.sessions ≡ s.sessions → Obeys c s s'
  command : (cmd : Cmd) → IsPermitted c cmd → s'.sessions ≡ do_op cmd s.sessions → Obeys c s s'

Obeys-same :
    {c : Client} {s s' : Server} (s'' : Server)
    → s''.sessions ≡ s'.sessions
    → Obeys c s s'
    → Obeys c s s''
Obeys-same s'' same (idle e) = idle (same ∙ e)
Obeys-same s'' same (command cmd h e) = command cmd h (same ∙ e)

submit-Obeys :
    (mode : Mode) (c : Client) (cmd : Cmd) (s s₀ : Server)
    → s.sessions ≡ s₀.sessions
    → IsPermitted c cmd
    → Obeys c s₀ (submit mode cmd s).0
unfolding submit
submit-Obeys single c cmd s s₀ e h = command cmd h (ap (do_op cmd) e)
submit-Obeys (cluster true) c cmd s s₀ e h = command cmd h (ap (do_op cmd) e)
submit-Obeys (cluster false) c cmd s s₀ e h = idle e
submit-Obeys cluster_lost c cmd s s₀ e h = command cmd h (ap (do_op cmd) e)

-- What follows a submission sends frames and leaves the sessions alone.
tell-Obeys :
    (c : Client) (out : Outgoing) (s : Server) (r : Server × Bool)
    → Obeys c s r.0
    → Obeys c s (tell_or_redirect c out r)
unfolding tell_or_redirect
tell-Obeys c out s (s', true) h = Obeys-same _ refl h
tell-Obeys c out s (s', false) h = Obeys-same _ refl h

role-Obeys :
    (c : Client) (m : IncomingMsg) (s : Server) (r : Server × Bool)
    → Obeys c s r.0
    → Obeys c s (finish_role_change c m r)
unfolding finish_role_change
role-Obeys c m s (s', true) h = Obeys-same _ refl h
role-Obeys c m s (s', false) h = Obeys-same _ refl h

update-Obeys :
    (c : Client) (bytes : List ℕ) (s : Server) (r : Server × Bool)
    → Obeys c s r.0
    → Obeys c s (finish_update c bytes r)
unfolding finish_update
update-Obeys c bytes s (s', true) h = Obeys-same _ refl h
update-Obeys c bytes s (s', false) h = Obeys-same _ refl h

pub IsRole-is_role : (r : String) → is_role r ≡ true → IsRole r
IsRole-is_role r h = ground (arith, eq_iff r "editor", eq_iff r "proposer", eq_iff r "viewer")

if-Obeys :
    (c : Client) (s : Server) (b : Bool) {x y : Server}
    → (b ≡ true → Obeys c s x)
    → (b ≡ false → Obeys c s y)
    → Obeys c s (if b then x else y)
if-Obeys c s true h k = h refl
if-Obeys c s false h k = k refl

add-Obeys :
    (mode : Mode) (c : Client) (m : IncomingMsg) (s : Server) → Obeys c s (add_proposal mode c m s)
unfolding add_proposal
add-Obeys mode c m s =
    if-Obeys c s (str_eq c.role "proposer" || str_eq c.role "editor")
      (λ h. tell-Obeys c _ s _ (
        submit-Obeys mode c (proposal_cmd c.code (proposal_of c m) "add") s s refl (
          refl,
          inl (
            refl,
            unfold proposal_of in refl,
            ground (arith, eq_iff c.role "proposer", eq_iff c.role "editor"),
          ),
        )))
      (λ _. idle refl)

end-Obeys :
    (mode : Mode) (c : Client) (m : IncomingMsg) (s : Server)
    → ((m.action ≡ "accept") ⊎ (m.action ≡ "reject"))
    → Obeys c s (end_proposal mode c m s)
unfolding end_proposal
end-Obeys mode c m s action =
    if-Obeys c s (str_eq c.role "editor")
      (λ h. elim (Option-cases m.nested) [
        | inl e ↦ rw e (idle refl)
        | inr (id, e) ↦ rw e (
            tell-Obeys c _ s _ (
              submit-Obeys mode c (proposal_cmd c.code (bare_proposal id) m.action) s s refl
                (refl, inr (action, (eq_iff c.role "editor").0 h))))
      ])
      (λ _. idle refl)

proposal-Obeys :
    (mode : Mode) (c : Client) (m : IncomingMsg) (s : Server)
    → Obeys c s (handle_proposal_msg mode c m s)
unfolding handle_proposal_msg
proposal-Obeys mode c m s =
    if-Obeys c s (str_eq m.action "add") (λ _. add-Obeys mode c m s)
      (λ _.
        if-Obeys c s (str_eq m.action "accept" || str_eq m.action "reject")
          (λ h.
            end-Obeys mode c m s
              (ground (arith, eq_iff m.action "accept", eq_iff m.action "reject")))
          (λ _. idle refl))

role_change-Obeys :
    (mode : Mode) (c : Client) (m : IncomingMsg) (s : Server)
    → Obeys c s (handle_role_change_msg mode c m s)
unfolding handle_role_change_msg
role_change-Obeys mode c m s =
    if-Obeys c s (str_eq c.role "editor" && is_role m.role)
      (λ h. role-Obeys c m s _ (
        submit-Obeys mode c (role_change c.code m.user_id m.role) _ s refl
          (refl, ground (arith, eq_iff c.role "editor"), IsRole-is_role m.role (ground arith))))
      (λ _. idle refl)

message-Obeys :
    (mode : Mode) (c : Client) (raw : List ℕ) (m : IncomingMsg) (s : Server)
    → Obeys c s (handle_message mode c raw m s)
unfolding handle_message
message-Obeys mode c raw m s =
    if-Obeys c s (str_eq m.kind "proposal") (λ _. proposal-Obeys mode c m s)
      (λ _.
        if-Obeys c s (str_eq m.kind "role_change") (λ _. role_change-Obeys mode c m s)
          (λ _.
            if-Obeys c s
              (str_eq m.kind "run_result" || (str_eq m.kind "awareness" || str_eq m.kind "sync_sv"))
              (λ _. idle refl)
              (λ _.
                if-Obeys c s (str_eq m.kind "sync_update" && not (str_eq m.to "")) (λ _. idle refl)
                  (λ _. idle refl))))

-- Every frame of a connection leaves the sessions as they were, or changes them by one command that
-- the role of its client object permits.
pub handle_frame-Obeys :
    (mode : Mode) (c : Client) (fr : ClientFrame) (s : Server)
    → Obeys c s (handle_frame mode c fr s)
unfolding handle_frame
handle_frame-Obeys mode c (update bytes) s =
    if-Obeys c s (str_eq c.role "editor")
      (λ h. update-Obeys c bytes s _ (
        submit-Obeys mode c (crdt_update c.code bytes) s s refl
          (refl, (eq_iff c.role "editor").0 h)))
      (λ _. idle refl)
handle_frame-Obeys mode c (message raw none) s = idle refl
handle_frame-Obeys mode c (message raw (some m)) s = message-Obeys mode c raw m s

viewer-ne-editor : (r : String) → r ≡ "viewer" → r ≡ "editor" → ⊥
viewer-ne-editor r v e = ground (arith, eq_iff "viewer" "editor")

viewer-ne-proposer : (r : String) → r ≡ "viewer" → r ≡ "proposer" → ⊥
viewer-ne-proposer r v e = ground (arith, eq_iff "viewer" "proposer")

viewer-IsPermitted : (c : Client) (cmd : Cmd) → c.role ≡ "viewer" → IsPermitted c cmd → ⊥
viewer-IsPermitted c (crdt_update code bytes) v (_, e) = viewer-ne-editor c.role v e
viewer-IsPermitted c (proposal_cmd code q action) v (_, inl (_, _, inl e)) =
    viewer-ne-proposer c.role v e
viewer-IsPermitted c (proposal_cmd code q action) v (_, inl (_, _, inr e)) =
    viewer-ne-editor c.role v e
viewer-IsPermitted c (proposal_cmd code q action) v (_, inr (_, e)) = viewer-ne-editor c.role v e
viewer-IsPermitted c (role_change code user role) v (_, e, _) = viewer-ne-editor c.role v e
viewer-IsPermitted c (session_cmd action code user role) v h = h

-- No frame of a connection whose client object is a viewer changes any session.
pub sessions-handle_frame :
    (mode : Mode) (c : Client) (fr : ClientFrame) (s : Server)
    → c.role ≡ "viewer"
    → (handle_frame mode c fr s).sessions ≡ s.sessions
sessions-handle_frame mode c fr s viewer = elim (handle_frame-Obeys mode c fr s) [
  | idle e ↦ e
  | command cmd permitted _ ↦ absurd (viewer-IsPermitted c cmd viewer permitted)
]
