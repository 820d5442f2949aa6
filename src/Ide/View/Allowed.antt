-- ===== src/Ide/View/Allowed.antt =====
-- Which actions the page of a session should offer.
use mathlib.Core.Path.{subst}
use collaborative_ide.View.{
  Action, set_role, accept, reject, run, show_share, close_share, copy_code, open_propose,
  close_propose, submit,
}
use collaborative_ide.Collab.Roles.{IsRole}
use collaborative_ide.Sidebar.{Dialog, Selection}
use collaborative_ide.PositionUtils.{Proposal}
use collaborative_ide.Client.{Participant}
use collaborative_ide.Prelude.{IsIn, true, false, some, String, List, Bool, ◌≡◌, ◌⊎◌, sym, ◌≢◌}

-- What the offers depend on.
pub record Page : Type 0 where
  pub role : String
  pub people : List Participant
  pub proposals : List Proposal
  pub dialog : Dialog
  pub running : Bool
  pub sharing : Bool

-- An action and what the page must show for it.
pub data IsAllowed (g : Page) : Action → Type 0 where
  may_set_role :
      (q : Participant) (r : String)
      → g.role ≡ "editor"
      → IsIn q g.people
      → q.is_me ≡ false
      → IsRole r
      → IsAllowed g (set_role q.id r)
  may_accept : (q : Proposal) → g.role ≡ "editor" → IsIn q g.proposals → IsAllowed g (accept q)
  may_reject : (q : Proposal) → g.role ≡ "editor" → IsIn q g.proposals → IsAllowed g (reject q.id)
  may_open : (g.role ≡ "proposer") ⊎ (g.role ≡ "editor") → IsAllowed g open_propose
  may_close : g.dialog.show_propose_modal ≡ true → IsAllowed g close_propose
  may_submit :
      (s : Selection)
      → g.dialog.show_propose_modal ≡ true
      → g.dialog.selection ≡ some s
      → s.from ≢ s.to
      → IsAllowed g submit
  may_run : g.role ≢ "viewer" → g.running ≡ false → IsAllowed g run
  may_share : IsAllowed g show_share
  may_close_share : g.sharing ≡ true → IsAllowed g close_share
  may_copy : g.sharing ≡ true → IsAllowed g copy_code

module _ (g : Page) where
  pub offered : {a : Action} (b : Action) → a ≡ b → IsAllowed g b → IsAllowed g a
  offered b e k = subst (IsAllowed g) (sym e) k
