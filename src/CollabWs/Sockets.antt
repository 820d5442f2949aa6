-- ===== src/CollabWs/Sockets.antt =====
-- useCollabWS.js with main.jsx: the sockets of the effect when it runs more than once. In the
-- development build StrictMode has React run each effect, its clean-up and the effect again. A
-- redirect makes a socket too, for which the code sets no handlers but `onopen`.
use collaborative_ide.Client.{ReadyState, connecting, ready, closing, closed, is_ready}
use collaborative_ide.Prelude.{
  ℕ, zero, suc, Option, none, some, refl, List, [], ◌∷◌, ◌++◌, ◌≡◌, length, get_elem?, ◌>>=◌, All,
  ap, ◌≢◌, if◌then◌else◌, Bool, false, true, arith, ◌∙◌,
}

-- A socket, and whether a run of the effect made it, and not a redirect.
pub record Made : Type 0 where
  pub state : ReadyState
  pub by_effect : Bool

-- The sockets in the order in which they were made, and `wsRef.current`.
pub record Sockets : Type 0 where
  pub made : List Made
  pub ws_ref : Option ℕ

abbrev change : ℕ → (ReadyState → ReadyState) → List Made → List Made
change i f [] = []
change zero f (s ∷ ss) = record s { state = f s.state } ∷ ss
change (suc i) f (s ∷ ss) = s ∷ change i f ss

abbrev at : ℕ → (ReadyState → ReadyState) → Sockets → Sockets
at i f w = record w { made = change i f w.made }

abbrev opens : ReadyState → ReadyState
opens connecting = ready
opens s = s

abbrev closes : ReadyState → ReadyState
closes closed = closed
closes _ = closing

abbrev ends : ReadyState → ReadyState
ends s = closed

pub data Event : Type 0 where
  -- a run of the effect, and the clean-up of the run that made a socket
  effect_run : Event
  cleaned_up : ℕ → Event
  -- the socket is open, and it is closed
  opened : ℕ → Event
  ended : ℕ → Event
  -- a frame that redirects to the leader, at a socket that the effect made
  redirected : ℕ → Event

-- `new WebSocket`, to which `wsRef` is set.
unfoldable pub open_socket : Bool → Sockets → Sockets
open_socket by_effect w = record {
  made = w.made ++ record { state = connecting; by_effect = by_effect } ∷ [];
  ws_ref = some (length w.made);
}

-- `ws.close()` of the clean-up; `wsRef` stays.
unfoldable pub clean_up : ℕ → Sockets → Sockets
clean_up i w = at i closes w

-- `onclose` resets `wsRef`, whichever socket that is about; the socket of a redirect has none.
unfoldable pub end_socket : ℕ → Sockets → Sockets
end_socket i w = elim (get_elem? w.made i) [
  | none ↦ w
  | some s ↦ record (at i ends w) { ws_ref = if s.by_effect then none else w.ws_ref }
]

-- The frame of a redirect: a socket to the leader, and the end of the socket that had the frame.
unfoldable pub redirect : ℕ → Sockets → Sockets
unfolding open_socket
redirect i w = at i closes (open_socket false w)

unfoldable pub step : Sockets → Event → Sockets
unfolding open_socket clean_up end_socket redirect
step w effect_run = open_socket true w
step w (cleaned_up i) = clean_up i w
step w (opened i) = at i opens w
step w (ended i) = end_socket i w
step w (redirected i) = redirect i w

unfoldable pub run : Sockets → List Event → Sockets
unfolding step
run w [] = w
run w (e ∷ es) = run (step w e) es

-- The socket that `send` hands a frame to.
unfoldable pub sends_to : Sockets → Option ℕ
sends_to w = do i ← w.ws_ref; s ← get_elem? w.made i; (if is_ready s.state then some i else none)

-- No further run of the effect, and no redirect.
abbrev pub IsNoRun : Event → Type 0
IsNoRun effect_run = ⊥
IsNoRun (redirected _) = ⊥
IsNoRun _ = Unit

ref-end_socket : (i : ℕ) (w : Sockets) → w.ws_ref ≡ none → (end_socket i w).ws_ref ≡ none
unfolding end_socket
ref-end_socket i w e = ground (arith)

no_ref :
    (w : Sockets) (es : List Event) → w.ws_ref ≡ none → All IsNoRun es → (run w es).ws_ref ≡ none
unfolding run step clean_up
no_ref w [] e t = e
no_ref w (effect_run ∷ es) e (t, ts) = absurd t
no_ref w (redirected i ∷ es) e (t, ts) = absurd t
no_ref w (cleaned_up i ∷ es) e (t, ts) = no_ref (clean_up i w) es e ts
no_ref w (opened i ∷ es) e (t, ts) = no_ref (at i opens w) es e ts
no_ref w (ended i ∷ es) e (t, ts) = no_ref (end_socket i w) es (ref-end_socket i w e) ts

get_elem?-change :
    (i j : ℕ) (f : ReadyState → ReadyState) (ss : List Made)
    → j ≢ i
    → get_elem? (change i f ss) j ≡ get_elem? ss j
get_elem?-change i j f [] n = refl
get_elem?-change zero zero f (s ∷ ss) n = absurd (n refl)
get_elem?-change zero (suc j) f (s ∷ ss) n = refl
get_elem?-change (suc i) zero f (s ∷ ss) n = refl
get_elem?-change (suc i) (suc j) f (s ∷ ss) n = get_elem?-change i j f ss (λ e. n (ap suc e))

end_socket_as :
    (w : Sockets) (i : ℕ) (s : Made)
    → get_elem? w.made i ≡ some s
    → s.by_effect ≡ true
    → end_socket i w ≡ record (at i ends w) { ws_ref = none }
unfolding end_socket
end_socket_as w i s e b = rw (end_socket, e, b) refl

-- Once any socket that the effect made has closed, be it that of an earlier run, `send` hands
-- nothing to any socket until the effect runs again or a redirect comes, whether the latest socket
-- is open or not; the close leaves the state of every other socket as it is.
pub end_socket_lem :
    (w : Sockets) (i : ℕ) (s : Made) (es : List Event)
    → get_elem? w.made i ≡ some s
    → s.by_effect ≡ true
    → All IsNoRun es
    → (sends_to (run w (ended i ∷ es)) ≡ none)
      × ((j : ℕ) → j ≢ i → get_elem? (step w (ended i)).made j ≡ get_elem? w.made j)
unfolding run step sends_to
end_socket_lem w i s es e b t =
    let same = end_socket_as w i s e b in
    (
      ap
          (λ o. o >>= λ k. get_elem? (run (end_socket i w) es).made k >>= λ s'.
            if is_ready s'.state then some k else none)
          (no_ref (end_socket i w) es (ap (λ w'. w'.ws_ref) same) t),
      λ j n. ap (λ w'. get_elem? w'.made j) same ∙ get_elem?-change i j ends w.made n,
    )
