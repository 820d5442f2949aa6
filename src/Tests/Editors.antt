-- ===== src/Tests/Editors.antt =====
-- Examples on the editor of a page, and on its sockets.
use collaborative_ide.Client.{ReadyState, connecting, ready, closing, closed}
use collaborative_ide.CollabWs.Sockets.{
  Sockets, Made, redirected, effect_run, cleaned_up, opened, ended, step, run, sends_to,
  end_socket_lem,
}
use collaborative_ide.Editor.{PaneInputs, all_given, pane_config, pane_extensions}
use collaborative_ide.Prelude.{true, none, some, [], ◌∷◌, ◌≡◌, ◌≢◌, ℕ, refl, get_elem?}

-- The editor of a viewer.
abbrev viewing : PaneInputs
viewing = record {
  ydoc = some 1;
  awareness = some 2;
  undo_manager = some 3;
  role = "viewer";
  content = λ d. d ∷ [];
}

viewing_config :
    pane_config viewing
    ≡ some (record { doc = 1 ∷ []; extensions = pane_extensions 1 2 3 "viewer" })
unfolding pane_config all_given
viewing_config = refl

abbrev by_run : ReadyState → Made
by_run state = record { state = state; by_effect = true }

-- StrictMode: the effect, its clean-up and the effect again; then the first socket ends and the
-- second opens.
abbrev twice : Sockets
twice = record { made = by_run closing ∷ by_run connecting ∷ []; ws_ref = some 1 }

twice-run :
    run (record { made = []; ws_ref = none }) (effect_run ∷ cleaned_up 0 ∷ effect_run ∷ []) ≡ twice
unfolding run
twice-run = refl

end_socket_lem_example :
    (sends_to (run twice (ended 0 ∷ opened 1 ∷ [])) ≡ none)
    × ((j : ℕ) → j ≢ 0 → get_elem? (step twice (ended 0)).made j ≡ get_elem? twice.made j)
end_socket_lem_example = end_socket_lem twice 0 (by_run closing) (opened 1 ∷ []) refl refl (tt, tt)

twice_open : (run twice (ended 0 ∷ opened 1 ∷ [])).made ≡ by_run closed ∷ by_run ready ∷ []
unfolding run
twice_open = refl

-- After a redirect, the close of the first socket resets the ref to the leader's socket, and the
-- close of the leader's socket does not.
redirected_ends :
    ((run twice (opened 1 ∷ redirected 1 ∷ ended 1 ∷ [])).ws_ref ≡ none)
    × ((run twice (opened 1 ∷ redirected 1 ∷ ended 2 ∷ [])).ws_ref ≡ some 2)
unfolding run
redirected_ends = (refl, refl)
