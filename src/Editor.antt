-- ===== src/Editor.antt =====
-- components/EditorPane.jsx and MiniEditor.jsx: what the code editors hand to EditorState.create.
use collaborative_ide.Prelude.{
  ℕ, Bool, Option, none, some, List, [], ◌∷◌, String, str_eq, Text, ◌>>=◌,
}

pub data Keys : Type 0 where
  close_brackets_keys undo_manager_keys default_keys indent_with_tab history_keys : Keys

-- A theme is a list of selectors with their properties.
pub data Extension : Type 0 where
  line_numbers highlight_active_line highlight_active_line_gutter highlight_selection_matches
        bracket_matching close_brackets indent_on_input one_dark go history :
      Extension
  keymap : List Keys → Extension
  -- the document, the awareness and the undo manager
  y_collab : ℕ → ℕ → ℕ → Extension
  editable : Bool → Extension
  theme : List (String × List (String × String)) → Extension

-- The document that an editor begins with, and its extensions.
pub record Config : Type 0 where
  pub doc : Text
  pub extensions : List Extension

-- The props, the objects by their identity. `content` is what `ydoc.getText('content')` reads.
pub record PaneInputs : Type 0 where
  pub ydoc : Option ℕ
  pub awareness : Option ℕ
  pub undo_manager : Option ℕ
  pub role : String
  pub content : ℕ → Text

unfoldable pub pane_extensions : ℕ → ℕ → ℕ → String → List Extension
pane_extensions d a u role =
    line_numbers
    ∷ highlight_active_line
    ∷ highlight_active_line_gutter
    ∷ highlight_selection_matches
    ∷ bracket_matching
    ∷ close_brackets
    ∷ indent_on_input
    ∷ keymap (close_brackets_keys ∷ undo_manager_keys ∷ default_keys ∷ indent_with_tab ∷ [])
    ∷ one_dark
    ∷ go
    ∷ y_collab d a u
    ∷ editable (str_eq role "editor")
    ∷ theme (
        ("&", ("height", "100%") ∷ ("background", "#0e0e10") ∷ [])
        ∷ (
          ".cm-scroller",
          ("fontFamily", "'JetBrains Mono', monospace")
              ∷ ("fontSize", "13px")
              ∷ ("lineHeight", "1.65")
              ∷ [],
        )
        ∷ (".cm-content", ("caretColor", "#00adb5") ∷ [])
        ∷ (".cm-cursor", ("borderLeftColor", "#00adb5") ∷ [])
        ∷ (
          ".cm-gutters",
          ("background", "#0e0e10")
              ∷ ("borderRight", "1px solid #2e2e38")
              ∷ ("color", "#4a4a5a")
              ∷ [],
        )
        ∷ (".cm-activeLineGutter", ("background", "#ffffff08") ∷ [])
        ∷ (".cm-activeLine", ("background", "#ffffff08") ∷ [])
        ∷ (".cm-selectionBackground", ("background", "#00adb530 !important") ∷ [])
        ∷ ("&.cm-focused .cm-selectionBackground", ("background", "#00adb540 !important") ∷ [])
        ∷ [])
    ∷ []

-- The three objects, if all are there.
unfoldable pub all_given : PaneInputs → Option (ℕ × ℕ × ℕ)
all_given p = do d ← p.ydoc; a ← p.awareness; u ← p.undo_manager; some (d, a, u)

-- What EditorPane asks for: nothing if one of the three is missing.
unfoldable pub pane_config : PaneInputs → Option Config
unfolding all_given pane_extensions
pane_config p = do
  (d, a, u) ← all_given p
  some (record { doc = p.content d; extensions = pane_extensions d a u p.role })

unfoldable pub mini_extensions : List Extension
mini_extensions =
    keymap (history_keys ∷ default_keys ∷ indent_with_tab ∷ [])
    ∷ history
    ∷ one_dark
    ∷ go
    ∷ theme (
        ("&", ("height", "100%") ∷ ("background", "#0e0e10") ∷ [])
        ∷ (
          ".cm-scroller",
          ("fontFamily", "'JetBrains Mono', monospace")
              ∷ ("fontSize", "12px")
              ∷ ("lineHeight", "1.6")
              ∷ ("minHeight", "120px")
              ∷ [],
        )
        ∷ (".cm-content", ("caretColor", "#00adb5") ∷ [])
        ∷ (".cm-cursor", ("borderLeftColor", "#00adb5") ∷ [])
        ∷ (
          ".cm-gutters",
          ("background", "#0e0e10")
              ∷ ("borderRight", "1px solid #2e2e38")
              ∷ ("color", "#4a4a5a")
              ∷ [],
        )
        ∷ (".cm-activeLine", ("background", "#ffffff08") ∷ [])
        ∷ (".cm-selectionBackground", ("background", "#00adb530 !important") ∷ [])
        ∷ [])
    ∷ []

-- `initialContent ?? ''`
abbrev pub initial_doc : Option Text → Text
initial_doc none = []
initial_doc (some t) = t

-- What MiniEditor asks for. The view then gets the focus, and the cursor at its end.
unfoldable pub mini_config : Option Text → Config
unfolding mini_extensions
mini_config content = record { doc = initial_doc content; extensions = mini_extensions }
