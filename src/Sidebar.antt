-- ===== src/Sidebar.antt =====
-- components/Sidebar.jsx: the colour of an avatar, and the dialog that submits a proposal.
pub mod Submit
pub mod Avatar
pub mod View
use collaborative_ide.Prelude.{
  ℕ, ◌+◌, ◌*◌, ◌%◌, ◌^◌, Bool, true, false, Option, none, some, List, [], ◌∷◌, String, Text, slice,
  text_eq, get_elem?, if◌then◌else◌,
}
use collaborative_ide.Platform.{Platform}
use collaborative_ide.PositionUtils.{Proposal, encode_range}
use collaborative_ide.Client.{Client, json, proposal_add, send}

-- AVATAR_COLORS
abbrev pub avatar_colors : List String
avatar_colors = "#00adb5" ∷ "#7c5cfc" ∷ "#f0a500" ∷ "#4ec97e" ∷ "#f47c7c" ∷ "#00d4aa" ∷ []

-- `(h * 31 + id.charCodeAt(i)) >>> 0`
unfoldable pub hash_step : ℕ → ℕ → ℕ
hash_step h unit = (h * 31 + unit) % 2 ^ 32

unfoldable pub hash_from : ℕ → Text → ℕ
hash_from h [] = h
hash_from h (unit ∷ id) = hash_from (hash_step h unit) id

-- An element out of bounds would be `undefined`.
unfoldable pub avatar_color : Text → Option String
avatar_color id = get_elem? avatar_colors (hash_from 0 id % 6)

-- What the dialog reads of the editor: the main selection, the document, and `lineAt(_).number`.
pub record EditorView : Type 0 where
  pub from : ℕ
  pub to : ℕ
  pub doc : Text
  pub line_at : ℕ → ℕ

pub record Selection : Type 0 where
  pub from : ℕ
  pub to : ℕ
  pub text : Text
  pub start_line : ℕ
  pub end_line : ℕ

pub record Dialog : Type 0 where
  pub show_propose_modal : Bool
  pub selection : Option Selection

unfoldable pub open_propose_modal : Option EditorView → Dialog → Dialog
open_propose_modal none m = record { show_propose_modal = true; selection = none }
open_propose_modal (some v) m = record {
  show_propose_modal = true;
  selection = some (record {
    from = v.from;
    to = v.to;
    text = slice v.doc v.from v.to;
    start_line = v.line_at v.from;
    end_line = v.line_at v.to;
  });
}

-- The proposal that goes to the server; the server adds the author.
unfoldable pub new_proposal : String → Selection → Text → Text × Text → Proposal
new_proposal id s replacement (rel_start, rel_end) = record {
  id = id;
  author = none;
  replacement = replacement;
  original_text = some s.text;
  rel_start = some rel_start;
  rel_end = some rel_end;
  start_line = some s.start_line;
  end_line = some s.end_line;
  start_index = none;
  end_index = none;
}

module _ (p : Platform) where
  -- `submitProposal`: the text of the small editor, if that is there, and the random identifier.
  unfoldable pub submit_proposal : Option Text → String → Dialog × Client p → Dialog × Client p
  unfolding encode_range new_proposal send
  submit_proposal none id (m, c) = (m, c)
  submit_proposal (some replacement) id (m, c) = elim m.selection [
    | none ↦ (m, c)
    | some s ↦
        if text_eq replacement s.text then (m, c) else (elim (encode_range p c.doc s.from s.to) [
          | none ↦ (m, c)
          | some range ↦ (
            record m { show_propose_modal = false },
            send p (json (proposal_add (new_proposal id s replacement range))) c,
          )
        ])
  ]
