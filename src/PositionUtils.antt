-- ===== src/PositionUtils.antt =====
-- positionUtils.js: base64 of bytes, ranges as relative positions, and the staleness of a
-- proposal. An exception is `none`.
pub mod Roundtrip
pub mod Stale
use collaborative_ide.Prelude.{
  ℕ, ◌%◌, ◌^◌, Bool, true, false, not, Option, none, some, ◌>>=◌, List, [], ◌∷◌, ◌++◌, map, Text,
  truthy, slice, text_eq, String,
}
use collaborative_ide.Platform.{Platform}

-- A proposal as the frontend holds it. A field that may be missing is an `Option`.
pub record Proposal : Type 0 where
  pub id : String
  pub author : Option String
  pub replacement : Text
  pub original_text : Option Text
  pub rel_start : Option Text
  pub rel_end : Option Text
  pub start_line : Option ℕ
  pub end_line : Option ℕ
  pub start_index : Option ℕ
  pub end_index : Option ℕ

-- { start, end }
pub record Range : Type 0 where
  pub start : ℕ
  pub stop : ℕ

-- `s += String.fromCharCode(bytes[i])`; a code unit has 16 bits.
unfoldable pub from_char_codes : Text → List ℕ → Text
from_char_codes s [] = s
from_char_codes s (b ∷ bytes) = from_char_codes (s ++ (b % 2 ^ 16) ∷ []) bytes

-- Both fields set: `proposal.relStart && proposal.relEnd`.
unfoldable pub positions : Proposal → Option (Text × Text)
positions q = do
  rel_start ← truthy q.rel_start
  rel_end ← truthy q.rel_end
  some (rel_start, rel_end)

module _ (p : Platform) where
  open p use {Doc}

  unfoldable pub to_base64 : List ℕ → Option Text
  to_base64 bytes = p.btoa (from_char_codes [] bytes)

  -- An element of a Uint8Array has 8 bits.
  unfoldable pub from_base64 : Text → Option (List ℕ)
  from_base64 b64 = do s ← p.atob b64; some (map (λ c. c % 2 ^ 8) s)

  unfoldable pub encode_range : Doc → ℕ → ℕ → Option (Text × Text)
  encode_range d from to = do
    rel_start ← to_base64 (p.encode (p.relative d from))
    rel_end ← to_base64 (p.encode (p.relative d to))
    some (rel_start, rel_end)

  unfoldable pub resolve_range : Doc → Text → Text → Option Range
  resolve_range d rel_start_b64 rel_end_b64 = do
    start_bytes ← from_base64 rel_start_b64
    rel_start ← p.decode start_bytes
    end_bytes ← from_base64 rel_end_b64
    rel_end ← p.decode end_bytes
    abs_start ← p.absolute rel_start d
    abs_end ← p.absolute rel_end d
    some (record { start = abs_start; stop = abs_end })

  -- The tests on a range that is still there.
  unfoldable pub is_modified : Doc → Option Text → Range → Bool
  is_modified d original r = elim (truthy original) [
    | none ↦ false
    | some text ↦ not (text_eq (slice (p.text d) r.start r.stop) text)
  ]

  unfoldable pub is_stale : Proposal → Doc → Bool
  unfolding is_modified
  is_stale q d = elim (positions q) [
    | none ↦ false
    | some (rel_start, rel_end) ↦ elim (resolve_range d rel_start rel_end) [
      | none ↦ true
      | some r ↦ is_modified d q.original_text r
    ]
  ]
