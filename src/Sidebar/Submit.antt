-- ===== src/Sidebar/Submit.antt =====
-- From the dialog of a proposer to the document of an editor.
use collaborative_ide.Ide.{handle_accept_proposal}
use collaborative_ide.PositionUtils.{Proposal, is_stale, positions, encode_range, Range}
use collaborative_ide.Prelude.{
  ◌≡◌, ◌≢◌, refl, false, none, some, [], ◌∷◌, arith, Text, truthy, text_eq, String, text_eq_iff,
  ◌≤◌, length, slice, ◌++◌, take, drop, Option, ap, max, ◌∙◌,
}
use collaborative_ide.Platform.{Platform, Documented}
use collaborative_ide.PositionUtils.Stale.{is_stale-unchanged}
use collaborative_ide.PositionUtils.Roundtrip.{resolve_range-encode_range}
use collaborative_ide.Ide.Accept.{accept_replaces}
use collaborative_ide.Client.{Client, send, own, ready, json, proposal_add}
use collaborative_ide.Sidebar.{
  EditorView, Dialog, open_propose_modal, new_proposal, submit_proposal,
}

truthy-some : (t : Text) → t ≢ [] → truthy (some t) ≡ some t
truthy-some [] h = absurd (h refl)
truthy-some (c ∷ t) h = refl

text_eq-ne : (s t : Text) → s ≢ t → text_eq s t ≡ false
text_eq-ne s t h = ground (arith, text_eq_iff s t)

abbrev proposed : EditorView → Text → String → Text × Text → Proposal
unfolding new_proposal
proposed v replacement id range =
    new_proposal id
      (record {
        from = v.from;
        to = v.to;
        text = slice v.doc v.from v.to;
        start_line = v.line_at v.from;
        end_line = v.line_at v.to;
      })
      replacement range

-- The author changes nothing in the positions.
positions-proposed :
    (v : EditorView) (replacement : Text) (id : String) (author : Option String) (a b : Text)
    → a ≢ []
    → b ≢ []
    → positions (record (proposed v replacement id (a, b)) { author = author }) ≡ some (a, b)
unfolding positions proposed
positions-proposed v replacement id author a b h k = rw (truthy-some a h, truthy-some b k)

sent-submit_proposal :
    {p : Platform} (v : EditorView) (m : Dialog) (c : Client p) (replacement : Text) (id : String)
    (range : Text × Text)
    → replacement ≢ slice v.doc v.from v.to
    → encode_range p c.doc v.from v.to ≡ some range
    → c.ws_ref ≡ some own
    → c.ws ≡ ready
    → (submit_proposal p (some replacement) id (open_propose_modal (some v) m, c)).1.sent
      ≡ c.sent ++ (own, json (proposal_add (proposed v replacement id range))) ∷ []
unfolding submit_proposal open_propose_modal
sent-submit_proposal v m c replacement id range changed encoded ref open_ws =
    rw (submit_proposal, text_eq-ne _ _ changed, encoded, ref, send, open_ws)

module _ (p : Platform) (docs : Documented p) where
  -- The dialog over a selection of the document sends one proposal, if its text was changed and
  -- the socket is open. The proposal is not stale in that document, and an editor whose document is the same replaces the
  -- selection, and nothing else, by accepting it, whatever author the server notes.
  pub accept-submit_proposal :
      (v : EditorView) (m : Dialog) (c e : Client p) (replacement : Text) (id author : String)
      → v.doc ≡ p.text c.doc
      → v.from ≤ v.to
      → v.to ≤ length (p.text c.doc)
      → replacement ≢ slice v.doc v.from v.to
      → c.ws_ref ≡ some own
      → c.ws ≡ ready
      → e.doc ≡ c.doc
      → (q : Proposal) × ((submit_proposal p
            (some replacement)
            id
            (open_propose_modal (some v) m, c)).1.sent
          ≡ c.sent ++ (own, json (proposal_add q)) ∷ [])
        × (is_stale p q c.doc ≡ false)
        × (p.text (handle_accept_proposal p (record q { author = some author }) e).doc
            ≡ take v.from (p.text c.doc) ++ (replacement ++ drop v.to (p.text c.doc)))
  unfolding proposed
  accept-submit_proposal v m c e replacement id author shown order bound changed ref open_ws same =
      let (a, b, encoded, found, ne_a, ne_b) =
        resolve_range-encode_range p docs c.doc v.from v.to (omega arith) bound in
      let set = positions-proposed v replacement id none a b ne_a ne_b in
      let set' = positions-proposed v replacement id (some author) a b ne_a ne_b in
      let recorded = ap (λ t. some (slice t v.from v.to)) shown in
      let q = proposed v replacement id (a, b) in
      let top : max v.from v.to ≡ v.to = omega arith in
      let accepted =
        accept_replaces p docs (record q { author = some author }) e a b range set'
          (rw same (is_stale-unchanged p _ c.doc a b range set' found recorded)) (rw same found) in
      (
        q,
        sent-submit_proposal v m c replacement id (a, b) changed encoded ref open_ws,
        is_stale-unchanged p q c.doc a b range set found recorded,
        accepted.0 ∙ (rw (same, top)),
      )
    where
      range : Range
      range = record { start = v.from; stop = v.to }
