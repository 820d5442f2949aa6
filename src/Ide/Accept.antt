-- ===== src/Ide/Accept.antt =====
-- What accepting a proposal does to the document, the list of proposals and the other clients.
use collaborative_ide.PositionUtils.Roundtrip.{resolve_range-le}
use collaborative_ide.PositionUtils.{Range, Proposal, positions, is_stale, resolve_range}
use collaborative_ide.Prelude.{
  ◌≡◌, ◌≢◌, refl, true, false, some, List, [], ◌∷◌, arith, max, String, Text, All, Bool, ◌≤◌,
  eq_iff, length, take, ◌++◌, drop, Bool-cases, ltb, inl, inr, ltb→lt, ◌+◌, ◌-◌, length-append,
  length-take, take-take_append, ◌∙◌, drop-take_append,
}
use collaborative_ide.Platform.{Platform, Documented, Op, AllFit, apply_ops}
use collaborative_ide.Client.{
  Client, send, local_transact, on_update, set_doc, drop_proposal, Frame, ws_send,
}
use collaborative_ide.Ide.{
  handle_accept_proposal, range_ops, finish_accept, accept_at, handle_reject_proposal,
}

module _ (p : Platform) where
  transact_cases {ℓ} :
      (P : Client p → Type ℓ) (ops : List Op) (c : Client p)
      → P (on_update p (set_doc p (p.transact ops c.doc).doc c))
      → P (record c { doc = (p.transact ops c.doc).doc })
      → P (local_transact p ops c).0
  unfolding local_transact
  transact_cases P ops c h k = elim (Bool-cases (p.transact ops c.doc).fired) [
    | inl e ↦ rw e h
    | inr e ↦ rw e k
  ]

  doc-send : (f : Frame) (c : Client p) → (send p f c).doc ≡ c.doc
  unfolding send
  doc-send f c = ground arith

  doc-on_update : (c : Client p) → (on_update p c).doc ≡ c.doc
  unfolding on_update ws_send
  doc-on_update c = ground arith

  pub doc-local_transact :
      (ops : List Op) (c : Client p) → (local_transact p ops c).0.doc ≡ (p.transact ops c.doc).doc
  unfolding set_doc
  doc-local_transact ops c =
      transact_cases (λ c'. c'.doc ≡ (p.transact ops c.doc).doc) ops c (doc-on_update _) refl

  drop_proposal-ne : (id : String) (qs : List Proposal) → All (λ q. q.id ≢ id) (drop_proposal id qs)
  unfolding drop_proposal
  drop_proposal-ne id [] = tt
  drop_proposal-ne id (q ∷ qs) = ground (arith, eq_iff q.id id, drop_proposal-ne id qs)

  doc-finish_accept : (q : Proposal) (r : Client p × Bool) → (finish_accept p q r).doc ≡ r.0.doc
  unfolding finish_accept
  doc-finish_accept q (c, true) = refl
  doc-finish_accept q (c, false) = ground arith

  proposals-finish_accept :
      (q : Proposal) (r : Client p × Bool)
      → r.1 ≡ false
      → All (λ s. s.id ≢ q.id) (finish_accept p q r).proposals
  unfolding finish_accept
  proposals-finish_accept q (c, true) e = cc
  proposals-finish_accept q (c, false) e = drop_proposal-ne q.id _

  -- The edit of a range in the text.
  range_ops-fit :
      (r : Range) (s t : Text)
      → r.start ≤ length t
      → r.stop ≤ length t
      → AllFit (range_ops r s) t
        × (apply_ops (range_ops r s) t ≡ take r.start t ++ (s ++ drop (max r.start r.stop) t))
  unfolding range_ops
  range_ops-fit r s t h k = elim (Bool-cases (ltb r.start r.stop)) [
    | inl e ↦
        let lt = ltb→lt r.start r.stop e in
        let sum : r.start + (r.stop - r.start) ≡ r.stop = omega arith in
        let top : max r.start r.stop ≡ r.stop = omega arith in
        rw (e, sum, top)
          (
            (
              omega arith,
              (
                omega (
                  arith,
                  length-append {0} (take r.start t) (drop r.stop t),
                  length-take {0} r.start t,
                ),
                tt,
              ),
            ),
            rw (
              take-take_append r.start t (drop r.stop t) h,
              drop-take_append r.start t (drop r.stop t) h,
            ),
          )
    | inr e ↦ let top : max r.start r.stop ≡ r.start = ground arith in rw (e, top) ((h, tt), refl)
  ]

module _ (p : Platform) where
  -- A stale proposal is discarded: the document stays, the proposal leaves the list, and accepting
  -- is the same as rejecting.
  pub accept-stale :
      (q : Proposal) (c : Client p) (a b : Text)
      → positions q ≡ some (a, b)
      → is_stale p q c.doc ≡ true
      → (handle_accept_proposal p q c ≡ handle_reject_proposal p q.id c)
        × ((handle_accept_proposal p q c).doc ≡ c.doc)
        × All (λ s. s.id ≢ q.id) (handle_accept_proposal p q c).proposals
  unfolding handle_accept_proposal accept_at
  accept-stale q c a b set stale =
      rw (handle_accept_proposal, set, stale) (refl, doc-send p _ c, drop_proposal-ne p q.id _)

module _ (p : Platform) (docs : Documented p) where
  -- An accepted proposal whose range is there and holds the recorded text replaces exactly that
  -- range in the document, and is on the list no more. (An end before the start is read as an
  -- empty range at the start.)
  pub accept_replaces :
      (q : Proposal) (c : Client p) (a b : Text) (r : Range)
      → positions q ≡ some (a, b)
      → is_stale p q c.doc ≡ false
      → resolve_range p c.doc a b ≡ some r
      → (p.text (handle_accept_proposal p q c).doc
          ≡ take r.start (p.text c.doc)
            ++ (q.replacement ++ drop (max r.start r.stop) (p.text c.doc)))
        × All (λ s. s.id ≢ q.id) (handle_accept_proposal p q c).proposals
  unfolding handle_accept_proposal accept_at
  accept_replaces q c a b r set fresh found =
      let (h, k) = resolve_range-le p docs c.doc a b r found in
      let (fits, result) = range_ops-fit p r q.replacement (p.text c.doc) h k in
      let (done, edited) = docs.transact_fits (range_ops r q.replacement) c.doc fits in
      let t = local_transact p (range_ops r q.replacement) c in
      rw (handle_accept_proposal, set, fresh, found)
        (
          rw (doc-finish_accept p q t, doc-local_transact p _ c) (edited ∙ result),
          proposals-finish_accept p q t done,
        )
