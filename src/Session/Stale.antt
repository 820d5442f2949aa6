-- ===== src/Session/Stale.antt =====
-- components/Sidebar.jsx: the set of stale proposals over the events of a session.
use collaborative_ide.PositionUtils.{is_stale}
use collaborative_ide.PositionUtils.Stale.{IsOutdated, is_stale_iff}
use collaborative_ide.Prelude.{
  ◌≡◌, refl, List, [], ◌∷◌, arith, String, true, false, inl, inr, IsIn, Bool-cases, sym, ◌↔◌, ap,
  map, ◌∙◌, if_of_true, if_of_false,
}
use collaborative_ide.Platform.{Platform, Documented}
use collaborative_ide.PositionUtils.{Proposal, is_stale}
use mathlib.Core.Path.{subst}
use collaborative_ide.CollabWs.{Incoming}
use collaborative_ide.Client.{
  Client, stale_now, send, ws_send, set_doc, set_proposals, on_update, open_session, on_some,
}
use collaborative_ide.Session.{opened, text_frame, Event, step, run, text_frame}
use collaborative_ide.Session.Induction.{Closed, step-closed, IsSpecial, open-closed}

module _ (p : Platform) where
  -- What is marked is what a fresh check would mark.
  abbrev pub IsFresh : Client p → Type 0
  IsFresh c = c.stale_ids ≡ stale_now p c.doc c.proposals

  -- There is a proposal of that identifier in the list that is outdated in the document.
  abbrev pub IsMarked : List Proposal → p.Doc → String → Type 0
  IsMarked qs d id = (q : Proposal) × IsIn q qs × (id ≡ q.id) × IsOutdated p q d

  stale_now_stale :
      (d : p.Doc) (q : Proposal) (qs : List Proposal)
      → is_stale p q d ≡ true
      → stale_now p d (q ∷ qs) ≡ q.id ∷ stale_now p d qs
  unfolding stale_now
  stale_now_stale d q qs e = ap (map (λ q'. q'.id)) (if_of_true (is_stale p q d) _ _ e)

  stale_now_current :
      (d : p.Doc) (q : Proposal) (qs : List Proposal)
      → is_stale p q d ≡ false
      → stale_now p d (q ∷ qs) ≡ stale_now p d qs
  unfolding stale_now
  stale_now_current d q qs e = ap (map (λ q'. q'.id)) (if_of_false (is_stale p q d) _ _ e)

  still-IsMarked :
      (d : p.Doc) (id : String) (q : Proposal) (qs : List Proposal)
      → IsMarked qs d id
      → IsMarked (q ∷ qs) d id
  still-IsMarked d id q qs (q', i, e, k) = (q', inr i, e, k)

  IsMarked-stale_now :
      (d : p.Doc) (id : String) (qs : List Proposal) → IsIn id (stale_now p d qs) → IsMarked qs d id
  unfolding stale_now
  IsMarked-stale_now d id [] h = absurd h
  IsMarked-stale_now d id (q ∷ qs) h = elim (Bool-cases (is_stale p q d)) [
    | inl e ↦ elim (subst (IsIn id) (stale_now_stale d q qs e) h) [
      | inl same ↦ (q, inl refl, same, (is_stale_iff p q d).0 e)
      | inr i ↦ still-IsMarked d id q qs (IsMarked-stale_now d id qs i)
    ]
    | inr e ↦
        still-IsMarked d id q qs
          (IsMarked-stale_now d id qs (subst (IsIn id) (stale_now_current d q qs e) h))
  ]

  stale_now-IsMarked :
      (d : p.Doc) (id : String) (qs : List Proposal) → IsMarked qs d id → IsIn id (stale_now p d qs)
  stale_now-IsMarked d id [] (q, i, e, k) = absurd i
  stale_now-IsMarked d id (q ∷ qs) (q', inl here, e, k) =
      subst (IsIn id)
        (sym (
          stale_now_stale d q qs
            (subst (λ x. is_stale p x d ≡ true) here ((is_stale_iff p q' d).1 k))))
        (inl (e ∙ ap (λ x. x.id) here))
  stale_now-IsMarked d id (q ∷ qs) (q', inr i, e, k) =
      let later = stale_now-IsMarked d id qs (q', i, e, k) in
      elim (Bool-cases (is_stale p q d)) [
        | inl h ↦ subst (IsIn id) (sym (stale_now_stale d q qs h)) (inr later)
        | inr h ↦ subst (IsIn id) (sym (stale_now_current d q qs h)) later
      ]

  module _ (doc : Documented p) where
    IsFresh-closed : Closed p IsFresh
    unfolding send ws_send on_update set_doc set_proposals
    IsFresh-closed = record {
      sends = λ m n c h. ground arith;
      ws_sends = λ m n c h. ground arith;
      updates = λ c h. ground arith;
      documents = λ d c h. refl;
      idles = λ ops c e h. rw (doc.unfired ops c.doc e) h;
      proposes = λ qs c h. refl;
      shows = λ people lines status busy a c h. h;
      receives = λ c h. h;
      begins = λ c h. h;
      connects = λ c h. h;
      closes = λ c h. h;
    }

    special-IsFresh : (c : Client p) (e : Event p) → IsFresh c → IsSpecial e → IsFresh (step p c e)
    unfolding step
    special-IsFresh c opened h _ = open-closed p IsFresh-closed c h
    special-IsFresh c (text_frame (Incoming.redirect port)) h _ = ground arith
    special-IsFresh c (text_frame (Incoming.role_change user role)) h _ = h
    special-IsFresh c (text_frame (Incoming.sync_sv b64 from)) h _ =
        unfold ws_send on_some in ground arith
    special-IsFresh c _ h i = elim i [ ]

    run-IsFresh_from : (c : Client p) (es : List (Event p)) → IsFresh c → IsFresh (run p c es)
    unfolding run
    run-IsFresh_from c [] h = h
    run-IsFresh_from c (e ∷ es) h =
        run-IsFresh_from (step p c e) es
          (step-closed p IsFresh-closed c e (special-IsFresh c e h) h)

    -- After any events since the page was opened, the marked proposals are exactly those of the list
    -- that are outdated in the document as it is now.
    pub run-IsMarked :
        (code user role color port : String) (d : p.Doc) (a : p.Awareness) (es : List (Event p))
        (id : String)
        → let c = run p (open_session p code user role color port d a) es in
          IsIn id c.stale_ids ↔ IsMarked c.proposals c.doc id
    unfolding open_session stale_now
    run-IsMarked code user role color port d a es id =
        let c = run p (open_session p code user role color port d a) es in
        let fresh = run-IsFresh_from (open_session p code user role color port d a) es refl in
        subst (λ ids. IsIn id ids ↔ IsMarked c.proposals c.doc id) (sym fresh)
          (IsMarked-stale_now c.doc id c.proposals, stale_now-IsMarked c.doc id c.proposals)
