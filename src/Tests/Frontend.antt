-- ===== src/Tests/Frontend.antt =====
-- Examples for ide/frontend/src.
use collaborative_ide.Sidebar.Avatar.{avatar_color_lem, weight}
use collaborative_ide.Session.Redirect.{redirect_silences}
use collaborative_ide.Sidebar.Submit.{accept-submit_proposal}
use collaborative_ide.Ide.Accept.{accept-stale, accept_replaces}
use collaborative_ide.PositionUtils.Stale.{IsOutdated, is_stale_iff}
use collaborative_ide.PositionUtils.Roundtrip.{from_base64-to_base64}
use collaborative_ide.Platform.{ins, at}
use collaborative_ide.Sample.{sample, sample-Documented}
use collaborative_ide.Sidebar.{
  submit_proposal, open_propose_modal, hash_from, avatar_color, avatar_colors,
}
use collaborative_ide.Ide.{handle_accept_proposal, handle_reject_proposal}
use collaborative_ide.CollabWs.{leads_elsewhere, number, redirect, Incoming}
use collaborative_ide.Session.Stale.{IsMarked, run-IsMarked}
use collaborative_ide.Client.{connecting, own, json, proposal_add, open_session}
use collaborative_ide.Session.{
  step, edited, accept_clicked, run, text_frame, opened, disconnected, leader_connected,
  run_clicked,
}
use collaborative_ide.Session.Roles.{snapshots, Adds, doc-step, snapshots-step}
use collaborative_ide.PositionUtils.{
  positions, is_stale, resolve_range, to_base64, is_modified, from_base64, Proposal,
}
use collaborative_ide.Landing.{Landing}
use collaborative_ide.Prelude.{
  ◌≢◌, Text, slice, arith, some, ◌≡◌, ◌∷◌, true, [], false, none, ◌++◌, ◌↔◌, ◌<◌, take, ◌^◌, drop,
  All, ◌*◌, max, ◌+◌, text_eq, refl, get_elem?, ◌%◌, IsIn,
}
use collaborative_ide.Tests.{hel, letter_x, alice, bob, replace_e, replace_a, view, dialog}

changed : letter_x ≢ slice hel 1 2
changed e = grind arith

accept-submit_proposal_example :
    (q : Proposal) × ((submit_proposal sample
        (some letter_x)
        "p1"
        (open_propose_modal (some view) dialog, bob)).1.sent
      ≡ bob.sent ++ (own, json (proposal_add q)) ∷ [])
    × (is_stale sample q bob.doc ≡ false)
    × (sample.text (handle_accept_proposal sample (record q { author = some "bob" }) alice).doc
        ≡ take 1 hel ++ (letter_x ++ drop 2 hel))
accept-submit_proposal_example =
    accept-submit_proposal sample sample-Documented view dialog bob alice letter_x "p1" "bob" refl
      (omega arith) (omega arith) changed refl refl refl

accept_replaces_example :
    (sample.text (handle_accept_proposal sample replace_e alice).doc
      ≡ take 1 hel ++ (letter_x ++ drop (max 1 2) hel))
    × All (λ s. s.id ≢ "p1") (handle_accept_proposal sample replace_e alice).proposals
unfolding positions is_stale resolve_range is_modified from_base64 text_eq
accept_replaces_example =
    accept_replaces sample sample-Documented replace_e alice (1 ∷ 1 ∷ []) (1 ∷ 1 ∷ 1 ∷ [])
      (record { start = 1; stop = 2 }) refl refl refl

accept-stale_example :
    (handle_accept_proposal sample replace_a alice ≡ handle_reject_proposal sample "p1" alice)
    × ((handle_accept_proposal sample replace_a alice).doc ≡ hel)
    × All (λ s. s.id ≢ "p1") (handle_accept_proposal sample replace_a alice).proposals
unfolding positions is_stale resolve_range is_modified from_base64 text_eq
accept-stale_example = accept-stale sample replace_a alice (1 ∷ 1 ∷ []) (1 ∷ 1 ∷ 1 ∷ []) refl refl

is_stale_iff_example : (is_stale sample replace_a hel ≡ true) ↔ IsOutdated sample replace_a hel
is_stale_iff_example = is_stale_iff sample replace_a hel

from_base64-to_base64_example :
    (b : Text) × (to_base64 sample (7 ∷ 255 ∷ []) ≡ some b)
    × (from_base64 sample b ≡ some (7 ∷ 255 ∷ []))
from_base64-to_base64_example =
    from_base64-to_base64 sample sample-Documented (7 ∷ 255 ∷ []) (omega arith, (omega arith, tt))

-- Alice asks what Bob, a viewer, has.
snapshots-step_example :
    Adds {p = sample}
      (text_frame (Incoming.sync_sv (1 ∷ 1 ∷ []) "alice"))
      (snapshots bob.sent)
      (snapshots (step sample bob (text_frame (Incoming.sync_sv (1 ∷ 1 ∷ []) "alice"))).sent)
snapshots-step_example =
    snapshots-step sample bob (text_frame (Incoming.sync_sv (1 ∷ 1 ∷ []) "alice")) refl

doc-step_example : (step sample bob (accept_clicked replace_e)).doc ≡ bob.doc
doc-step_example = doc-step sample bob (accept_clicked replace_e) refl tt

-- A proposal arrives, and the text that it is about changes.
run-IsMarked_example :
    let c = run sample (open_session sample "KLM" "alice" "editor" "#00adb5" "8081" hel []) (
      opened
      ∷ text_frame (Incoming.proposal "add" replace_e)
      ∷ edited (ins (at 0) letter_x ∷ [])
      ∷ []) in
    IsIn "p1" c.stale_ids ↔ IsMarked sample c.proposals c.doc "p1"
run-IsMarked_example =
    run-IsMarked sample sample-Documented "KLM" "alice" "editor" "#00adb5" "8081" hel []
      (opened
        ∷ text_frame (Incoming.proposal "add" replace_e)
        ∷ edited (ins (at 0) letter_x ∷ [])
        ∷ [])
      "p1"

elsewhere : leads_elsewhere (number 8080) "8081" ≡ true
unfolding leads_elsewhere
elsewhere = refl

redirect_silences_example :
    ((step sample alice (text_frame (redirect (number 8080)))).leader_ws ≡ some connecting)
    × ((run sample alice (
          text_frame (redirect (number 8080))
          ∷ disconnected
          ∷ leader_connected
          ∷ edited (ins (at 0) letter_x ∷ [])
          ∷ run_clicked
          ∷ [])).sent
        ≡ alice.sent)
redirect_silences_example =
    redirect_silences sample alice (number 8080)
      (leader_connected ∷ edited (ins (at 0) letter_x ∷ []) ∷ run_clicked ∷ []) elsewhere
      (tt, (tt, (tt, tt)))

avatar_color_lem_example :
    (avatar_color letter_x ≡ get_elem? avatar_colors (weight letter_x % 2 ^ 32 % 6))
    × (hash_from 0 letter_x ≡ weight letter_x % 2 ^ 32)
    × (hash_from 0 letter_x * 31 + 121 < 2 ^ 53)
avatar_color_lem_example = avatar_color_lem letter_x 121 (omega arith)

-- The name " x" and the code "x ".
abbrev entered : Landing
entered = record {
  user_id = 32 ∷ letter_x;
  join_code = 120 ∷ 32 ∷ [];
  error = [];
  loading = false;
  session = none;
}
