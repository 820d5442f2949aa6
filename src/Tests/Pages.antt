-- ===== src/Tests/Pages.antt =====
-- Examples on the pages, and on the server together with a page.
use collaborative_ide.Hub.Invariant.{IsValid}
use collaborative_ide.Collab.Roles.{AllHaveRoles}
use collaborative_ide.Tests.{alice, server, replace_e, dialog}
use collaborative_ide.Sample.{sample}
use collaborative_ide.View.{Html, Offers, accept}
use collaborative_ide.Ide.View.{Overlays, page_view}
use collaborative_ide.Ide.View.Allowed.{IsAllowed}
use collaborative_ide.Ide.View.Offers.{page_of, page_view-IsAllowed}
use collaborative_ide.View.{nothing}
use collaborative_ide.Landing.{trim, Landing}
use collaborative_ide.Client.{Client}
use collaborative_ide.EndToEnd.{new_server, serve_all}
use collaborative_ide.EndToEnd.Refusals.{
  create_cmd, join_cmd, IsRefused, create_cmd, join_cmd, answered, refusals_lem,
}
use collaborative_ide.EndToEnd.Entry.{Admits, answers-Admit}
use collaborative_ide.EndToEnd.Pages.{serve_all_lem, told_page_view}
use collaborative_ide.Handlers
use collaborative_ide.Handlers.{cluster_lost, single}
use collaborative_ide.Hub.{session_participants}
use collaborative_ide.CollabWs.{on_text, participants}
use collaborative_ide.Prelude.{
  true, false, none, some, refl, inl, inr, [], ◌∷◌, Text, ℕ, arith, ◌≡◌, suc, eq_iff, Option,
}

-- The page of an editor with a proposal, before any output; the texts of numbers are unary.
abbrev with_proposal : Client sample
with_proposal = record alice { proposals = replace_e ∷ [] }

abbrev overlays : Overlays
overlays = record { dialog = dialog; show_share = false; copied = false; last_index = 0 }

abbrev upper : Text → Text
upper t = t

abbrev unary : ℕ → Text
unary Prim.Native.Nat.zero = []
unary (Prim.Native.Nat.suc n) = b'1' ∷ unary n

abbrev html_of : Option (Html × ℕ) → Html
html_of none = nothing
html_of (some (h, _)) = h

abbrev page : Html
page = html_of (page_view sample upper unary with_proposal overlays)

page_shown : page_view sample upper unary with_proposal overlays ≡ some (page, 0)
unfolding page_view
page_shown = refl

accept-Offers : Offers (accept replace_e) page
unfolding page_view
accept-Offers =
    inr (inl (inl (inr (inr (inl (inl (inl (inr (inr (inr (inl (inl (refl, refl)))))))))))))

page_view-IsAllowed_example : IsAllowed (page_of sample with_proposal overlays) (accept replace_e)
page_view-IsAllowed_example =
    page_view-IsAllowed sample upper unary with_proposal overlays page 0 (accept replace_e)
      page_shown accept-Offers

told_page_view_example :
    (h : Html) × (next : ℕ) × (page_view sample upper unary
        (on_text sample
          (participants (
            session_participants "KLM"
              (serve_all
                (Handlers.create single true (some "alice") "KLM" ∷ Handlers.ws "alice" "KLM" ∷ [])
                (new_server 8081)).hub))
          alice)
        overlays
      ≡ some (h, next))
told_page_view_example =
    told_page_view sample upper unary 8081
      (Handlers.create single true (some "alice") "KLM" ∷ Handlers.ws "alice" "KLM" ∷ []) "KLM"
      alice overlays (tt, (tt, tt))

refusals_lem_example :
    IsRefused
      (create_cmd "XYZ" (some "carol"))
      server
      (answered (Handlers.handle_create cluster_lost true (some "carol") "XYZ" server))
    × IsRefused
        (join_cmd (some ("XYZ", "carol")))
        server
        (answered (Handlers.handle_join single true (some ("XYZ", "carol")) server))
    × IsRefused none server (Handlers.handle_ws "carol" "XYZ" server)
refusals_lem_example =
    refusals_lem cluster_lost single true (some "carol") (some ("XYZ", "carol")) "carol" "XYZ"
      server

answers-Admit_example :
    Admits "carol" (Handlers.handle_create single true (some "carol") "KLM" server)
    × Admits "carol" (Handlers.handle_join single true (some ("KLM", "carol")) server)
answers-Admit_example =
    answers-Admit "carol" "KLM" (λ e. ground (arith, eq_iff "carol" ""))
      (λ e. ground (arith, eq_iff "KLM" "")) single server

abbrev loading : Landing
loading = record {
  user_id = b'a' ∷ [];
  join_code = b'K' ∷ [];
  error = [];
  loading = true;
  session = none;
}

loading_user : trim loading.user_id ≡ b'a' ∷ []
unfolding trim
loading_user = refl

loading_code : trim loading.join_code ≡ b'K' ∷ []
unfolding trim
loading_code = refl

serve_all_lem_example :
    let s =
      serve_all
        (Handlers.create single true (some "alice") "KLM" ∷ Handlers.ws "alice" "KLM" ∷ [])
        (new_server 8081) in
    AllHaveRoles s.sessions × IsValid s.hub
serve_all_lem_example =
    serve_all_lem 8081
      (Handlers.create single true (some "alice") "KLM" ∷ Handlers.ws "alice" "KLM" ∷ [])
      (tt, (tt, tt))
