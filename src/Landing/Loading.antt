-- ===== src/Landing/Loading.antt =====
-- components/Landing.jsx: what the page offers while a request is under way.
use collaborative_ide.Ide.{is_empty}
use collaborative_ide.View.Offered.{shown_text-Offers}
use collaborative_ide.Landing.{handle_join, Landing, Request, join_code, trim}
use collaborative_ide.Landing.View.{landing_view, perform}
use collaborative_ide.View.{Offers, create, join}
use collaborative_ide.Prelude.{some, true, inl, inr, refl, ◌∷◌, ◌≡◌, Text, ℕ, not}

create-Offers : (l : Landing) → l.loading ≡ true → Offers create (landing_view l) → ⊥
unfolding landing_view
create-Offers l e (inl (inl k)) = k
create-Offers l e (inl (inr (inl k))) = k
create-Offers l e (inl (inr (inr k))) = k
create-Offers l e (inr (inl k)) = k
create-Offers l e (inr (inr (inl (inl (t, k))))) = cc
create-Offers l e (inr (inr (inl (inr k)))) = cc
create-Offers l e (inr (inr (inr (inl k)))) =
    shown_text-Offers create (not (is_empty l.error)) "div" "error-msg" l.error k
create-Offers l e (inr (inr (inr (inr (inl (idle, k)))))) = cc
create-Offers l e (inr (inr (inr (inr (inr (inl k)))))) = k
create-Offers l e (inr (inr (inr (inr (inr (inr (inl k))))))) = k
create-Offers l e (inr (inr (inr (inr (inr (inr (inr (inl (inl (t, k)))))))))) = cc
create-Offers l e (inr (inr (inr (inr (inr (inr (inr (inl (inr k))))))))) = cc
create-Offers l e (inr (inr (inr (inr (inr (inr (inr (inr (inl (idle, k)))))))))) = cc
create-Offers l e (inr (inr (inr (inr (inr (inr (inr (inr (inr k))))))))) = k

-- While a request is under way the page does not offer to create a session, but the key Enter in
-- either input offers to join one; with a name and a code in the inputs that makes a second request.
pub enter_while_loading :
    (to_upper : Text → Text) (l : Landing) (c d : ℕ) (name code : Text)
    → l.loading ≡ true
    → trim l.user_id ≡ c ∷ name
    → trim l.join_code ≡ d ∷ code
    → (Offers create (landing_view l) → ⊥)
      × Offers join (landing_view l)
      × ((perform to_upper join l).1 ≡ some (Request.join (to_upper (d ∷ code)) (c ∷ name)))
unfolding landing_view perform handle_join join_code
enter_while_loading to_upper l c d name code e n j =
    (create-Offers l e, inr (inr (inl (inr refl))), rw (perform, handle_join, n, j) refl)
