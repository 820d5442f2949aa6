-- ===== src/View/Offered.antt =====
-- What a part shown under a condition offers.
use collaborative_ide.View.{Action, Html, Offers, shown_if, element, text}
use collaborative_ide.Prelude.{String, Text, Bool, true, false, refl, ◌≡◌}

-- What is shown under a condition is offered under it.
pub shown_if-Offers :
    (a : Action) (b : Bool) (h : Html) → Offers a (shown_if b h) → (b ≡ true) × Offers a h
shown_if-Offers a true h x = (refl, x)
shown_if-Offers a false h x = elim x [ ]

-- A text offers nothing.
pub shown_text-Offers :
    (a : Action) (b : Bool) (tag class : String) (t : Text)
    → Offers a (shown_if b (element tag class (text t)))
    → ⊥
shown_text-Offers a true tag class t x = x
shown_text-Offers a false tag class t x = x
