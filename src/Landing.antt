-- ===== src/Landing.antt =====
-- components/Landing.jsx and App.jsx: creating or joining a session.
pub mod Trim
pub mod View
pub mod Loading
use collaborative_ide.Prelude.{
  ℕ, Bool, true, false, ◌&&◌, ◌||◌, Option, none, some, List, [], ◌∷◌, String, Text, utf16,
  get_elem?, leb, ◌==◌, if◌then◌else◌,
}
use mathlib.Core.List.{reverse}

-- COLORS
abbrev pub colors : List String
colors = "#00adb5" ∷ "#7c5cfc" ∷ "#f0a500" ∷ "#4ec97e" ∷ "#f47c7c" ∷ []

-- White space and line terminators of ECMAScript, as code units.
unfoldable pub is_space : ℕ → Bool
is_space c =
    (leb 9 c && leb c 13)
    || c == 32
    || c == 0xa0
    || c == 0x1680
    || (leb 0x2000 c && leb c 0x200a)
    || c == 0x2028
    || c == 0x2029
    || c == 0x202f
    || c == 0x205f
    || c == 0x3000
    || c == 0xfeff

unfoldable pub trim_start : Text → Text
trim_start [] = []
trim_start (c ∷ s) = if is_space c then trim_start s else c ∷ s

-- `String.prototype.trim`
unfoldable pub trim : Text → Text
unfolding trim_start is_space
trim s = reverse (trim_start (reverse (trim_start s)))

-- What App.jsx holds once a session is joined.
pub record Session : Type 0 where
  pub code : Text
  pub user_id : Text
  pub role : String
  pub avatar_color : Option String

pub record Landing : Type 0 where
  pub user_id : Text
  pub join_code : Text
  pub error : Text
  pub loading : Bool
  -- `session` of App.jsx
  pub session : Option Session

-- The request of a click, if one is made: the body of POST /create or POST /join.
pub data Request : Type 0 where
  create : Text → Request
  join : Text → Text → Request

-- What came of the request: a status that is not ok, with its text; the JSON of the answer; or an
-- exception, with its message.
pub data Reply : Type 0 where
  refused : Text → Reply
  accepted : Text → String → Reply
  failed : Text → Reply

unfoldable pub handle_create : Landing → Landing × Option Request
unfolding trim utf16
handle_create l = elim (trim l.user_id) [
  | [] ↦ (record l { error = utf16 "Enter a display name first." }, none)
  | c ∷ name ↦ (record l { error = []; loading = true }, some (create (c ∷ name)))
]

-- `toUpperCase` is the browser's.
module _ (to_upper : Text → Text) where
  unfoldable pub join_code : Landing → Text → Text → Landing × Option Request
  unfolding utf16
  join_code l name [] = (record l { error = utf16 "Enter an invite code." }, none)
  join_code l name (c ∷ code) =
      (record l { error = []; loading = true }, some (join (to_upper (c ∷ code)) name))

  unfoldable pub handle_join : Landing → Landing × Option Request
  unfolding join_code trim utf16
  handle_join l = elim (trim l.user_id) [
    | [] ↦ (record l { error = utf16 "Enter a display name first." }, none)
    | c ∷ name ↦ join_code l (c ∷ name) (trim l.join_code)
  ]

-- The rest of `handleCreate` and of `handleJoin`: `name` is the input at the click, `drawn` the
-- index of the random colour.
unfoldable pub finish : Text → ℕ → Reply → Landing → Landing
unfolding trim
finish name drawn (accepted code role) l = record l {
  loading = false;
  session = some (record {
    code = code;
    user_id = trim name;
    role = role;
    avatar_color = get_elem? colors drawn;
  });
}
finish name drawn (refused text) l = record l { loading = false; error = text }
finish name drawn (failed message) l = record l { loading = false; error = message }

-- What App.jsx shows.
data Screen : Type 0 where
  landing_screen : Screen
  ide_screen : Session → Screen

unfoldable app : Option Session → Screen
app none = landing_screen
app (some s) = ide_screen s
