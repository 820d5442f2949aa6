-- ===== src/Sample.antt =====
-- An instance of the platform: a document is its text, a relative position is an index, encoded
-- in unary, and the base64 functions check for bytes.
use collaborative_ide.Prelude.{
  ℕ, zero, suc, ◌≡◌, refl, true, false, Option, none, some, List, [], ◌∷◌, Text, All, all, length,
  leb, ltb, if◌then◌else◌, arith,
}
use collaborative_ide.Platform.{Platform, Documented, IsByte, apply_ops}

abbrev pub ones : ℕ → List ℕ
ones zero = []
ones (suc n) = 1 ∷ ones n

abbrev pub position : List ℕ → Option ℕ
position [] = none
position (_ ∷ bytes) = some (length bytes)

abbrev pub bytes_only : Text → Option Text
unfolding all
bytes_only s = if all (λ b. ltb b 256) s then some s else none

abbrev pub within : ℕ → Text → Option ℕ
within i d = if leb i (length d) then some i else none

abbrev pub sample : Platform
sample = record {
  Doc = Text;
  Relative = ℕ;
  Awareness = List ℕ;
  text = λ d. d;
  transact = λ ops d. record { doc = apply_ops ops d; fired = true; threw = false };
  relative = λ d i. i;
  absolute = within;
  encode = λ i. 1 ∷ ones i;
  decode = position;
  state_vector = λ d. length d ∷ [];
  full_state = λ d. d;
  state_since = λ d sv. some d;
  apply_update = λ d u. some u;
  set_user = λ name color a. (a, 0 ∷ []);
  encode_awareness = λ a changed. a;
  apply_awareness = λ a u. some (u, u);
  client_id = λ d. 0;
  btoa = bytes_only;
  atob = λ s. some s;
}

length-ones : (n : ℕ) → length (ones n) ≡ n
length-ones zero = refl
length-ones (suc n) = omega (arith, length-ones n)

ones-IsByte : (n : ℕ) → All IsByte (ones n)
ones-IsByte zero = tt
ones-IsByte (suc n) = (omega arith, ones-IsByte n)

all-IsByte : (s : Text) → All IsByte s → all (λ b. ltb b 256) s ≡ true
unfolding all
all-IsByte [] h = refl
all-IsByte (b ∷ s) (h, k) = ground (arith, all-IsByte s k)

pub sample-Documented : Documented sample
unfolding all
sample-Documented = record {
  transact_fits = λ ops d h. (refl, refl);
  unfired = λ ops d h. cc;
  absolute-relative = λ d i h. ground arith;
  absolute-le = λ r d i h. ground arith;
  decode-encode = λ r. rw length-ones;
  encode-IsByte = λ r. (omega arith, ones-IsByte r);
  encode-ne-nil = λ r e. cc;
  btoa_lem = λ s h. (s, rw (all-IsByte s h), refl, λ e. e);
}
