-- ===== src/Sidebar/Avatar.antt =====
-- The colour of an avatar.
use collaborative_ide.Prelude.{
  ℕ, suc, ◌+◌, ◌*◌, ◌<◌, ◌≡◌, [], ◌∷◌, arith, Text, ◌^◌, get_elem?, ◌%◌, length, ◌∙◌, ap, sym,
}
use native.Mathlib.Nat.{add-mul, mul_assoc, add_assoc, pow-succ'}
use collaborative_ide.Sidebar.{avatar_colors, hash_step, hash_from, avatar_color}

-- The name as a number in base 31, its first unit the highest.
abbrev pub weight : Text → ℕ
weight [] = 0
weight (unit ∷ id) = unit * 31 ^ length id + weight id

shifted : (n g u w : ℕ) → (g * 31 + u) * 31 ^ n + w ≡ g * 31 ^ suc n + (u * 31 ^ n + w)
shifted n g u w =
    ap (λ m. m + w)
      (add-mul (g * 31) u (31 ^ n) ∙ ap (λ m. m + u * 31 ^ n) (mul_assoc g 31 (31 ^ n)))
    ∙ (add_assoc (g * (31 * 31 ^ n)) (u * 31 ^ n) w
        ∙ ap (λ m. g * m + (u * 31 ^ n + w)) (sym (pow-succ' 31 n)))

hash_from-mod :
    (g : ℕ) (id : Text) → hash_from (g % 2 ^ 32) id ≡ (g * 31 ^ length id + weight id) % 2 ^ 32
unfolding hash_from hash_step
hash_from-mod g [] = omega arith
hash_from-mod g (unit ∷ id) =
    let reduced : hash_step (g % 2 ^ 32) unit ≡ (g * 31 + unit) % 2 ^ 32 = omega arith in
    ap (λ h. hash_from h id) reduced
    ∙ (hash_from-mod (g * 31 + unit) id
        ∙ ap (λ n. n % 2 ^ 32) (shifted (length id) g unit (weight id)))

-- The colour of a name is the one whose place is the name, as a number in base 31, modulo 2^32 and
-- then modulo 6; the hash is that number modulo 2^32, and after every prefix of the name the product
-- and the sum of the next step are exact in a double, whose integers are exact to 2^53.
pub avatar_color_lem :
    (id : Text) (unit : ℕ)
    → unit < 2 ^ 16
    → (avatar_color id ≡ get_elem? avatar_colors (weight id % 2 ^ 32 % 6))
      × (hash_from 0 id ≡ weight id % 2 ^ 32)
      × (hash_from 0 id * 31 + unit < 2 ^ 53)
unfolding avatar_color
avatar_color_lem id unit h =
    let e : hash_from 0 id ≡ weight id % 2 ^ 32 =
      hash_from-mod 0 id ∙ ap (λ n. n % 2 ^ 32) (omega arith) in
    (ap (λ n. get_elem? avatar_colors (n % 6)) e, e, omega (arith, e))
