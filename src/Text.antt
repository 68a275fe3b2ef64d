-- ===== src/Text.antt =====
-- Python 2 `str` values as lists of code points, with the operations of the standard library that
-- the shell calls: `==`, `in`, `startswith`, `endswith`, `replace`, `split`, `strip`, `lower`,
-- `str` of a number.
pub mod Edit
pub mod Decimal
use Prim.Native.Char.{code}
use Prim.Native.String
use azure_shell.Prelude.{
  ℕ, ◌+◌, ◌-◌, ◌≡◌, refl, ◌↔◌, Bool, true, false, not, ◌&&◌, ◌||◌, List, [], ◌∷◌, ◌++◌, map, arith,
  leb, ◌==◌, if◌then◌else◌, ==_iff, ==_refl, length, ⊤, String, last_or,
}

abbrev pub Text : Type 0
Text = List ℕ

-- A literal. It is shut, so that proofs do not read its characters.
unfoldable pub text : String → Text
text String.[] = []
text (String.◌∷◌ c s) = code c ∷ text s

-- `a == b`
unfoldable pub eq : Text → Text → Bool
eq [] [] = true
eq [] (y ∷ ys) = false
eq (x ∷ xs) [] = false
eq (x ∷ xs) (y ∷ ys) = x == y && eq xs ys

pub eq_refl : (a : Text) → eq a a ≡ true
unfolding eq
eq_refl [] = refl
eq_refl (x ∷ xs) = ground (arith, eq_refl xs)

pub eq_sound : (a b : Text) → eq a b ≡ true → a ≡ b
unfolding eq
eq_sound [] [] h = refl
eq_sound [] (y ∷ ys) h = ground arith
eq_sound (x ∷ xs) [] h = ground arith
eq_sound (x ∷ xs) (y ∷ ys) h = ground (arith, eq_sound xs ys)

-- `s.startswith(p)`
unfoldable pub starts_with : Text → Text → Bool
starts_with s [] = true
starts_with [] (p ∷ ps) = false
starts_with (c ∷ cs) (p ∷ ps) = c == p && starts_with cs ps

-- `p in s`
unfoldable pub contains : Text → Text → Bool
unfolding starts_with
contains p [] = starts_with [] p
contains p (c ∷ cs) = starts_with (c ∷ cs) p || contains p cs

-- `not s`, as a test on a text
abbrev pub is_empty : Text → Bool
is_empty [] = true
is_empty (c ∷ cs) = false

-- `s.startswith(p)` is what it says: `p` and a rest.
pub starts_with-append : (p s : Text) → starts_with (p ++ s) p ≡ true
unfolding starts_with
starts_with-append [] s = refl
starts_with-append (c ∷ p) s = ground (arith, starts_with-append p s)

literal : text "a-b" ≡ b'a' ∷ b'-' ∷ b'b' ∷ []
unfolding text
literal = refl

found_inside : contains (text "sand") (text "NSG_sandbox") ≡ true
unfolding text contains
found_inside = refl
