-- ===== src/Text/Decimal.antt =====
-- `str(n)` and `int(s)` for numbers that are not negative.
use azure_shell.Prelude.{
  ℕ, zero, suc, ◌+◌, ◌-◌, ◌*◌, ◌/◌, ◌%◌, ◌<◌, List, [], ◌∷◌, ◌++◌, ltb, if◌then◌else◌, ◌≡◌, refl,
  arith, ◌∙◌, Bool-cases, inl, inr,
}

abbrev Text : Type 0
Text = List ℕ

-- the fuel bounds the number of digits
show_from : ℕ → ℕ → Text
show_from zero n = []
show_from (suc fuel) n =
    let front = show_from fuel (n / 10) in
    if ltb n 10 then (b'0' + n) ∷ [] else front ++ (b'0' + n % 10) ∷ []

unfoldable pub show : ℕ → Text
unfolding show_from
show n = show_from (suc n) n

shown : show 4090 ≡ b'4' ∷ b'0' ∷ b'9' ∷ b'0' ∷ []
unfolding show
shown = refl

-- `int(s)` of digits, behind those that make `n`
unfoldable pub read_from : ℕ → Text → ℕ
read_from n [] = n
read_from n (c ∷ cs) = read_from (10 * n + (c - b'0')) cs

read_from-append : (n : ℕ) (s t : Text) → read_from n (s ++ t) ≡ read_from (read_from n s) t
unfolding read_from
read_from-append n [] t = refl
read_from-append n (c ∷ cs) t = read_from-append (10 * n + (c - b'0')) cs t

read-show_from : (fuel n : ℕ) → n < fuel → read_from 0 (show_from fuel n) ≡ n
unfolding read_from show_from
read-show_from zero n h = omega arith
read-show_from (suc fuel) n h = elim (Bool-cases (ltb n 10)) [
  | inl e ↦ rw e (omega arith)
  | inr e ↦ rw e (
      read_from-append 0 (show_from fuel (n / 10)) ((b'0' + n % 10) ∷ [])
      ∙ rw (read-show_from fuel (n / 10) (ground arith)) (omega arith))
]

-- What is printed is read back.
pub read-show : (n : ℕ) → read_from 0 (show n) ≡ n
unfolding show
read-show n = read-show_from (suc n) n (omega arith)
