-- ===== src/Credentials/Passwords.antt =====
-- Generated passwords satisfy what Azure asks of them.
use azure_shell.Prelude.{
  ℕ, zero, suc, ◌<◌, ◌≡◌, ◌≢◌, refl, ap, ◌∙◌, [], ◌∷◌, length, Member, inl, inr, arith,
}
use azure_shell.Text.{Text}
use azure_shell.Credentials.{set_at, generate_password}

length-set_at : (i c : ℕ) (s : Text) → length (set_at i c s) ≡ length s
unfolding set_at
length-set_at i c [] = refl
length-set_at zero c (x ∷ xs) = refl
length-set_at (suc i) c (x ∷ xs) = ap suc (length-set_at i c xs)

set_at-Member : (i c : ℕ) (s : Text) → i < length s → Member c (set_at i c s)
unfolding set_at
set_at-Member i c [] h = omega arith
set_at-Member zero c (x ∷ xs) h = inl refl
set_at-Member (suc i) c (x ∷ xs) h = inr (set_at-Member i c xs (omega (arith, h)))

-- what stands at one place survives a change at another
set_at-Member_other :
    (i j c d : ℕ) (s : Text) → i < length s → i ≢ j → Member c (set_at j d (set_at i c s))
unfolding set_at
set_at-Member_other i j c d [] h n = omega arith
set_at-Member_other zero zero c d (x ∷ xs) h n = absurd (n refl)
set_at-Member_other zero (suc j) c d (x ∷ xs) h n = inl refl
set_at-Member_other (suc i) zero c d (x ∷ xs) h n = inr (set_at-Member i c xs (omega (arith, h)))
set_at-Member_other (suc i) (suc j) c d (x ∷ xs) h n =
    inr (set_at-Member_other i j c d xs (omega (arith, h)) (λ e. n (ap suc e)))

-- A generated password has as many characters as were asked for, and contains the upper-case letter
-- and the digit that were chosen, when the two indices are in range and differ.
pub generate_password_lem :
    (letters : Text) (i j upper digit : ℕ)
    → i < length letters
    → j < length letters
    → i ≢ j
    → (length (generate_password letters i j upper digit) ≡ length letters)
      × Member upper (generate_password letters i j upper digit)
      × Member digit (generate_password letters i j upper digit)
unfolding generate_password
generate_password_lem letters i j upper digit hi hj n = (
  length-set_at j digit (set_at i upper letters) ∙ length-set_at i upper letters,
  set_at-Member_other i j upper digit letters hi n,
  set_at-Member j digit (set_at i upper letters) (omega (arith, hj, length-set_at i upper letters)),
)
