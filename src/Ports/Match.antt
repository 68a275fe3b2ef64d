-- ===== src/Ports/Match.antt =====
-- The four regular expressions of package/cloudshell/cp/azure/common/parsers/rules_attribute_parser.py
-- and package/cloudshell/cp/azure/common/parsers/port_group_attribute_parser.py. A run of digits ends
-- at the first other character, so that no match needs backtracking. `fold` is `lower_char` where the
-- code says `re.IGNORECASE`, and leaves a character alone where it does not.
use azure_shell.Prelude.{
  ℕ, Bool, true, false, ◌&&◌, ◌||◌, Option, none, some, [], ◌∷◌, ◌++◌, map, leb, ◌==◌,
  if◌then◌else◌,
}
use azure_shell.Text.{Text, text, is_empty, eq}
use azure_shell.Errors.{Error, ErrorKind, exception}

infixl 5 ◌>>=◌
abbrev pub ◌>>=◌ {ℓ κ} : {A : Type ℓ} {B : Type κ} → Option A → (A → Option B) → Option B
none >>= f = none
some a >>= f = f a

unfoldable pub is_digit : ℕ → Bool
is_digit c = leb b'0' c && leb c b'9'

unfoldable pub digits : Text → Text
digits [] = []
digits (c ∷ cs) = if is_digit c then c ∷ digits cs else []

unfoldable pub after_digits : Text → Text
after_digits [] = []
after_digits (c ∷ cs) = if is_digit c then after_digits cs else c ∷ cs

-- `\d+`, with the text behind it
unfoldable pub some_digits : Text → Option (Text × Text)
some_digits s = if is_empty (digits s) then none else some (digits s, after_digits s)

-- a single character
unfoldable pub expect : ℕ → Text → Option Text
expect c [] = none
expect c (x ∷ xs) = if x == c then some xs else none

-- `$`: at the end, or before a newline that ends the text
unfoldable pub at_end : Text → Bool
at_end [] = true
at_end (c ∷ []) = c == 10
at_end (c ∷ d ∷ ds) = false

unfoldable pub is_protocol : (ℕ → ℕ) → Text → Bool
is_protocol fold p = eq (map fold p) (text "udp") || eq (map fold p) (text "tcp")

-- `(?P<protocol>(udp|tcp))$`
unfoldable pub match_protocol : (ℕ → ℕ) → Text → Option Text
match_protocol fold (a ∷ b ∷ c ∷ rest) =
    if is_protocol fold (a ∷ b ∷ c ∷ []) && at_end rest then some (a ∷ b ∷ c ∷ []) else none
match_protocol fold _ = none

-- `^((?P<from_port>\d+)-(?P<to_port>\d+):(?P<protocol>(udp|tcp)))$`
unfoldable pub from_to_protocol : (ℕ → ℕ) → Text → Option (Text × Text × Text)
from_to_protocol fold s = do
  (f, r) ← some_digits s
  r ← expect b'-' r
  (t, r) ← some_digits r
  r ← expect b':' r
  p ← match_protocol fold r
  some (f, t, p)

-- `^((?P<from_port>\d+):(?P<protocol>(udp|tcp)))$`
unfoldable pub from_protocol : (ℕ → ℕ) → Text → Option (Text × Text)
from_protocol fold s = do
  (f, r) ← some_digits s
  r ← expect b':' r
  p ← match_protocol fold r
  some (f, p)

-- `^((?P<from_port>\d+)-(?P<to_port>\d+))$`
unfoldable pub from_to : Text → Option (Text × Text)
from_to s = do
  (f, r) ← some_digits s
  r ← expect b'-' r
  (t, r) ← some_digits r
  if at_end r then some (f, t) else none

-- `^((?P<from_port>\d+))$`
unfoldable pub port_only : Text → Option Text
port_only s = do (f, r) ← some_digits s; if at_end r then some f else none

-- the `ValueError` of a text that matches none of the four
unfoldable pub not_a_rule : Text → Error
not_a_rule s =
    exception ErrorKind.value_error (text "The value '" ++ s ++ text "' is not a valid ports rule")
