-- ===== src/Text/Edit.antt =====
-- Replacing, splitting, stripping and lowering.
use azure_shell.Prelude.{
  ℕ, ◌+◌, ◌-◌, ◌≡◌, refl, Bool, false, ◌&&◌, ◌||◌, List, [], ◌∷◌, ◌++◌, map, arith, leb, ◌==◌,
  if◌then◌else◌, All, ◌≢◌, All-append, All-if, sym, append_assoc,
}

abbrev Text : Type 0
Text = List ℕ

-- `s.replace(c, r)` for a single character `c`
unfoldable pub replace : ℕ → Text → Text → Text
replace c r [] = []
replace c r (x ∷ xs) = (if x == c then r else x ∷ []) ++ replace c r xs

abbrev pub prefix_first : ℕ → List Text → List Text
prefix_first c [] = (c ∷ []) ∷ []
prefix_first c (p ∷ ps) = (c ∷ p) ∷ ps

-- `s.split(d)` for a single character `d`; there is always a first piece
unfoldable pub split : ℕ → Text → List Text
split d [] = [] ∷ []
split d (x ∷ xs) = let rest = split d xs in if x == d then [] ∷ rest else prefix_first x rest

-- the characters that `str.strip` removes: `\t\n\v\f\r` and the space
unfoldable pub is_space : ℕ → Bool
is_space c = (leb 9 c && leb c 13) || c == 32

unfoldable pub lstrip : Text → Text
unfolding is_space
lstrip [] = []
lstrip (c ∷ cs) = if is_space c then lstrip cs else c ∷ cs

unfoldable pub rstrip_cons : (ℕ → Bool) → ℕ → Text → Text
rstrip_cons p c [] = if p c then [] else c ∷ []
rstrip_cons p c (d ∷ ds) = c ∷ d ∷ ds

-- `s.rstrip(chars)`, where `p` tells the characters to remove
unfoldable pub rstrip_by : (ℕ → Bool) → Text → Text
unfolding rstrip_cons
rstrip_by p [] = []
rstrip_by p (c ∷ cs) = rstrip_cons p c (rstrip_by p cs)

pub rstrip_cons_keep :
    (p : ℕ → Bool) (c : ℕ) (cs : Text) → p c ≡ false → rstrip_cons p c cs ≡ c ∷ cs
unfolding rstrip_cons
rstrip_cons_keep p c [] h = rw h
rstrip_cons_keep p c (d ∷ ds) h = refl

-- `s.strip()`
unfoldable pub strip : Text → Text
unfolding lstrip rstrip_by
strip s = rstrip_by is_space (lstrip s)

unfoldable pub lower_char : ℕ → ℕ
lower_char c = if leb b'A' c && leb c b'Z' then c + 32 else c

-- `s.lower()`
unfoldable pub lower : Text → Text
unfolding lower_char
lower s = map lower_char s

-- `s.upper()`
unfoldable pub upper : Text → Text
upper s = map (λ c. if leb b'a' c && leb c b'z' then c - 32 else c) s

module _ (P : ℕ → Type 0) (c : ℕ) (r : Text) (allowed : All P r) where
  -- If the replacement is of allowed characters, it is enough that the other characters are.
  pub replace-All : (s : Text) → All (λ x. x ≢ c → P x) s → All P (replace c r s)
  unfolding replace
  replace-All [] h = tt
  replace-All (x ∷ xs) h =
      All-append P (if x == c then r else x ∷ []) (replace c r xs)
        (All-if P (x == c) r (x ∷ []) (λ _. allowed) (λ e. (h.0 (ground arith), tt)))
        (replace-All xs h.1)

-- Replacing what does not occur changes nothing.
pub replace_absent : (c : ℕ) (r s : Text) → All (λ x. x ≢ c) s → replace c r s ≡ s
unfolding replace
replace_absent c r [] h = refl
replace_absent c r (x ∷ xs) h = ground (arith, replace_absent c r xs h.1)

pub replace-append : (c : ℕ) (r s t : Text) → replace c r (s ++ t) ≡ replace c r s ++ replace c r t
unfolding replace
replace-append c r [] t = refl
replace-append c r (x ∷ xs) t =
    rw (replace-append c r xs t)
      (sym (append_assoc (if x == c then r else x ∷ []) (replace c r xs) (replace c r t)))

-- A text without the separator is its only piece.
pub split_none : (d : ℕ) (s : Text) → All (λ x. x ≢ d) s → split d s ≡ s ∷ []
unfolding split
split_none d [] h = refl
split_none d (x ∷ xs) h = ground (arith, split_none d xs h.1)

-- The pieces of `a + d + b`, where `a` has no separator.
pub split-append : (d : ℕ) (a b : Text) → All (λ x. x ≢ d) a → split d (a ++ d ∷ b) ≡ a ∷ split d b
unfolding split
split-append d [] b h = ground arith
split-append d (x ∷ xs) b h = ground (arith, split-append d xs b h.1)

-- No piece has the separator.
prefix_first-All :
    (d x : ℕ) (ps : List Text)
    → x ≢ d
    → All (All (λ y. y ≢ d)) ps
    → All (All (λ y. y ≢ d)) (prefix_first x ps)
prefix_first-All d x [] e h = ((e, tt), tt)
prefix_first-All d x (p ∷ ps) e h = ((e, h.0), h.1)

pub split-All : (d : ℕ) (s : Text) → All (All (λ y. y ≢ d)) (split d s)
unfolding split
split-All d [] = (tt, tt)
split-All d (x ∷ xs) =
    All-if (All (λ y. y ≢ d)) (x == d) ([] ∷ split d xs) (prefix_first x (split d xs))
      (λ e. (tt, split-All d xs))
      (λ e. prefix_first-All d x (split d xs) (ground arith) (split-All d xs))

pub lower_idem : (s : Text) → lower (lower s) ≡ lower s
unfolding lower
lower_idem [] = refl
lower_idem (x ∷ xs) = ground (arith, lower_idem xs)
