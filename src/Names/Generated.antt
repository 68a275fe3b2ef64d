-- ===== src/Names/Generated.antt =====
-- Lengths and characters of generated names.
use azure_shell.Prelude.{
  ℕ, ◌+◌, ◌-◌, ◌≤◌, ◌≡◌, ◌≢◌, refl, true, false, Option, none, some, [], ◌∷◌, arith, ltb, ◌==◌,
  length, length-append, length-take, keep-All, All, All-append, All-take, All-if, All-map_of, take,
  keep,
}
use azure_shell.Text.{Text, text}
use azure_shell.Text.Edit.{replace, replace-All}
use azure_shell.Names.{
  is_alnum, is_name_char, drop_dashes, remove_special, drop_last_dash, postfix_or, postfix_len,
  truncate, generate_name, prepare_storage_account_name,
}

length-drop_last_dash : (s : Text) → length (drop_last_dash s) ≤ length s
unfolding drop_last_dash
length-drop_last_dash [] = omega arith
length-drop_last_dash (c ∷ []) = ground arith
length-drop_last_dash (c ∷ d ∷ ds) = omega (arith, length-drop_last_dash (d ∷ ds))

length-truncate : (limit : ℕ) (s : Text) → length (truncate limit s) ≤ limit
unfolding truncate
length-truncate limit s = ground (arith, length-take limit s)

length-postfix_or :
    (postfix : Option Text) (unique : Text)
    → length unique ≡ 8
    → length (postfix_or postfix unique) + 1 ≡ postfix_len postfix
unfolding postfix_or postfix_len
length-postfix_or none unique u = omega arith
length-postfix_or (some p) unique u = ground arith

length-generate_name_of :
    (unique name : Text) (postfix : Option Text) (max_length : ℕ)
    → length (postfix_or postfix unique) + 1 ≡ postfix_len postfix
    → postfix_len postfix ≤ max_length
    → length (generate_name unique name postfix max_length) ≤ max_length
unfolding generate_name
length-generate_name_of unique name postfix max_length e fits =
    let cut = truncate (max_length - postfix_len postfix) (remove_special name) in
    omega (
      arith,
      length-append (drop_last_dash cut) (b'-' ∷ postfix_or postfix unique),
      length-drop_last_dash cut,
      length-truncate (max_length - postfix_len postfix) (remove_special name),
    )

-- A generated name has at most `max_length` characters, if the postfix and a dash fit; the unique
-- text that stands in for a missing postfix is one of 8 characters.
pub length-generate_name :
    (unique name : Text) (postfix : Option Text) (max_length : ℕ)
    → length unique ≡ 8
    → postfix_len postfix ≤ max_length
    → length (generate_name unique name postfix max_length) ≤ max_length
length-generate_name unique name postfix max_length u fits =
    length-generate_name_of unique name postfix max_length (length-postfix_or postfix unique u) fits

All-drop_last_dash : (P : ℕ → Type 0) (s : Text) → All P s → All P (drop_last_dash s)
unfolding drop_last_dash
All-drop_last_dash P [] h = tt
All-drop_last_dash P (c ∷ []) h = All-if P (c == b'-') [] (c ∷ []) (λ _. tt) (λ _. h)
All-drop_last_dash P (c ∷ d ∷ ds) h = (h.0, All-drop_last_dash P (d ∷ ds) h.1)

All-truncate : (P : ℕ → Type 0) (limit : ℕ) (s : Text) → All P s → All P (truncate limit s)
unfolding truncate
All-truncate P limit s h =
    All-if P (ltb limit (length s)) (take limit s) s (λ _. All-take P limit s h) (λ _. h)

abbrev IsNameChar : ℕ → Type 0
IsNameChar c = is_name_char c ≡ true

remove_special-All : (name : Text) → All IsNameChar (remove_special name)
unfolding remove_special
remove_special-All name = keep-All is_name_char (drop_dashes name)

dash_allowed : IsNameChar b'-'
unfolding is_name_char
dash_allowed = refl

-- Every character of a generated name is a letter, a digit or a dash, if those of the postfix are.
pub generate_name-All :
    (unique name : Text) (postfix : Option Text) (max_length : ℕ)
    → All IsNameChar (postfix_or postfix unique)
    → All IsNameChar (generate_name unique name postfix max_length)
unfolding generate_name
generate_name-All unique name postfix max_length h =
    let limit : ℕ = max_length - postfix_len postfix in
    All-append IsNameChar (drop_last_dash (truncate limit (remove_special name)))
      (b'-' ∷ postfix_or postfix unique)
      (All-drop_last_dash IsNameChar (truncate limit (remove_special name))
        (All-truncate IsNameChar limit (remove_special name) (remove_special-All name)))
      (dash_allowed, h)

abbrev IsAlnum : ℕ → Type 0
IsAlnum c = is_alnum c ≡ true

name_char-IsAlnum : (c : ℕ) → IsNameChar c → c ≢ b'-' → IsAlnum c
unfolding is_name_char is_alnum
name_char-IsAlnum c h e = ground arith

length-replace_nil : (c : ℕ) (s : Text) → length (replace c [] s) ≤ length s
unfolding replace
length-replace_nil c [] = omega arith
length-replace_nil c (x ∷ xs) = ground (arith, length-replace_nil c xs)

cs-All : (unique : Text) → All IsNameChar (postfix_or (some (text "cs")) unique)
unfolding postfix_or text is_name_char
cs-All unique = (refl, (refl, tt))

cs_len :
    (unique : Text)
    → length (postfix_or (some (text "cs")) unique) + 1 ≡ postfix_len (some (text "cs"))
unfolding postfix_or postfix_len text
cs_len unique = refl

cs_fits : postfix_len (some (text "cs")) ≤ 24
unfolding postfix_len text
cs_fits = omega arith

-- The storage account name of every sandbox has letters and digits only, and at most 24 of them.
pub prepare_storage_account_name_lem :
    (unique reservation_id : Text)
    → All IsAlnum (prepare_storage_account_name unique reservation_id)
      × (length (prepare_storage_account_name unique reservation_id) ≤ 24)
unfolding prepare_storage_account_name
prepare_storage_account_name_lem unique reservation_id =
    let name = generate_name unique (replace b'-' [] reservation_id) (some (text "cs")) 24 in
    (
      replace-All IsAlnum b'-' [] tt name (
          All-map_of IsNameChar (λ c. c ≢ b'-' → IsAlnum c) name name_char-IsAlnum
            (generate_name-All unique (replace b'-' [] reservation_id) (some (text "cs")) 24
              (cs-All unique))),
      omega (
        arith,
        length-replace_nil b'-' name,
        length-generate_name_of unique (replace b'-' [] reservation_id) (some (text "cs")) 24
            (cs_len unique) cs_fits,
      ),
    )

-- Dashes at the beginning of the name go, but those behind another character that is removed
-- stay: such a name begins with a dash.
pub remove_special_keeps_dash :
    (c : ℕ) (rest : Text)
    → is_name_char c ≡ false
    → remove_special (c ∷ b'-' ∷ rest) ≡ b'-' ∷ keep is_name_char rest
unfolding remove_special drop_dashes is_name_char
remove_special_keeps_dash c rest h = ground arith
