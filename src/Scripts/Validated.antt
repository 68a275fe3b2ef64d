-- ===== src/Scripts/Validated.antt =====
-- What the validation of a script is good for, and what is not validated.
use azure_shell.Prelude.{
  ℕ, ◌≡◌, refl, sym, subst, Bool, true, false, not, ◌||◌, List, [], ◌∷◌, last_or, if◌then◌else◌,
  ◌==◌, Bool-cases, inl, inr,
}
use azure_shell.Text.{Text, text, eq, eq_sound}
use azure_shell.Text.Edit.{split, prefix_first}
use azure_shell.Errors.{Error, ok, err}
use azure_shell.Cloud.{Azure, History, check_url}
use azure_shell.Cloud.Objects.{OperatingSystem, windows}
use azure_shell.Effects.{◌>>=◌, call, pure}
use azure_shell.Effects.Retry.{Retrying, retry5_ok}
use azure_shell.Scripts.{
  ends_with, without_slashes, validate_script_extension, file_name_of, create_if_valid,
  create_script_extension,
}

abbrev pub ps1 : Text
unfolding text
ps1 = text "ps1"

last_piece_cons :
    (c : ℕ) (ps : List Text)
    → ends_with (last_or [] ps) ps1 ≡ true
    → ends_with (last_or [] (prefix_first c ps)) ps1 ≡ true
unfolding ends_with eq ps1
last_piece_cons c [] h = cc
last_piece_cons c (p ∷ []) h = go (eq (c ∷ p) ps1)
  where
    go : (b : Bool) → (b || ends_with p ps1) ≡ true
    go true = refl
    go false = h
last_piece_cons c (p ∷ q ∷ qs) h = h

last_piece_after :
    (ps : List Text)
    → ends_with (last_or [] ps) ps1 ≡ true
    → ends_with (last_or [] ([] ∷ ps)) ps1 ≡ true
last_piece_after [] h = h
last_piece_after (p ∷ ps) h = h

ends_with-last :
    (s : Text) → ends_with s ps1 ≡ true → ends_with (last_or [] (split b'/' s)) ps1 ≡ true
unfolding ends_with split eq ps1
ends_with-last [] h = h
ends_with-last (c ∷ cs) h = elim (Bool-cases (eq (c ∷ cs) ps1)) [
  | inl e ↦
      subst (λ s. ends_with (last_or [] (split b'/' s)) ps1 ≡ true) (sym (eq_sound (c ∷ cs) ps1 e))
        refl
  | inr e ↦ piece (c == b'/') (ends_with-last cs (rw e at h))
]
  where
    piece :
        (b : Bool)
        → ends_with (last_or [] (split b'/' cs)) ps1 ≡ true
        → ends_with
            (last_or [] (if b then [] ∷ split b'/' cs else prefix_first c (split b'/' cs)))
            ps1
          ≡ true
    piece true k = last_piece_after (split b'/' cs) k
    piece false k = last_piece_cons c (split b'/' cs) k

-- A PowerShell script that passes the validation is run by a command whose file name ends with `ps1`:
-- the last segment of the address does, where the address as a whole was tested.
pub validated_file_name :
    (script_file script_configurations : Text)
    → validate_script_extension windows script_file script_configurations ≡ ok tt
    → ends_with (file_name_of script_file) ps1 ≡ true
unfolding validate_script_extension file_name_of ps1
validated_file_name script_file script_configurations h =
    ends_with-last (without_slashes script_file)
      (accepted (ends_with (without_slashes script_file) (text "ps1")) _ h)
  where
    accepted : (b : Bool) (e : Error) → (if not b then err e else ok tt) ≡ ok tt → b ≡ true
    accepted true e k = refl
    accepted false e k = cc

module _ (r : Retrying) (z : Azure) where
  -- When the address of the script does not answer, creating the extension returns like a success,
  -- after no other call than the one for the address.
  pub create_script_extension_skips :
      (group vm_name : Text) (os_type : OperatingSystem) (script configurations : Text)
      (h : History)
      → z.url_is_valid (check_url script ∷ h) ≡ ok false
      → create_script_extension r z group vm_name os_type script configurations h
        ≡ (ok false, check_url script ∷ h)
  unfolding create_script_extension ◌>>=◌ call pure create_if_valid
  create_script_extension_skips group vm_name os_type script configurations h e =
      retry5_ok r _ h _ false (rw e)
