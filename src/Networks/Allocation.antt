-- ===== src/Networks/Allocation.antt =====
-- How the two helpers on allocation methods fit together.
use azure_shell.Prelude.{◌≡◌, refl, sym, ap, ◌∙◌, true, false, Bool-cases, inl, inr}
use azure_shell.Text.{Text, text, eq, eq_sound}
use azure_shell.Text.Edit.{lower}
use azure_shell.Cloud.Objects.{other_text}
use azure_shell.Networks.{is_static_allocation, to_azure_type}

names_differ : eq (text "cloudshell allocation") (text "static") ≡ false
unfolding eq text
names_differ = refl

-- The attribute value for which NICs are created with a static address is not itself one that counts
-- as static: whoever tests the attribute in place of the Azure type never finds a static address.
pub is_static_allocation-to_azure_type :
    (attribute : Text)
    → is_static_allocation (to_azure_type attribute) ≡ true
    → is_static_allocation (other_text attribute) ≡ false
unfolding is_static_allocation to_azure_type
is_static_allocation-to_azure_type attribute h =
    elim (Bool-cases (eq (lower attribute) (text "cloudshell allocation"))) [
      | inl e ↦
          ap (λ s. eq s (text "static"))
            (eq_sound (lower attribute) (text "cloudshell allocation") e)
          ∙ names_differ
      | inr e ↦ absurd (false_true (sym (rw e at h)))
    ]
  where
    false_true : true ≡ false → ⊥
    false_true e = cc
