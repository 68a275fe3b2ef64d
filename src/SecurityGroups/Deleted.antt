-- ===== src/SecurityGroups/Deleted.antt =====
-- Which rules `SecurityGroupService` deletes.
use azure_shell.Prelude.{◌≡◌, refl, true, List, [], ◌∷◌, keep, keep-All}
use azure_shell.Text.{Text, text, contains}
use azure_shell.Errors.{ok}
use azure_shell.Cloud.{Azure, Call, History, list_security_rules, delete_security_rule}
use azure_shell.Cloud.Objects.{SecurityRule}
use azure_shell.Effects.{◌>>=◌, call, for_each, pure}
use azure_shell.Effects.Retry.{Retrying, retry5_ok}
use azure_shell.Effects.Emits.{Emits, Emits-call, Emits-bind, Emits-for_each_of, Emits-retry5}
use azure_shell.SecurityGroups.Rules.{Constants}
use azure_shell.SecurityGroups.{is_custom, delete_custom_security_rules_from_nsg}

-- calls of one security group that delete only rules with `custom_rule` in their name
abbrev pub DeletesCustom : Text → Text → Call → Type 0
DeletesCustom group nsg (list_security_rules g n) = (g ≡ group) × (n ≡ nsg)
DeletesCustom group nsg (delete_security_rule g n name) =
    (g ≡ group) × (n ≡ nsg) × (contains (text "custom_rule") name ≡ true)
DeletesCustom group nsg _ = ⊥

-- Whatever Azure answers, `delete_custom_security_rules_from_nsg` deletes nothing but custom rules of
-- the given security group.
pub delete_custom_security_rules_from_nsg-Emits :
    (r : Retrying) (z : Azure) (k : Constants) (group nsg : Text)
    → Emits (DeletesCustom group nsg) (delete_custom_security_rules_from_nsg r z k group nsg)
unfolding delete_custom_security_rules_from_nsg is_custom
delete_custom_security_rules_from_nsg-Emits r z k group nsg =
    let P = DeletesCustom group nsg in
    let delete = λ (rule : SecurityRule). call (delete_security_rule group nsg rule.name) z.done in
    let rest = λ (rules : List SecurityRule). for_each (keep is_custom rules) delete in
    Emits-retry5 P r (call (list_security_rules group nsg) z.security_rules >>= rest) (
      Emits-bind P (call (list_security_rules group nsg) z.security_rules) rest
        (Emits-call P (list_security_rules group nsg) z.security_rules (refl, refl))
        λ rules.
          Emits-for_each_of P (λ rule. is_custom rule ≡ true) (keep is_custom rules) delete
            (keep-All is_custom rules)
            λ rule custom.
              Emits-call P (delete_security_rule group nsg rule.name) z.done (refl, refl, custom))

-- the history after deleting rules in order
abbrev pub deletes : Text → Text → List SecurityRule → History → History
deletes group nsg [] h = h
deletes group nsg (rule ∷ rules) h =
    deletes group nsg rules (delete_security_rule group nsg rule.name ∷ h)

pub record Deletes (z : Azure) (group nsg : Text) : Type 0 where
  pub deleted :
      (name : Text) (h : History) → z.done (delete_security_rule group nsg name ∷ h) ≡ ok tt

module _ (r : Retrying) (z : Azure) (k : Constants) (group nsg : Text)
    (d : Deletes z group nsg) where
  delete_each :
      (rules : List SecurityRule) (h : History)
      → for_each rules (λ rule. call (delete_security_rule group nsg rule.name) z.done) h
        ≡ (ok tt, deletes group nsg rules h)
  unfolding for_each pure call ◌>>=◌
  delete_each [] h = refl
  delete_each (rule ∷ rules) h =
      rw (d.deleted rule.name h) (delete_each rules (delete_security_rule group nsg rule.name ∷ h))

  -- If the rules can be listed and every deletion succeeds, all custom rules are deleted, in order,
  -- and no others.
  pub delete_custom_security_rules_from_nsg_lem :
      (rules : List SecurityRule) (h : History)
      → z.security_rules (list_security_rules group nsg ∷ h) ≡ ok rules
      → delete_custom_security_rules_from_nsg r z k group nsg h
        ≡ (ok tt, deletes group nsg (keep is_custom rules) (list_security_rules group nsg ∷ h))
  unfolding delete_custom_security_rules_from_nsg
  delete_custom_security_rules_from_nsg_lem rules h e =
      retry5_ok r
        (call (list_security_rules group nsg) z.security_rules >>= λ rules.
          for_each (keep is_custom rules)
            λ rule. call (delete_security_rule group nsg rule.name) z.done)
        h (deletes group nsg (keep is_custom rules) (list_security_rules group nsg ∷ h)) tt
        (unfold ◌>>=◌ call in
          rw e (delete_each (keep is_custom rules) (list_security_rules group nsg ∷ h)))
