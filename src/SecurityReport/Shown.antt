-- ===== src/SecurityReport/Shown.antt =====
-- Which rules the report shows.
use azure_shell.Prelude.{
  ℕ, ◌≡◌, refl, sym, ap, ◌∙◌, ◌⊎◌, inl, inr, true, false, none, some, List, [], ◌∷◌, ◌++◌, map, All,
}
use azure_shell.Text.{Text, text, starts_with, starts_with-append}
use azure_shell.Text.Decimal.{show}
use azure_shell.Errors.{ok}
use azure_shell.Models.{RuleData, PortData}
use azure_shell.Cloud.Objects.{SecurityRule}
use azure_shell.AppSecurity.{custom_rule_name}
use azure_shell.SecurityGroups.Rules.{
  Constants, of_rule_data, of_port_data, prepare_security_group_rule, rule_name, text_or,
}
use azure_shell.SecurityReport.{is_shown, display_strings, rule_display_str}

-- made for an inbound port of an app, which has no name of its own
abbrev pub IsOfPort : Constants → SecurityRule → Type 0
IsOfPort k made =
    (d : RuleData) × (destination : Text) × (priority : ℕ) × (source : Text) × (d.name ≡ none)
    × (prepare_security_group_rule k (of_rule_data d) destination priority source ≡ ok made)

-- made by `set_apps_security_groups`
abbrev pub IsCustom : Constants → SecurityRule → Type 0
IsCustom k made =
    (d : PortData) × (destination : Text) × (priority : ℕ) × (source vm_name : Text) × (i : ℕ)
    × (d.name ≡ some (custom_rule_name vm_name destination i))
    × (prepare_security_group_rule k (of_port_data d) destination priority source ≡ ok made)

-- the rules of ports among rules of both kinds, in their order
abbrev pub of_ports :
    (k : Constants) (rules : List SecurityRule)
    → All (λ x. IsOfPort k x ⊎ IsCustom k x) rules
    → List SecurityRule
of_ports k [] h = []
of_ports k (x ∷ rules) (inl p, h) = x ∷ of_ports k rules h
of_ports k (x ∷ rules) (inr c, h) = of_ports k rules h

IsOfPort-shown : (k : Constants) (x : SecurityRule) → IsOfPort k x → is_shown x ≡ true
unfolding is_shown prepare_security_group_rule
IsOfPort-shown k x (d, destination, priority, source, unnamed, e) =
    ap (λ (name : Text). starts_with name (text "rule_")) (sym (name_of e) ∙ named unnamed)
    ∙ starts_with-append (text "rule_") (show priority)
  where
    name_of : {y : SecurityRule} → ok y ≡ ok x → y.name ≡ x.name
    name_of e = cc

    named : d.name ≡ none → rule_name d.name priority ≡ text "rule_" ++ show priority
    named e = rw e (unfold rule_name text_or in refl)

IsCustom-hidden : (k : Constants) (x : SecurityRule) → IsCustom k x → is_shown x ≡ false
unfolding is_shown prepare_security_group_rule
IsCustom-hidden k x (d, destination, priority, source, vm_name, i, named, e) =
    ap (λ (name : Text). starts_with name (text "rule_")) (sym (name_of e) ∙ is_named named)
    ∙ unfold starts_with custom_rule_name text in refl
  where
    name_of : {y : SecurityRule} → ok y ≡ ok x → y.name ≡ x.name
    name_of e = cc

    is_named :
        d.name ≡ some (custom_rule_name vm_name destination i)
        → rule_name d.name priority ≡ custom_rule_name vm_name destination i
    is_named e = rw e (unfold rule_name text_or custom_rule_name text in refl)

-- Among the rules that open the inbound ports of an app and the custom rules of apps, the report of
-- a VM has a line for each rule of a port, in their order, and none for a custom rule.
pub display_strings_lem :
    (k : Constants) (rules : List SecurityRule) (h : All (λ x. IsOfPort k x ⊎ IsCustom k x) rules)
    → display_strings rules ≡ map rule_display_str (of_ports k rules h)
unfolding display_strings
display_strings_lem k [] h = refl
display_strings_lem k (x ∷ rules) (inl p, h) =
    rw (IsOfPort-shown k x p, display_strings_lem k rules h)
display_strings_lem k (x ∷ rules) (inr c, h) =
    rw (IsCustom-hidden k x c, display_strings_lem k rules h)
