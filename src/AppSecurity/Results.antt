-- ===== src/AppSecurity/Results.antt =====
-- What the operation reports, and that its own rules are found again.
use azure_shell.Prelude.{
  ℕ, suc, ◌≡◌, refl, sym, ap, ◌∙◌, true, Option, none, some, List, [], ◌∷◌, map, All, ⊤,
}
use azure_shell.Text.{Text, text, contains, starts_with}
use azure_shell.Errors.{Result, ok, err}
use azure_shell.Models.{PortData}
use azure_shell.Cloud.{Azure, History}
use azure_shell.Cloud.Objects.{SecurityRule}
use azure_shell.Effects.{bind_result, ◌>>=◌, pure, attempt, collect}
use azure_shell.Effects.Retry.{Retrying}
use azure_shell.SecurityGroups.{is_custom}
use azure_shell.SecurityGroups.Rules.{
  Constants, of_port_data, prepare_security_group_rule, rule_name, text_or,
}
use azure_shell.AppSecurity.{
  AppSecurityGroup, AppResult, Libraries, result_of, set_app, set_apps_security_groups,
  custom_rule_name, named_from,
}

-- the names of the apps of which the results tell, where there are results
abbrev pub names_of : Result (List AppResult) → Option (List Text)
names_of (ok results) = some (map (λ x. x.app_name) results)
names_of (err e) = none

result_name : (name : Text) (x : Result ⊤) → (result_of name x).app_name ≡ name
unfolding result_of
result_name name (ok _) = refl
result_name name (err e) = refl

module _ (r : Retrying) (z : Azure) (k : Constants) (libraries : Libraries) (group : Text) where
  -- Whatever Azure answers for whichever app, the operation returns, with one result for each app, in
  -- the order of the apps.
  pub set_apps_security_groups_total :
      (apps : List AppSecurityGroup) (h : History)
      → names_of (set_apps_security_groups r z k libraries group apps h).0
        ≡ some (map (λ app. app.app_name) apps)
  unfolding set_apps_security_groups collect ◌>>=◌ attempt pure
  set_apps_security_groups_total [] h = refl
  set_apps_security_groups_total (app ∷ apps) h =
      let x = set_app r z k libraries group app h in
      rest (set_apps_security_groups r z k libraries group apps x.1) (result_of app.app_name x.0)
        (result_name app.app_name x.0) (set_apps_security_groups_total apps x.1)
    where
      rest :
          (y : Result (List AppResult) × History) (one : AppResult)
          → one.app_name ≡ app.app_name
          → names_of y.0 ≡ some (map (λ a. a.app_name) apps)
          → names_of (bind_result y (λ results. pure (one ∷ results))).0
            ≡ some (app.app_name ∷ map (λ a. a.app_name) apps)
      rest (ok results, h) one e f = cc
      rest (err raised, h) one e f = cc

-- the rule that is made for a named port is a custom one
abbrev pub IsFound : Constants → Text → Text → PortData → Type 0
IsFound k destination source rule =
    (priority : ℕ) (made : SecurityRule)
    → prepare_security_group_rule k (of_port_data rule) destination priority source ≡ ok made
    → is_custom made ≡ true

custom_name_found :
    (vm_name destination : Text) (i priority : ℕ)
    → contains
        (text "custom_rule")
        (rule_name (some (custom_rule_name vm_name destination i)) priority)
      ≡ true
unfolding contains starts_with rule_name text_or custom_rule_name text
custom_name_found vm_name destination i priority = refl

-- Every security rule that the operation makes for an app, whatever its ports, address and priority,
-- is one that the next run of the operation deletes.
pub custom_rules_are-IsFound :
    (k : Constants) (vm_name destination source : Text) (i : ℕ) (rules : List PortData)
    → All (IsFound k destination source) (named_from vm_name destination i rules)
unfolding named_from is_custom prepare_security_group_rule
custom_rules_are-IsFound k vm_name destination source i [] = tt
custom_rules_are-IsFound k vm_name destination source i (rule ∷ rules) = (
  (λ priority made e.
      ap (λ x. contains (text "custom_rule") x.name) (sym (ok_inj e))
      ∙ custom_name_found vm_name destination i priority),
  custom_rules_are-IsFound k vm_name destination source (suc i) rules,
)
  where
    ok_inj : {x y : SecurityRule} → ok x ≡ ok y → x ≡ y
    ok_inj e = cc
