-- ===== src/VmRules/Opened.antt =====
-- For whom the rules of additional management networks open a VM.
use azure_shell.Prelude.{ℕ, ◌≤◌, ◌≡◌, refl, some, List, [], ◌∷◌, ◌++◌, map, arith}
use azure_shell.Text.{Text, text}
use azure_shell.Errors.{ok}
use azure_shell.Cloud.{Azure, History, list_security_rules, put_security_rule}
use azure_shell.Cloud.Objects.{SecurityRule}
use azure_shell.Effects.{◌>>=◌, pure, call}
use azure_shell.Effects.Retry.{Retrying, retry5_ok}
use azure_shell.Priorities.{rule_priority_generator, next}
use azure_shell.Priorities.Fresh.{
  next_lem, rule_priority_generator-IsReady, candidate-rule_priority_generator,
}
use azure_shell.SecurityGroups.{create_each, create_network_security_group_rules}
use azure_shell.SecurityGroups.Rules.{Constants, of_rule_data, prepare_security_group_rule}
use azure_shell.SecurityGroups.Created.{Accepts, create_rule_lem}
use azure_shell.Sandbox.{allow_all_rule, dash_cidr, create_one}
use azure_shell.Sandbox.Rules.{rule_of}
use azure_shell.VmRules.{open_additional_network}

-- If the rules in use can be listed and every put is accepted, then for each additional management
-- network one rule is put that allows all traffic to the VM from the internet, whatever the network
-- is, at a priority of at least 3000; the network is only in the rule's name.
pub open_additional_network_opens_internet :
    (r : Retrying) (z : Azure) (k : Constants) (group nsg mgmt_network : Text)
    (in_use : List SecurityRule) (h : History)
    → Accepts z group nsg
    → z.security_rules (list_security_rules group nsg ∷ h) ≡ ok in_use
    → (p : ℕ) × (3000 ≤ p)
      × (open_additional_network r z k group nsg mgmt_network h ≡ (
        ok tt,
        put_security_rule group nsg (
              rule_of k
                (allow_all_rule k (text "Allow_" ++ dash_cidr mgmt_network))
                (text "*")
                k.internet
                p)
            ∷ list_security_rules group nsg
            ∷ h,
      ))
unfolding open_additional_network create_one create_network_security_group_rules
open_additional_network_opens_internet r z k group nsg mgmt_network in_use h accepts listed =
    let used = map (λ (rule : SecurityRule). rule.priority) in_use in
    let g = rule_priority_generator used (some 3000) in
    let d = allow_all_rule k (text "Allow_" ++ dash_cidr mgmt_network) in
    let above = next_lem g (rule_priority_generator-IsReady used (some 3000)) in
    let p = (next g).0 in
    let h1 = list_security_rules group nsg ∷ h in
    let rule = rule_of k d (text "*") k.internet p in
    (
      p,
      omega (arith, above, candidate-rule_priority_generator used (some 3000)),
      retry5_ok r
          (call (list_security_rules group nsg) z.security_rules >>= λ rules.
            create_each r z k group nsg (text "*") k.internet (of_rule_data d ∷ [])
              (rule_priority_generator (map (λ rule. rule.priority) rules) (some 3000)))
          h (put_security_rule group nsg rule ∷ h1) tt
          (unfold ◌>>=◌ call create_each pure in
            rw listed (
              rw (
                create_rule_lem r z k group nsg (text "*") k.internet accepts (of_rule_data d) p
                  rule h1 (unfold prepare_security_group_rule in refl)))),
    )
