-- ===== src/Deployment/Collisions.antt =====
-- The rules that open the inbound ports to the NICs of a VM, in the security group of the subnets.
use azure_shell.Prelude.{
  ℕ, ◌≡◌, refl, sym, ◌∙◌, false, ◌&&◌, Option, none, some, List, [], ◌∷◌, ◌++◌, map, All,
  All-map_of, Member, Pairwise, ◌⊎◌, inl, inr, Bool-cases, if◌then◌else◌,
}
use azure_shell.Text.{Text, text, eq, eq_refl, is_empty}
use azure_shell.Text.Edit.{replace}
use azure_shell.Errors.{ok}
use azure_shell.Models.{RuleData}
use azure_shell.Cloud.{Azure, History, list_security_rules, put_security_rule, delete_security_rule}
use azure_shell.Cloud.Objects.{Nsg, SecurityRule}
use azure_shell.Effects.Retry.{Retrying}
use azure_shell.SecurityGroups.{get_subnets_nsg_name}
use azure_shell.SecurityGroups.Rules.{InboundRule, of_rule_data, port_range, rule_name, text_or}
use azure_shell.SecurityGroups.Created.{
  Accepts, IsRuleOf, IsSupported, puts, create_network_security_group_rules_lem,
}
use azure_shell.Deployment.{DeploymentModel, CloudProviderModel, DeployData}
use azure_shell.Deployment.Steps.{Surroundings, open_to, named_rule, inbound_rule_name}

is_empty-append : (s t : Text) → is_empty t ≡ false → is_empty (s ++ t) ≡ false
is_empty-append [] t h = h
is_empty-append (x ∷ s) t h = refl

inbound_name_lem :
    (vm_name : Text) (rule : RuleData) → is_empty (inbound_rule_name vm_name rule) ≡ false
unfolding inbound_rule_name text
inbound_name_lem vm_name rule =
    is_empty-append (replace b' ' [] vm_name ++ text "_inbound_ports:" ++ port_range rule)
      (b':' ∷ rule.protocol) refl

inbound_name :
    (vm_name : Text) (rule : RuleData) (priority : ℕ)
    → rule_name (some (inbound_rule_name vm_name rule)) priority ≡ inbound_rule_name vm_name rule
unfolding rule_name text_or
inbound_name vm_name rule priority = rw (inbound_name_lem vm_name rule)

-- The rule of a name in a security group after the calls of a history: a put creates or replaces the
-- rule of its name, and a deletion removes it.
abbrev pub in_force : Text → Text → Text → History → Option SecurityRule
in_force group nsg name [] = none
in_force group nsg name (put_security_rule g n rule ∷ h) =
    if eq g group && (eq n nsg && eq rule.name name) then some rule else in_force group nsg name h
in_force group nsg name (delete_security_rule g n deleted ∷ h) =
    if eq g group && (eq n nsg && eq deleted name) then none else in_force group nsg name h
in_force group nsg name (_ ∷ h) = in_force group nsg name h

-- the rule of the name is there, and is for the address
abbrev pub IsFor : Text → Text → Text → History → Text → Type 0
IsFor group nsg ip h name =
    (rule : SecurityRule) × (in_force group nsg name h ≡ some rule)
    × (rule.destination_address_prefix ≡ ip)

module _ (group nsg ip name : Text) where
  put-IsFor :
      (rule : SecurityRule) (h : History)
      → rule.destination_address_prefix ≡ ip
      → (name ≡ rule.name) ⊎ IsFor group nsg ip h name
      → IsFor group nsg ip (put_security_rule group nsg rule ∷ h) name
  put-IsFor rule h d (inl same) =
      rw (eq_refl group, eq_refl nsg, same, eq_refl rule.name) (rule, refl, d)
  put-IsFor rule h d (inr before) = elim (Bool-cases (eq rule.name name)) [
    | inl e ↦ rw (eq_refl group, eq_refl nsg, e) (rule, refl, d)
    | inr e ↦ rw (eq_refl group, eq_refl nsg, e) before
  ]

  puts-IsFor :
      (rules : List SecurityRule) (h : History)
      → All (λ rule. rule.destination_address_prefix ≡ ip) rules
      → Member name (map (λ rule. rule.name) rules) ⊎ IsFor group nsg ip h name
      → IsFor group nsg ip (puts group nsg rules h) name
  puts-IsFor [] h d (inl m) = absurd (m tt)
  puts-IsFor [] h d (inr before) = before
  puts-IsFor (rule ∷ rules) h d (inl (inl same)) =
      puts-IsFor rules (put_security_rule group nsg rule ∷ h) d.1
        (inr (put-IsFor rule h d.0 (inl same)))
  puts-IsFor (rule ∷ rules) h d (inl (inr m)) =
      puts-IsFor rules (put_security_rule group nsg rule ∷ h) d.1 (inl m)
  puts-IsFor (rule ∷ rules) h d (inr before) =
      puts-IsFor rules (put_security_rule group nsg rule ∷ h) d.1
        (inr (put-IsFor rule h d.0 (inr before)))

module _ (r : Retrying) (z : Azure) (around : Surroundings) (d : DeploymentModel)
    (provider : CloudProviderModel) (job : DeployData) (vm_nsg : Nsg) where
  abbrev pub subnets_nsg : Text
  subnets_nsg = get_subnets_nsg_name job.group_name

  inbound : List RuleData → List InboundRule
  inbound plain = map of_rule_data (map (named_rule job.vm_name) plain)

  -- the rules that are made have the names of the ports, and are for the address
  names_made :
      (ip : Text) (plain : List RuleData) (rules : List SecurityRule)
      → Pairwise (IsRuleOf around.constants ip around.constants.internet) (inbound plain) rules
      → All (λ p. Member (inbound_rule_name job.vm_name p) (map (λ rule. rule.name) rules)) plain
        × All (λ rule. rule.destination_address_prefix ≡ ip) rules
  unfolding inbound named_rule
  names_made ip [] [] h = (tt, tt)
  names_made ip [] (rule ∷ rules) h = absurd (h tt)
  names_made ip (p ∷ plain) [] h = absurd (h tt)
  names_made ip (p ∷ plain) (rule ∷ rules) (made, h) =
      let (members, destinations) = names_made ip plain rules h in
      (
        (
          inl (sym (made.4 ∙ inbound_name job.vm_name p rule.priority)),
          All-map_of (λ q. Member (inbound_rule_name job.vm_name q) (map (λ rule. rule.name) rules))
              (λ q.
                Member (inbound_rule_name job.vm_name q)
                  (rule.name ∷ map (λ rule. rule.name) rules))
              plain (λ q m. inr m) members,
        ),
        (made.5, destinations),
      )

  supported : (plain : List RuleData) → All IsSupported (inbound plain)
  unfolding inbound
  supported [] = tt
  supported (p ∷ plain) = (tt, supported plain)

  -- the ports are opened to one address, and their rules are then for it
  opened_lem :
      (plain : List RuleData) (ip : Text) (h : History) (in_use : List SecurityRule)
      → Accepts z job.group_name subnets_nsg
      → z.security_rules (list_security_rules job.group_name subnets_nsg ∷ h) ≡ ok in_use
      → (k : History) × (open_to r z around d provider job vm_nsg
            (map (named_rule job.vm_name) plain)
            ip
            h
          ≡ (ok tt, k))
        × All (λ p. IsFor job.group_name subnets_nsg ip k (inbound_rule_name job.vm_name p)) plain
  unfolding open_to inbound
  opened_lem plain ip h in_use accepts listed =
      let (rules, run, made, ascend, fresh) =
        create_network_security_group_rules_lem r z around.constants job.group_name subnets_nsg ip
          around.constants.internet accepts (inbound plain) (some 1000) in_use h (supported plain)
          listed in
      let (members, destinations) = names_made ip plain rules made in
      let h1 = list_security_rules job.group_name subnets_nsg ∷ h in
      (
        puts job.group_name subnets_nsg rules h1,
        run,
        All-map_of (λ q. Member (inbound_rule_name job.vm_name q) (map (λ rule. rule.name) rules))
            (λ q.
              IsFor job.group_name subnets_nsg ip (puts job.group_name subnets_nsg rules h1)
                (inbound_rule_name job.vm_name q))
            plain
            (λ q m.
              puts-IsFor job.group_name subnets_nsg ip (inbound_rule_name job.vm_name q) rules h1
                destinations (inl m))
            members,
      )

  -- Where the ports are opened to the address of one NIC and then to that of another, every put is
  -- accepted and the rules in use can be listed, both openings succeed. After the first one there is a
  -- rule for each port, for the first address. After the second one the rule of that same name is for the
  -- second address: a put replaces the rule of its name, so that the first NIC has lost its rules.
  pub inbound_rules_collide :
      (plain : List RuleData) (first second : Text) (h : History)
      (in_use : History → List SecurityRule)
      → Accepts z job.group_name subnets_nsg
      → ((k : History)
          → z.security_rules (list_security_rules job.group_name subnets_nsg ∷ k) ≡ ok (in_use k))
      → (k : History) × (l : History) × (open_to r z around d provider job vm_nsg
            (map (named_rule job.vm_name) plain)
            first
            h
          ≡ (ok tt, k))
        × (open_to r z around d provider job vm_nsg (map (named_rule job.vm_name) plain) second k
            ≡ (ok tt, l))
        × All
            (λ p. IsFor job.group_name subnets_nsg first k (inbound_rule_name job.vm_name p))
            plain
        × All
            (λ p. IsFor job.group_name subnets_nsg second l (inbound_rule_name job.vm_name p))
            plain
  inbound_rules_collide plain first second h in_use accepts listed =
      let (k, opened, fors) = opened_lem plain first h (in_use h) accepts (listed h) in
      let (l, opened', fors') = opened_lem plain second k (in_use k) accepts (listed k) in
      (k, l, opened, opened', fors, fors')
