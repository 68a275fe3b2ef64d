-- ===== src/SecurityGroups/Created.antt =====
-- What `create_network_security_group_rules` creates.
use azure_shell.Prelude.{
  ℕ, ◌≤◌, ◌≡◌, ◌≢◌, refl, sym, Option, List, [], ◌∷◌, map, arith, ⊤, All, Pairwise, length, subst,
}
use azure_shell.Text.{Text, text}
use azure_shell.Errors.{ok}
use azure_shell.Cloud.{Azure, Call, History, list_security_rules, put_security_rule}
use azure_shell.Cloud.Objects.{SecurityRule}
use azure_shell.Effects.{◌>>=◌, pure, lift, call}
use azure_shell.Effects.Retry.{Retrying, retry5_ok}
use azure_shell.Effects.Emits.{
  Emits, Emits-pure, Emits-call, Emits-bind, Emits-bind-lift, Emits-retry5,
}
use azure_shell.Priorities.{Generator, start_or_default, rule_priority_generator, next, priorities}
use azure_shell.Priorities.Fresh.{
  IsReady, AscendsFrom, next_lem, rule_priority_generator-IsReady, rule_priority_generator_lem,
  candidate-rule_priority_generator,
}
use azure_shell.SecurityGroups.Rules.{
  Constants, InboundRule, of_rule_data, of_port_data, unsupported, prepare_security_group_rule,
  prepare_security_group_rule_lem, port_range, port_data_range, rule_name,
}
use azure_shell.SecurityGroups.{
  create_network_security_group_rule, create_each, create_network_security_group_rules,
}

-- calls of one security group that put only inbound rules for `destination`, with priorities from
-- `start` on
abbrev pub PutsRules : Text → Text → Text → ℕ → Call → Type 0
PutsRules group nsg destination start (list_security_rules g n) = (g ≡ group) × (n ≡ nsg)
PutsRules group nsg destination start (put_security_rule g n rule) =
    (g ≡ group)
    × (n ≡ nsg)
    × (start ≤ rule.priority)
    × (rule.destination_address_prefix ≡ destination)
    × (rule.direction ≡ text "Inbound")
PutsRules group nsg destination start _ = ⊥

module _ (r : Retrying) (z : Azure) (k : Constants) (group nsg destination source : Text)
    (start : ℕ) where
  create_rule-Emits :
      (d : InboundRule) (priority : ℕ)
      → start ≤ priority
      → Emits
          (PutsRules group nsg destination start)
          (create_network_security_group_rule r z k group nsg d destination priority source)
  unfolding create_network_security_group_rule
  create_rule-Emits d priority le =
      Emits-retry5 (PutsRules group nsg destination start) r
        (lift (prepare_security_group_rule k d destination priority source) >>= λ rule.
          call (put_security_rule group nsg rule) z.done)
        (Emits-bind-lift (PutsRules group nsg destination start)
          (prepare_security_group_rule k d destination priority source)
          (λ rule. call (put_security_rule group nsg rule) z.done)
          λ rule e.
            let (p, q, i) =
              prepare_security_group_rule_lem k d destination priority source rule e in
            Emits-call (PutsRules group nsg destination start) (put_security_rule group nsg rule)
              z.done (refl, refl, omega arith, q, i))

  create_each-Emits :
      (l : List InboundRule) (g : Generator)
      → IsReady g
      → start ≤ g.candidate
      → Emits
          (PutsRules group nsg destination start)
          (create_each r z k group nsg destination source l g)
  unfolding create_each
  create_each-Emits [] g ready le = Emits-pure (PutsRules group nsg destination start) tt
  create_each-Emits (d ∷ l) g ready le =
      let (above, next_is, still) = next_lem g ready in
      Emits-bind (PutsRules group nsg destination start)
        (create_network_security_group_rule r z k group nsg d destination (next g).0 source)
        (λ _. create_each r z k group nsg destination source l (next g).1)
        (create_rule-Emits d (next g).0 (omega arith))
        (λ _. create_each-Emits l (next g).1 still (omega arith))

-- Whatever Azure answers, and however often calls are retried, `create_network_security_group_rules`
-- lists and puts rules of the given security group only, and each rule that it puts is an inbound
-- rule for the given destination with a priority of at least `start_from` (1000 if that is `None`).
pub create_network_security_group_rules-Emits :
    (r : Retrying) (z : Azure) (k : Constants) (group nsg : Text) (inbound : List InboundRule)
    (destination : Text) (start_from : Option ℕ) (source : Text)
    → Emits
        (PutsRules group nsg destination (start_or_default start_from))
        (create_network_security_group_rules r z k group nsg inbound destination start_from source)
unfolding create_network_security_group_rules
create_network_security_group_rules-Emits r z k group nsg inbound destination start_from source =
    let P = PutsRules group nsg destination (start_or_default start_from) in
    let g = λ (rules : List SecurityRule).
      rule_priority_generator (map (λ rule. rule.priority) rules) start_from in
    let rest = λ (rules : List SecurityRule).
      create_each r z k group nsg destination source inbound (g rules) in
    Emits-retry5 P r (call (list_security_rules group nsg) z.security_rules >>= rest) (
      Emits-bind P (call (list_security_rules group nsg) z.security_rules) rest
        (Emits-call P (list_security_rules group nsg) z.security_rules (refl, refl))
        λ rules.
          create_each-Emits r z k group nsg destination source (start_or_default start_from) inbound
            (g rules)
            (rule_priority_generator-IsReady (map (λ rule. rule.priority) rules) start_from)
            (omega (
              arith,
              candidate-rule_priority_generator (map (λ rule. rule.priority) rules) start_from,
            )))

abbrev pub IsSupported : InboundRule → Type 0
IsSupported unsupported = ⊥
IsSupported _ = ⊤

-- the history after putting rules in order
abbrev pub puts : Text → Text → List SecurityRule → History → History
puts group nsg [] h = h
puts group nsg (rule ∷ rules) h = puts group nsg rules (put_security_rule group nsg rule ∷ h)

-- every rule that is put is accepted
pub record Accepts (z : Azure) (group nsg : Text) : Type 0 where
  pub accepted :
      (rule : SecurityRule) (h : History) → z.done (put_security_rule group nsg rule ∷ h) ≡ ok tt

-- what a rule for inbound traffic says of the data that it is made from
abbrev pub IsRuleOf : Constants → Text → Text → InboundRule → SecurityRule → Type 0
IsRuleOf k destination source (of_rule_data d) rule =
    (rule.access ≡ d.access)
    × (rule.protocol ≡ d.protocol)
    × (rule.source_address_prefix ≡ source)
    × (rule.destination_port_range ≡ port_range d)
    × (rule.name ≡ rule_name d.name rule.priority)
    × (rule.destination_address_prefix ≡ destination)
    × (rule.source_port_range ≡ k.asterisk)
    × (rule.direction ≡ text "Inbound")
IsRuleOf k destination source (of_port_data d) rule =
    (rule.access ≡ text "Allow")
    × (rule.protocol ≡ d.protocol)
    × (rule.source_address_prefix ≡ d.source)
    × (rule.destination_port_range ≡ port_data_range d)
    × (rule.name ≡ rule_name d.name rule.priority)
    × (rule.destination_address_prefix ≡ destination)
    × (rule.source_port_range ≡ k.asterisk)
    × (rule.direction ≡ text "Inbound")
IsRuleOf k destination source unsupported rule = ⊥

prepared_rule :
    (k : Constants) (d : InboundRule) (destination : Text) (priority : ℕ) (source : Text)
    → IsSupported d
    → (rule : SecurityRule) × (prepare_security_group_rule k d destination priority source
        ≡ ok rule)
      × (rule.priority ≡ priority)
      × IsRuleOf k destination source d rule
unfolding prepare_security_group_rule
prepared_rule k (of_rule_data d) destination priority source s =
    (_, refl, refl, (refl, refl, refl, refl, refl, refl, refl, refl))
prepared_rule k (of_port_data d) destination priority source s =
    (_, refl, refl, (refl, refl, refl, refl, refl, refl, refl, refl))
prepared_rule k unsupported destination priority source s = absurd s

module _ (r : Retrying) (z : Azure) (k : Constants) (group nsg destination source : Text)
    (accepts : Accepts z group nsg) where
  pub create_rule_lem :
      (d : InboundRule) (priority : ℕ) (rule : SecurityRule) (h : History)
      → prepare_security_group_rule k d destination priority source ≡ ok rule
      → create_network_security_group_rule r z k group nsg d destination priority source h
        ≡ (ok tt, put_security_rule group nsg rule ∷ h)
  unfolding create_network_security_group_rule
  create_rule_lem d priority rule h e =
      retry5_ok r
        (lift (prepare_security_group_rule k d destination priority source) >>= λ rule.
          call (put_security_rule group nsg rule) z.done)
        h (put_security_rule group nsg rule ∷ h) tt
        (unfold ◌>>=◌ lift call in rw (e, accepts.accepted rule h))

  create_each_lem :
      (l : List InboundRule) (g : Generator) (h : History)
      → All IsSupported l
      → (rules : List SecurityRule) × (create_each r z k group nsg destination source l g h
          ≡ (ok tt, puts group nsg rules h))
        × (map (λ rule. rule.priority) rules ≡ priorities (length l) g)
        × Pairwise (IsRuleOf k destination source) l rules
  unfolding create_each priorities ◌>>=◌ pure
  create_each_lem [] g h s = ([], refl, refl, tt)
  create_each_lem (d ∷ l) g h s =
      let (rule, e, p, q) = prepared_rule k d destination (next g).0 source s.0 in
      let (rules, e', ps, qs) =
        create_each_lem l (next g).1 (put_security_rule group nsg rule ∷ h) s.1 in
      (rule ∷ rules, rw (create_rule_lem d (next g).0 rule h e) e', cc, (q, qs))

  -- If the rules in use can be listed, every put is accepted and the classes of the inbound rules are
  -- the supported ones, then one call lists the rules, and one call for each inbound rule puts it, in
  -- their order: it has the access, protocol, ports, source and name that its data says, and is for the
  -- destination. Their priorities begin at `start_from` or above, ascend by at
  -- least 5, and differ from those of all the rules in use.
  pub create_network_security_group_rules_lem :
      (inbound : List InboundRule) (start_from : Option ℕ) (in_use : List SecurityRule)
      (h : History)
      → All IsSupported inbound
      → z.security_rules (list_security_rules group nsg ∷ h) ≡ ok in_use
      → (rules : List SecurityRule) × (create_network_security_group_rules r z k group nsg inbound
            destination start_from source h
          ≡ (ok tt, puts group nsg rules (list_security_rules group nsg ∷ h)))
        × Pairwise (IsRuleOf k destination source) inbound rules
        × AscendsFrom (start_or_default start_from) (map (λ rule. rule.priority) rules)
        × All
            (λ p. All (λ v. p ≢ v) (map (λ rule. rule.priority) rules))
            (map (λ rule. rule.priority) in_use)
  unfolding create_network_security_group_rules
  create_network_security_group_rules_lem inbound start_from in_use h s e =
      let used = map (λ (rule : SecurityRule). rule.priority) in_use in
      let g = rule_priority_generator used start_from in
      let (rules, run, ps, qs) = create_each_lem inbound g (list_security_rules group nsg ∷ h) s in
      let (ascends, fresh) = rule_priority_generator_lem used start_from (length inbound) in
      (
        rules,
        retry5_ok r
            (call (list_security_rules group nsg) z.security_rules >>= λ rules.
              create_each r z k group nsg destination source inbound
                (rule_priority_generator (map (λ rule. rule.priority) rules) start_from))
            h (puts group nsg rules (list_security_rules group nsg ∷ h)) tt
            (unfold ◌>>=◌ call in rw e run),
        qs,
        subst (AscendsFrom (start_or_default start_from)) (sym ps) ascends,
        subst (λ vs. All (λ p. All (λ v. p ≢ v) vs) used) (sym ps) fresh,
      )
