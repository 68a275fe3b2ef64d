-- ===== src/Sandbox/Rules.antt =====
-- What the rules of a sandbox's subnets let in.
use azure_shell.Prelude.{
  ℕ, ◌≤◌, ◌≡◌, refl, not, some, List, [], ◌∷◌, map, keep, arith, ◌⊎◌, inl, inr, Member, All,
}
use azure_shell.Text.{Text, text}
use azure_shell.Models.{RuleData}
use azure_shell.Cloud.{Azure, Call, list_security_rules, put_security_rule}
use azure_shell.Cloud.Objects.{SecurityRule}
use azure_shell.Effects.{◌>>=◌, ◌>>◌, pure, lift, call, for_each}
use azure_shell.Effects.Retry.{Retrying, retry5}
use azure_shell.Effects.Emits.{
  Emits, Emits-pure, Emits-call, Emits-bind, Emits-retry5, Emits-for_each, Emits-for_each_of,
}
use azure_shell.Priorities.{rule_priority_generator, next}
use azure_shell.Priorities.Fresh.{
  next_lem, rule_priority_generator-IsReady, candidate-rule_priority_generator,
}
use azure_shell.SecurityGroups.{
  create_network_security_group_rule, create_each, create_network_security_group_rules,
}
use azure_shell.SecurityGroups.Rules.{
  Constants, of_rule_data, prepare_security_group_rule, port_range, rule_name,
}
use azure_shell.Sandbox.{
  PrepareSubnet, first_prefix, create_one, allow_sandbox, deny_internet, allow_network,
  allow_management, deny_sandboxes, create_subnet_nsg_rules,
}

-- What a rule may be: it lets traffic in from the sandbox, the management network or an additional
-- management network; or it keeps traffic from the internet off a private subnet; or it keeps other
-- sandboxes off, behind the rules of the management networks.
abbrev pub MayPut :
    Constants → Text → Text → Text → List Text → List PrepareSubnet → SecurityRule → Type 0
MayPut k management_cidr vnet_cidr sandbox_cidr additional subnets rule =
    ((rule.access ≡ k.allow)
      × Member rule.source_address_prefix (sandbox_cidr ∷ management_cidr ∷ additional))
    ⊎ ((rule.access ≡ k.deny)
        × (rule.source_address_prefix ≡ k.internet)
        × Member rule.destination_address_prefix
            (map (λ s. s.cidr) (keep (λ s. not s.is_public) subnets)))
    ⊎ ((rule.access ≡ k.deny) × (rule.source_address_prefix ≡ vnet_cidr) × (4090 ≤ rule.priority))

-- calls that list the rules of one security group, or put an inbound rule of which `Q` holds
abbrev pub PutsInbound : (SecurityRule → Type 0) → Text → Text → Call → Type 0
PutsInbound Q group nsg (list_security_rules g n) = (g ≡ group) × (n ≡ nsg)
PutsInbound Q group nsg (put_security_rule g n rule) =
    (g ≡ group) × (n ≡ nsg) × (rule.direction ≡ text "Inbound") × Q rule
PutsInbound Q group nsg _ = ⊥

-- elements of the list over which a loop runs
All-Member_self {ℓ} :
    {A : Type ℓ} (xs ys : List A)
    → ((x : A) → Member x ys → Member x xs)
    → All (λ x. Member x xs) ys
All-Member_self xs [] f = tt
All-Member_self xs (y ∷ ys) f = (f y (inl refl), All-Member_self xs ys (λ x m. f x (inr m)))

Member-map {ℓ κ} :
    {A : Type ℓ} {B : Type κ} (f : A → B) (x : A) (xs : List A)
    → Member x xs
    → Member (f x) (map f xs)
Member-map f x [] m = absurd (m tt)
Member-map f x (y ∷ ys) (inl e) = inl (rw e refl)
Member-map f x (y ∷ ys) (inr m) = inr (Member-map f x ys m)

-- the rule that `create_one` puts, but for its priority
abbrev pub rule_of : Constants → RuleData → Text → Text → ℕ → SecurityRule
rule_of k d destination source priority = record {
  access = d.access;
  direction = text "Inbound";
  source_address_prefix = source;
  source_port_range = k.asterisk;
  name = rule_name d.name priority;
  destination_address_prefix = destination;
  destination_port_range = port_range d;
  priority = priority;
  protocol = d.protocol;
}

module _ (r : Retrying) (z : Azure) (k : Constants) (group nsg : Text)
    (Q : SecurityRule → Type 0) where
  put_prepared :
      (d : RuleData) (destination source : Text) (p : ℕ)
      → Q (rule_of k d destination source p)
      → Emits (PutsInbound Q group nsg) (
          lift (prepare_security_group_rule k (of_rule_data d) destination p source) >>= λ rule.
          call (put_security_rule group nsg rule) z.done)
  unfolding prepare_security_group_rule ◌>>=◌ lift
  put_prepared d destination source p q =
      Emits-call (PutsInbound Q group nsg)
        (put_security_rule group nsg (rule_of k d destination source p)) z.done
        (refl, refl, refl, q)

  create_one-Emits :
      (d : RuleData) (destination source : Text) (start : ℕ)
      → ((p : ℕ) → start ≤ p → Q (rule_of k d destination source p))
      → Emits (PutsInbound Q group nsg) (create_one r z k group nsg d destination source start)
  unfolding create_one create_network_security_group_rules create_each
      create_network_security_group_rule
  create_one-Emits d destination source start q =
      let P = PutsInbound Q group nsg in
      let g = λ (rules : List SecurityRule).
        rule_priority_generator (map (λ rule. rule.priority) rules) (some start) in
      let rest = λ (rules : List SecurityRule).
        create_each r z k group nsg destination source (of_rule_data d ∷ []) (g rules) in
      Emits-retry5 P r (call (list_security_rules group nsg) z.security_rules >>= rest) (
        Emits-bind P (call (list_security_rules group nsg) z.security_rules) rest
          (Emits-call P (list_security_rules group nsg) z.security_rules (refl, refl))
          λ rules.
            let used = map (λ (rule : SecurityRule). rule.priority) rules in
            let above = next_lem (g rules) (rule_priority_generator-IsReady used (some start)) in
            let p = (next (g rules)).0 in
            let put = λ (rule : SecurityRule). call (put_security_rule group nsg rule) z.done in
            let prepared = prepare_security_group_rule k (of_rule_data d) destination p source in
            Emits-bind P (retry5 r (lift prepared >>= put)) (λ _. pure tt)
              (Emits-retry5 P r (lift prepared >>= put) (
                put_prepared d destination source p (
                  q p (omega (arith, above, candidate-rule_priority_generator used (some start))))))
              (λ _. Emits-pure P tt))

module _ (r : Retrying) (z : Azure) (k : Constants) (group nsg sandbox_cidr : Text)
    (additional : List Text) (subnets : List PrepareSubnet) where
  module _ (management_cidr vnet_cidr : Text) where
    abbrev May : SecurityRule → Type 0
    May = MayPut k management_cidr vnet_cidr sandbox_cidr additional subnets

    abbrev Allowed : Call → Type 0
    Allowed = PutsInbound May group nsg

    allow_sandbox-Emits :
        (s : PrepareSubnet) → Emits Allowed (allow_sandbox r z k group nsg sandbox_cidr s)
    unfolding allow_sandbox
    allow_sandbox-Emits s =
        create_one-Emits r z k group nsg May _ s.cidr sandbox_cidr 2000
          (λ p le. inl (refl, inl refl))

    deny_internet-Emits :
        (s : PrepareSubnet)
        → Member s (keep (λ s. not s.is_public) subnets)
        → Emits Allowed (deny_internet r z k group nsg s)
    unfolding deny_internet
    deny_internet-Emits s m = create_one-Emits r z k group nsg May _ s.cidr k.internet 2000 (λ p le.
        inr (inl (refl, refl, Member-map (λ s. s.cidr) s (keep (λ s. not s.is_public) subnets) m)))

    allow_network-Emits :
        (a : Text)
        → Member a additional
        → Emits Allowed (allow_network r z k group nsg sandbox_cidr a)
    unfolding allow_network
    allow_network-Emits a m =
        create_one-Emits r z k group nsg May _ sandbox_cidr a 4000 (λ p le. inl (refl, inr (inr m)))

    allow_management-Emits :
        Emits Allowed (allow_management r z k group nsg sandbox_cidr management_cidr)
    unfolding allow_management
    allow_management-Emits =
        create_one-Emits r z k group nsg May _ sandbox_cidr management_cidr 4080
          (λ p le. inl (refl, inr (inl refl)))

    deny_sandboxes-Emits : Emits Allowed (deny_sandboxes r z k group nsg sandbox_cidr vnet_cidr)
    unfolding deny_sandboxes
    deny_sandboxes-Emits =
        create_one-Emits r z k group nsg May _ sandbox_cidr vnet_cidr 4090
          (λ p le. inr (inr (refl, refl, le)))

    all_rules-Emits : Emits Allowed (
        for_each subnets (allow_sandbox r z k group nsg sandbox_cidr)
        >> (for_each (keep (λ s. not s.is_public) subnets) (deny_internet r z k group nsg)
            >> (for_each additional (allow_network r z k group nsg sandbox_cidr)
                >> (allow_management r z k group nsg sandbox_cidr management_cidr
                    >> deny_sandboxes r z k group nsg sandbox_cidr vnet_cidr))))
    all_rules-Emits =
        let off = keep (λ (s : PrepareSubnet). not s.is_public) subnets in
        Emits-bind Allowed _ _
          (Emits-for_each Allowed subnets (allow_sandbox r z k group nsg sandbox_cidr)
            allow_sandbox-Emits)
          λ _.
            Emits-bind Allowed _ _
              (Emits-for_each_of Allowed (λ s. Member s off) off (deny_internet r z k group nsg)
                (All-Member_self off off (λ x m. m)) deny_internet-Emits)
              λ _.
                Emits-bind Allowed _ _
                  (Emits-for_each_of Allowed (λ a. Member a additional) additional
                    (allow_network r z k group nsg sandbox_cidr)
                    (All-Member_self additional additional (λ x m. m)) allow_network-Emits)
                  (λ _. Emits-bind Allowed _ _ allow_management-Emits (λ _. deny_sandboxes-Emits))

  -- Whatever Azure answers, the rules of a sandbox's subnets are inbound rules of the given security
  -- group, and each of them is as `MayPut` says: traffic is let in only from the sandbox's own CIDR,
  -- from the management network and from the additional management networks; what is kept off is the
  -- internet, from private subnets, and, with a priority of at least 4090, the network of all
  -- sandboxes.
  pub create_subnet_nsg_rules-Emits :
      (management_cidr vnet_cidr : Text) (management_rest vnet_rest : List Text)
      → Emits
          (PutsInbound
            (MayPut k management_cidr vnet_cidr sandbox_cidr additional subnets)
            group
            nsg)
          (create_subnet_nsg_rules r z k group nsg
            (management_cidr ∷ management_rest)
            (vnet_cidr ∷ vnet_rest)
            sandbox_cidr
            additional
            subnets)
  unfolding create_subnet_nsg_rules first_prefix ◌>>=◌ pure
  create_subnet_nsg_rules-Emits management_cidr vnet_cidr management_rest vnet_rest =
      all_rules-Emits management_cidr vnet_cidr
