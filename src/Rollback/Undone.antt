-- ===== src/Rollback/Undone.antt =====
-- What a rollback deletes when everything that it asks for is accepted, call by call.
use azure_shell.Prelude.{
  ◌≡◌, refl, Bool, true, false, some, List, [], ◌∷◌, ◌++◌, map, keep, if◌then◌else◌, Bool-cases,
  inl, inr,
}
use azure_shell.Text.{Text, text, eq, contains}
use azure_shell.Text.Edit.{lower}
use azure_shell.Errors.{ok}
use azure_shell.Cloud.{
  Azure, Call, History, delete_vm, delete_nic, delete_ip, list_nsgs, delete_nsg,
  delete_security_rule, release_ips,
}
use azure_shell.Cloud.Objects.{Nsg, SecurityRule, other_text}
use azure_shell.Effects.{◌>>=◌, pure, call, handle, for_each}
use azure_shell.Effects.Retry.{Retrying, retry5_ok}
use azure_shell.Ips
use azure_shell.Deletion.{remove_vm}
use azure_shell.Networks.{
  is_static_allocation, nsg_has, is_sandbox_nsg, rule_has, remove_nic, remove_ip,
  delete_artifacts_of, delete_nsg_artifacts_associated_with_vm,
}
use azure_shell.Rollback.{
  get_ip_from_interface_name, remove_interface, release_static, rollback_deployed_resources,
}

-- the histories behind each part, from the history before it
abbrev pub without_interfaces : Text → List Text → History → History
without_interfaces group [] h = h
without_interfaces group (name ∷ names) h =
    without_interfaces group names
      (delete_ip group (name ++ text "_PublicIP") ∷ delete_nic group name ∷ h)

abbrev pub without_addresses : Text → Text → List Text → History → History
without_addresses group attribute ips h =
    if eq (lower attribute) (text "static")
    then release_ips (group ++ text "-private-ips") group ips ∷ h
    else h

-- the rules whose names contain the name of the VM
abbrev pub without_rules : Text → Text → Text → List SecurityRule → History → History
without_rules group nsg vm_name [] h = h
without_rules group nsg vm_name (rule ∷ rules) h =
    without_rules group nsg vm_name rules
      (if contains vm_name rule.name then delete_security_rule group nsg rule.name ∷ h else h)

-- the groups whose names contain the name of the VM, and its rules in the group of the sandbox
abbrev pub without_artifacts : Text → Text → List Nsg → History → History
without_artifacts group vm_name [] h = h
without_artifacts group vm_name (nsg ∷ nsgs) h =
    let deleted = if contains vm_name nsg.name then delete_nsg group nsg.name ∷ h else h in
    without_artifacts group vm_name nsgs (
      if contains (text "NSG_sandbox_all_subnets_") nsg.name
      then without_rules group nsg.name vm_name nsg.security_rules deleted
      else deleted)

-- the history behind a whole rollback
abbrev pub undone : Text → List Text → Text → Text → List Text → List Nsg → History → History
undone group names vm_name attribute ips nsgs h = without_artifacts group vm_name nsgs (
    list_nsgs group
    ∷ without_addresses group attribute ips
        (without_interfaces group names (delete_vm group vm_name ∷ h)))

module _ (r : Retrying) (z : Azure) (group vm_name : Text)
    (done : (c : Call) (h : History) → z.done (c ∷ h) ≡ ok tt) where
  accepted : (c : Call) (h : History) → call c z.done h ≡ (ok tt, c ∷ h)
  unfolding call
  accepted c h = rw (done c h) refl

  for_each-interfaces :
      (names : List Text) (h : History)
      → for_each (map (λ name. some name) names) (remove_interface r z group) h
        ≡ (ok tt, without_interfaces group names h)
  unfolding for_each remove_interface remove_nic remove_ip get_ip_from_interface_name ◌>>=◌ pure
  for_each-interfaces [] h = refl
  for_each-interfaces (name ∷ names) h =
      rw
        (
          retry5_ok r (call (delete_nic group name) z.done) h (delete_nic group name ∷ h) tt
              (accepted (delete_nic group name) h),
          retry5_ok r (call (delete_ip group (name ++ text "_PublicIP")) z.done)
              (delete_nic group name ∷ h)
              (delete_ip group (name ++ text "_PublicIP") ∷ delete_nic group name ∷ h) tt
              (accepted (delete_ip group (name ++ text "_PublicIP")) (delete_nic group name ∷ h)),
        )
        (for_each-interfaces names
          (delete_ip group (name ++ text "_PublicIP") ∷ delete_nic group name ∷ h))

  release_static_lem :
      (attribute : Text) (ips : List Text) (h : History)
      → release_static r z group (other_text attribute) ips h
        ≡ (ok tt, without_addresses group attribute ips h)
  unfolding release_static is_static_allocation handle pure Ips.release Ips.get_pool_id
  release_static_lem attribute ips h = go (eq (lower attribute) (text "static"))
    where
      c : Call
      c = release_ips (group ++ text "-private-ips") group ips

      go :
          (b : Bool)
          → (if b then handle (call c z.done) (λ e. pure tt) else pure tt) h
            ≡ (ok tt, if b then c ∷ h else h)
      go true = rw (accepted c h) refl
      go false = refl

  for_each-rules :
      (nsg : Text) (rules : List SecurityRule) (h : History)
      → for_each
          (keep (rule_has vm_name) rules)
          (λ rule. call (delete_security_rule group nsg rule.name) z.done)
          h
        ≡ (ok tt, without_rules group nsg vm_name rules h)
  unfolding for_each rule_has ◌>>=◌ pure
  for_each-rules nsg [] h = refl
  for_each-rules nsg (rule ∷ rules) h = go (contains vm_name rule.name) (for_each-rules nsg rules)
    where
      go :
          (b : Bool)
          → ((k : History)
              → for_each
                  (keep (rule_has vm_name) rules)
                  (λ rule. call (delete_security_rule group nsg rule.name) z.done)
                  k
                ≡ (ok tt, without_rules group nsg vm_name rules k))
          → for_each
              (if b then rule ∷ keep (rule_has vm_name) rules else keep (rule_has vm_name) rules)
              (λ rule. call (delete_security_rule group nsg rule.name) z.done)
              h
            ≡ (
              ok tt,
              without_rules group nsg vm_name rules
                  (if b then delete_security_rule group nsg rule.name ∷ h else h),
            )
      go true rest =
          rw (accepted (delete_security_rule group nsg rule.name) h)
            (rest (delete_security_rule group nsg rule.name ∷ h))
      go false rest = rest h

  delete_artifacts_lem :
      (nsg : Nsg) (h : History)
      → delete_artifacts_of r z group vm_name nsg h
        ≡ (ok tt, without_artifacts group vm_name (nsg ∷ []) h)
  unfolding delete_artifacts_of nsg_has is_sandbox_nsg ◌>>=◌ pure
  delete_artifacts_lem nsg h = elim (Bool-cases (contains vm_name nsg.name)) [
    | inl e ↦
        rw (e, accepted (delete_nsg group nsg.name) h)
          (rest (contains (text "NSG_sandbox_all_subnets_") nsg.name)
            (delete_nsg group nsg.name ∷ h))
    | inr e ↦ rw e (rest (contains (text "NSG_sandbox_all_subnets_") nsg.name) h)
  ]
    where
      rest :
          (b : Bool) (k : History)
          → (if b
                then (for_each
                    (keep (rule_has vm_name) nsg.security_rules)
                    (λ rule. call (delete_security_rule group nsg.name rule.name) z.done))
                else pure tt)
              k
            ≡ (ok tt, if b then without_rules group nsg.name vm_name nsg.security_rules k else k)
      rest true k = for_each-rules nsg.name nsg.security_rules k
      rest false k = refl

  for_each-artifacts :
      (nsgs : List Nsg) (h : History)
      → for_each nsgs (delete_artifacts_of r z group vm_name) h
        ≡ (ok tt, without_artifacts group vm_name nsgs h)
  unfolding for_each ◌>>=◌ pure
  for_each-artifacts [] h = refl
  for_each-artifacts (nsg ∷ nsgs) h =
      rw (delete_artifacts_lem nsg h)
        (for_each-artifacts nsgs (without_artifacts group vm_name (nsg ∷ []) h))

  -- If every deletion is accepted and the security groups can be listed, a rollback returns, with exactly
  -- these calls: it deletes the VM, then each NIC and its public address, releases the private addresses
  -- where the attribute reads `static`, and deletes the security groups whose names contain the VM's and,
  -- in the group of the sandbox, the rules whose names do.
  pub rollback_lem :
      (names : List Text) (attribute : Text) (ips : List Text) (nsgs : List Nsg) (h : History)
      → ((k : History) → z.nsgs k ≡ ok nsgs)
      → rollback_deployed_resources r z group
          (map (λ name. some name) names)
          vm_name
          (other_text attribute)
          ips
          group
          h
        ≡ (ok tt, undone group names vm_name attribute ips nsgs h)
  unfolding rollback_deployed_resources remove_vm delete_nsg_artifacts_associated_with_vm ◌>>=◌
  rollback_lem names attribute ips nsgs h listed =
      let h1 = delete_vm group vm_name ∷ h in
      let h2 = without_interfaces group names h1 in
      let h3 = without_addresses group attribute ips h2 in
      rw
        (
          retry5_ok r (call (delete_vm group vm_name) z.done) h h1 tt
              (accepted (delete_vm group vm_name) h),
          for_each-interfaces names h1,
          release_static_lem attribute ips h2,
        )
        (retry5_ok r
          (call (list_nsgs group) z.nsgs >>= λ nsgs.
            for_each nsgs (delete_artifacts_of r z group vm_name))
          h3 (undone group names vm_name attribute ips nsgs h) tt
          (unfold ◌>>=◌ call in
            rw (listed (list_nsgs group ∷ h3)) (for_each-artifacts nsgs (list_nsgs group ∷ h3))))
