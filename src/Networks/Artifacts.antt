-- ===== src/Networks/Artifacts.antt =====
-- What the clean-up of a VM's security rules deletes.
use azure_shell.Prelude.{◌≡◌, refl, Bool, true, false, List, if◌then◌else◌, keep, keep-All, ⊤}
use azure_shell.Text.{Text, contains}
use azure_shell.Cloud.{Azure, Call, delete_security_rule, list_nsgs, delete_nsg}
use azure_shell.Cloud.Objects.{SecurityRule, Nsg}
use azure_shell.Effects.{M, ◌>>=◌, pure, call, for_each}
use azure_shell.Effects.Retry.{Retrying}
use azure_shell.Effects.Emits.{
  Emits, Emits-pure, Emits-call, Emits-bind, Emits-for_each, Emits-for_each_of, Emits-retry5,
}
use azure_shell.SecurityGroups.{sandbox_nsg_name}
use azure_shell.Networks.{
  nsg_has, is_sandbox_nsg, rule_has, delete_artifacts_of, delete_nsg_artifacts_associated_with_vm,
}

-- calls that delete security groups named after a VM, and rules of the sandbox's group named after it
abbrev pub DeletesArtifacts : Text → Text → Call → Type 0
DeletesArtifacts group vm_name (list_nsgs g) = g ≡ group
DeletesArtifacts group vm_name (delete_nsg g name) = (g ≡ group) × (contains vm_name name ≡ true)
DeletesArtifacts group vm_name (delete_security_rule g nsg name) =
    (g ≡ group) × (contains sandbox_nsg_name nsg ≡ true) × (contains vm_name name ≡ true)
DeletesArtifacts group vm_name _ = ⊥

module _ (r : Retrying) (z : Azure) (group vm_name : Text) where
  Emits-when :
      (b : Bool) (m : M ⊤)
      → (b ≡ true → Emits (DeletesArtifacts group vm_name) m)
      → Emits (DeletesArtifacts group vm_name) (if b then m else pure tt)
  Emits-when true m k = k refl
  Emits-when false m k = Emits-pure (DeletesArtifacts group vm_name) tt

  delete_artifacts_of-Emits :
      (nsg : Nsg)
      → Emits (DeletesArtifacts group vm_name) (delete_artifacts_of r z group vm_name nsg)
  unfolding delete_artifacts_of nsg_has is_sandbox_nsg rule_has
  delete_artifacts_of-Emits nsg =
      let P = DeletesArtifacts group vm_name in
      let own = call (delete_nsg group nsg.name) z.done in
      let delete =
        λ (rule : SecurityRule). call (delete_security_rule group nsg.name rule.name) z.done in
      let rules = keep (rule_has vm_name) nsg.security_rules in
      Emits-bind P (if nsg_has vm_name nsg then own else pure tt)
        (λ _. if is_sandbox_nsg nsg then for_each rules delete else pure tt)
        (Emits-when (nsg_has vm_name nsg) own
          (λ e. Emits-call P (delete_nsg group nsg.name) z.done (refl, e)))
        (λ _. Emits-when (is_sandbox_nsg nsg) (for_each rules delete) λ s.
          Emits-for_each_of P (λ rule. rule_has vm_name rule ≡ true) rules delete
            (keep-All (rule_has vm_name) nsg.security_rules)
            λ rule e.
              Emits-call P (delete_security_rule group nsg.name rule.name) z.done (refl, s, e))

  -- Whatever Azure answers, the clean-up of a VM deletes only security groups whose names contain the
  -- VM's name, and, in the sandbox's security group, only rules whose names do.
  pub delete_nsg_artifacts-Emits :
      Emits
        (DeletesArtifacts group vm_name)
        (delete_nsg_artifacts_associated_with_vm r z group vm_name)
  unfolding delete_nsg_artifacts_associated_with_vm
  delete_nsg_artifacts-Emits =
      let P = DeletesArtifacts group vm_name in
      let rest = λ (nsgs : List Nsg). for_each nsgs (delete_artifacts_of r z group vm_name) in
      Emits-retry5 P r (call (list_nsgs group) z.nsgs >>= rest) (
        Emits-bind P (call (list_nsgs group) z.nsgs) rest
          (Emits-call P (list_nsgs group) z.nsgs refl)
          (λ nsgs.
            Emits-for_each P nsgs (delete_artifacts_of r z group vm_name)
              delete_artifacts_of-Emits))
