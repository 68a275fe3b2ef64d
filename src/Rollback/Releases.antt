-- ===== src/Rollback/Releases.antt =====
-- The calls of a rollback.
use azure_shell.Prelude.{◌≡◌, refl, true, false, Option, none, some, List}
use azure_shell.Text.{Text}
use azure_shell.Cloud.{
  Azure, Call, delete_vm, delete_nic, delete_ip, list_nsgs, delete_nsg, delete_security_rule,
}
use azure_shell.Cloud.Objects.{AllocationMethod, other_text}
use azure_shell.Effects.{call}
use azure_shell.Effects.Retry.{Retrying, retry5}
use azure_shell.Effects.Emits.{
  Emits, Emits-pure, Emits-raise, Emits-call, Emits-bind, Emits-for_each, Emits-retry5,
  Emits-weaken,
}
use azure_shell.Networks.{
  is_static_allocation, to_azure_type, remove_nic, remove_ip,
  delete_nsg_artifacts_associated_with_vm,
}
use azure_shell.Networks.Allocation.{is_static_allocation-to_azure_type}
use azure_shell.Networks.Artifacts.{DeletesArtifacts, delete_nsg_artifacts-Emits}
use azure_shell.Deletion.{remove_vm}
use azure_shell.Rollback.{
  get_ip_from_interface_name, remove_interface, release_static, rollback_deployed_resources,
}

-- calls that delete the VM, NICs and public addresses of a resource group, or artifacts of the VM
abbrev pub RollsBack : Text → Text → Call → Type 0
RollsBack group vm_name (delete_vm g name) = (g ≡ group) × (name ≡ vm_name)
RollsBack group vm_name (delete_nic g name) = g ≡ group
RollsBack group vm_name (delete_ip g name) = g ≡ group
RollsBack group vm_name c = DeletesArtifacts group vm_name c

of_artifacts :
    (group vm_name : Text) (c : Call) → DeletesArtifacts group vm_name c → RollsBack group vm_name c
of_artifacts group vm_name (list_nsgs g) p = p
of_artifacts group vm_name (delete_nsg g name) p = p
of_artifacts group vm_name (delete_security_rule g nsg name) p = p
of_artifacts group vm_name _ p = absurd p

module _ (r : Retrying) (z : Azure) (group vm_name : Text) where
  retried-Emits :
      (c : Call)
      → RollsBack group vm_name c
      → Emits (RollsBack group vm_name) (retry5 r (call c z.done))
  retried-Emits c p =
      Emits-retry5 (RollsBack group vm_name) r (call c z.done)
        (Emits-call (RollsBack group vm_name) c z.done p)

  remove_interface-Emits :
      (name : Option Text) → Emits (RollsBack group vm_name) (remove_interface r z group name)
  unfolding remove_interface remove_nic remove_ip
  remove_interface-Emits none = Emits-raise (RollsBack group vm_name) _
  remove_interface-Emits (some name) =
      Emits-bind (RollsBack group vm_name) _ _ (retried-Emits (delete_nic group name) refl)
        (λ _. retried-Emits (delete_ip group (get_ip_from_interface_name name)) refl)

  release_static-Emits :
      (reservation_id : Text) (method : AllocationMethod) (ips : List Text)
      → is_static_allocation method ≡ false
      → Emits (RollsBack group vm_name) (release_static r z reservation_id method ips)
  unfolding release_static
  release_static-Emits reservation_id method ips e = rw e (Emits-pure (RollsBack group vm_name) tt)

  remove_vm-Emits : Emits (RollsBack group vm_name) (remove_vm r z group vm_name)
  unfolding remove_vm
  remove_vm-Emits = retried-Emits (delete_vm group vm_name) (refl, refl)

  -- With the attribute, in place of the Azure type, as its allocation method, where the attribute is one
  -- for which the type is static, and whatever Azure answers, a rollback deletes the VM, NICs, public
  -- addresses and artifacts, and never releases private addresses.
  pub rollback_never_releases :
      (interfaces : List (Option Text)) (attribute : Text) (ips : List Text) (reservation_id : Text)
      → is_static_allocation (to_azure_type attribute) ≡ true
      → Emits (RollsBack group vm_name) (
          rollback_deployed_resources r z group interfaces vm_name
            (other_text attribute)
            ips
            reservation_id)
  unfolding rollback_deployed_resources
  rollback_never_releases interfaces attribute ips reservation_id e =
      let P = RollsBack group vm_name in
      let artifacts = delete_nsg_artifacts_associated_with_vm r z group vm_name in
      let not_static = is_static_allocation-to_azure_type attribute e in
      Emits-bind P _ _ remove_vm-Emits λ _.
        Emits-bind P _ _
          (Emits-for_each P interfaces (remove_interface r z group) remove_interface-Emits)
          λ _.
            Emits-bind P _ _
              (release_static-Emits reservation_id (other_text attribute) ips not_static)
              λ _.
                Emits-weaken (DeletesArtifacts group vm_name) P artifacts
                  (of_artifacts group vm_name) (delete_nsg_artifacts-Emits r z group vm_name)
