-- ===== src/Tests/Machines.antt =====
-- Clean-ups, deletions of VMs and rollbacks.
use azure_shell.Prelude.{◌≡◌, refl, List, [], ◌∷◌, ◌++◌, All, some, true, false, map}
use mathlib.Core.List.{Perm}
use azure_shell.Text.{Text, text, eq}
use azure_shell.Text.Edit.{lower, lower_char}
use azure_shell.Cloud.{Call, remove_lock, delete_resource_group}
use azure_shell.Cloud.Objects.{other_text}
use azure_shell.Effects.Emits.{Emits}
use azure_shell.Networks.{is_static_allocation, to_azure_type}
use azure_shell.Ips.{sandbox_lock_key}
use azure_shell.Deletion.{Action, cleanup_connectivity, delete}
use azure_shell.Deletion.Cleanup.{
  Detaches, DeletesGroup, DeletesSubnets, Cleans, cleanup_connectivity_lem,
  cleanup_connectivity_order,
}
use azure_shell.Deletion.Machine.{OfMachine, delete-Emits}
use azure_shell.Rollback.{rollback_deployed_resources}
use azure_shell.Rollback.Releases.{RollsBack, rollback_never_releases}
use azure_shell.NicRequests.{NicRequest, ConnectSubnet, nic_requests}
use azure_shell.NicRequests.Connected.{IsOrdered, Requested, nic_requests_lem}
use azure_shell.Tests.Data.{subnet, retrying, group, vm_name, cloud, empty_cloud, parts_of}

abbrev management : Text
management = text "mgmt"

abbrev action : Action
action = (text "cleanupNetwork", text "a1")

cleanup_connectivity_example :
    Cleans retrying cloud management group []
      (cleanup_connectivity retrying cloud management group (action ∷ []) [])
      (some action)
unfolding eq text
cleanup_connectivity_example =
    cleanup_connectivity_lem retrying cloud management group (action ∷ []) []

cleanup_connectivity_order_example :
    (l1 l2 l3 : List Call) × ((cleanup_connectivity retrying cloud management group
        (action ∷ [])
        []).1
      ≡ remove_lock (sandbox_lock_key group)
        ∷ remove_lock group
        ∷ (l3 ++ (l2 ++ delete_resource_group group ∷ (l1 ++ []))))
    × All (Detaches management group) l1
    × All (DeletesGroup group) l2
    × All (DeletesSubnets management group) l3
unfolding eq text
cleanup_connectivity_order_example =
    cleanup_connectivity_order retrying cloud management group (action ∷ []) action [] refl

delete-Emits_example :
    Emits (OfMachine group vm_name) (delete retrying empty_cloud parts_of group vm_name)
delete-Emits_example = delete-Emits retrying empty_cloud parts_of group vm_name

rollback_never_releases_example : Emits (RollsBack group vm_name) (
    rollback_deployed_resources retrying cloud group
      (some vm_name ∷ [])
      vm_name
      (other_text (text "Cloudshell Allocation"))
      (text "10.0.0.5" ∷ [])
      (text "r1"))
rollback_never_releases_example =
    rollback_never_releases retrying cloud group vm_name (some vm_name ∷ [])
      (text "Cloudshell Allocation") (text "10.0.0.5" ∷ []) (text "r1")
      (unfold is_static_allocation to_azure_type eq text lower lower_char in refl)

-- two connections to one subnet, in the order in which they are asked for
abbrev second : ConnectSubnet
second = record {
  device_index = some 2;
  subnet_id = b'g' ∷ b'1' ∷ b'_' ∷ [];
  is_public_subnet = true;
}

abbrev connections : List ConnectSubnet
connections =
    record { device_index = some 1; subnet_id = b'g' ∷ b'1' ∷ b'_' ∷ []; is_public_subnet = false }
    ∷ []

nic_requests_example :
    (ordered : List ConnectSubnet) × (requests : List NicRequest) × (nic_requests group vm_name
        (second ∷ connections)
        (subnet ∷ [])
      ≡ map (λ request. some request) requests)
    × Perm ordered (second ∷ connections)
    × IsOrdered ordered
    × Requested vm_name (subnet ∷ []) 0 ordered requests
unfolding eq
nic_requests_example =
    nic_requests_lem group vm_name second connections (subnet ∷ [])
      ((subnet, refl), ((subnet, refl), tt))
