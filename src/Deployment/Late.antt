-- ===== src/Deployment/Late.antt =====
-- What a deployment does behind the part that creates.
use azure_shell.Prelude.{◌≡◌, refl, Bool, false, Option, none, some, List, [], ◌∷◌}
use azure_shell.Text.{Text}
use azure_shell.Errors.{Error, ok}
use azure_shell.Cloud.{Azure, Call, History, write_message, get_nic, get_public_ip}
use azure_shell.Cloud.Objects.{IpConfiguration, Nic, Vm}
use azure_shell.Effects.{M, ◌>>=◌}
use azure_shell.Effects.Retry.{Retrying}
use azure_shell.Effects.Emits.{
  Grows, Emits, Emits-pure, Emits-raise, Emits-call, Emits-bind, Emits-if, Emits-retry5,
  Emits-collect,
}
use azure_shell.Cancellation.{check_cancelled, Emits-check_cancelled}
use azure_shell.Caches.{Cache}
use azure_shell.Credentials.{SshKey}
use azure_shell.Details
use azure_shell.NicRequests.{NicRequest}
use azure_shell.Networks.Creation.{get_public_ip_of}
use azure_shell.Preparation.{group_or_error}
use azure_shell.SecurityGroups.{first_of, first_configuration}
use azure_shell.VirtualMachines.{VmCredentials}
use azure_shell.VmDetails.{
  ImageIds, disk_type, get_vm_instance_data_for_market_place, get_vm_instance_data_for_custom_image,
  create_details,
}
use azure_shell.Waiter.{check_if_cancelled}
use azure_shell.Deployment.{DeploymentModel, CloudProviderModel, DeployData}
use azure_shell.Deployment.Steps.{Surroundings}
use azure_shell.Deployment.Flow.{
  Created, first_public, get_public_ip_address, public_ip_of_request, report_timeout, try_block,
  settle, describe, deploy_prepared,
}
use azure_shell.Deployment.Failures.{deployed}

-- messages to the reservation, and reading the NICs and the public addresses of its group
abbrev pub Looks : Text → Call → Type 0
Looks group (write_message id m) = id ≡ group
Looks group (get_nic g name) = g ≡ group
Looks group (get_public_ip g name) = g ≡ group
Looks group _ = ⊥

module _ (r : Retrying) (z : Azure) (group : Text) where
  P : Call → Type 0
  P = Looks group

  get_public_ip_of-Emits : (name : Text) → Emits P (get_public_ip_of r z group name)
  unfolding get_public_ip_of P
  get_public_ip_of-Emits name = Emits-retry5 P r _ (Emits-call P _ _ refl)

  first_of-Emits : (configurations : List IpConfiguration) → Emits P (first_of configurations)
  unfolding first_of
  first_of-Emits [] = Emits-raise P _
  first_of-Emits (c ∷ configurations) = Emits-pure P c

  first_configuration-Emits : (nic : Nic) → Emits P (first_configuration nic)
  unfolding first_configuration
  first_configuration-Emits nic = first_of-Emits nic.ip_configurations

  public_properties-Emits :
      (nic_name : Text) (id : Option Text)
      → Emits P (Details.public_properties r z group nic_name id)
  unfolding Details.public_properties
  public_properties-Emits nic_name none = Emits-pure P _
  public_properties-Emits nic_name (some id) =
      Emits-bind P _ _ (get_public_ip_of-Emits _) (λ ip. Emits-pure P _)

  get_vm_network_data-Emits : (vm : Vm) → Emits P (Details.get_vm_network_data r z vm group)
  unfolding Details.get_vm_network_data Details.interface_of P
  get_vm_network_data-Emits vm = Emits-collect P _ _ (λ reference.
      Emits-bind P _ _ (Emits-call P _ _ refl) (λ nic.
        Emits-bind P _ _ (first_configuration-Emits nic) (λ configuration.
          Emits-bind P _ _ (public_properties-Emits _ configuration.public_ip_address)
            (λ more. Emits-pure P _))))

  disk_type-Emits : (vm : Vm) → Emits P (disk_type vm)
  unfolding disk_type
  disk_type-Emits vm = Emits-if P _ _ _ (Emits-pure P _) (Emits-raise P _)

  group_or_error-Emits : (name : Option Text) → Emits P (group_or_error name)
  group_or_error-Emits none = Emits-raise P _
  group_or_error-Emits (some name) = Emits-pure P _

  create_details-Emits :
      (ids : ImageIds) (vm : Vm) (market_place : Bool)
      → Emits P (create_details r z ids group vm market_place)
  unfolding create_details get_vm_instance_data_for_market_place
      get_vm_instance_data_for_custom_image
  create_details-Emits ids vm market_place =
      Emits-bind P _ _
        (Emits-if P _ _ _ (Emits-bind P _ _ (disk_type-Emits vm) (λ disk. Emits-pure P _)) (
          Emits-bind P _ _ (group_or_error-Emits _)
            (λ name. Emits-bind P _ _ (disk_type-Emits vm) (λ disk. Emits-pure P _))))
        (λ instance_data. Emits-bind P _ _ (get_vm_network_data-Emits vm) (λ more. Emits-pure P _))

  first_public-Emits : (requests : List (Option NicRequest)) → Emits P (first_public requests)
  unfolding first_public
  first_public-Emits [] = Emits-pure P _
  first_public-Emits (none ∷ requests) = Emits-raise P _
  first_public-Emits (some request ∷ requests) =
      Emits-if P _ _ _ (Emits-pure P _) (first_public-Emits requests)

module _ (r : Retrying) (z : Azure) (around : Surroundings) (is_disk_mismatch : Text → Bool)
    (d : DeploymentModel) (provider : CloudProviderModel)
    (action : DeployData → List Nic → VmCredentials → M Vm) (job : DeployData) where
  Q : Call → Type 0
  Q = Looks job.group_name

  public_ip_of_request-Emits :
      (request : Option NicRequest)
      → Emits Q (public_ip_of_request r z around is_disk_mismatch d provider job.group_name request)
  unfolding public_ip_of_request get_public_ip_address Q P
  public_ip_of_request-Emits none = Emits-pure Q _
  public_ip_of_request-Emits (some request) =
      Emits-if Q _ _ _
        (Emits-bind Q _ _ (get_public_ip_of-Emits r z job.group_name _)
          (λ ip. Emits-bind Q _ _ (Emits-check_cancelled Q z) (λ _. Emits-pure Q _)))
        (Emits-pure Q _)

  report_timeout-Emits :
      (timeout : Option Error)
      → Emits Q
          (report_timeout r z around is_disk_mismatch d provider action job.group_name timeout)
  unfolding report_timeout Q
  report_timeout-Emits none = Emits-pure Q _
  report_timeout-Emits (some e) = Emits-call Q _ _ refl

  rest-Emits :
      (ips : List Text) (created : Created)
      → Emits Q (
          settle r z around is_disk_mismatch d provider action job (ips, ok created)
          >>= describe r z around is_disk_mismatch d provider action job)
  unfolding settle describe Q P
  rest-Emits ips (vm, credentials, timeout) =
      Emits-bind Q _ _ (Emits-bind Q _ _ (report_timeout-Emits timeout) (λ _. Emits-pure Q _))
        (λ created. Emits-bind Q _ _ (first_public-Emits r z job.group_name _) (λ request.
          Emits-bind Q _ _ (public_ip_of_request-Emits request) (λ ip.
            Emits-bind Q _ _ (create_details-Emits r z job.group_name _ _ _)
              (λ details. Emits-pure Q _))))

  -- Once the part of a deployment that creates has given a VM, the deployment only writes messages to
  -- the reservation and reads NICs and public addresses of its group, whatever Azure answers and
  -- however it ends: where it ends with an exception, as of a cancellation, nothing is rolled back.
  pub deploy_keeps :
      (pairs : Cache SshKey) (h k : History) (ips : List Text) (created : Created)
      → z.is_cancelled h ≡ false
      → try_block r z around is_disk_mismatch d provider action pairs job h
        ≡ (ok (ips, ok created), k)
      → Grows
          (Looks job.group_name)
          k
          (deployed r z around is_disk_mismatch d provider action pairs job h).1
  unfolding deploy_prepared ◌>>=◌ check_cancelled check_if_cancelled Q
  deploy_keeps pairs h k ips created c made = rw c (rw made ((rest-Emits ips created).at k))
