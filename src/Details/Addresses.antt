-- ===== src/Details/Addresses.antt =====
-- What the details of a VM say of its addresses.
use azure_shell.Prelude.{◌≡◌, refl, List, [], ◌∷◌, All, ⊤}
use azure_shell.Text.{Text, text}
use azure_shell.Errors.{Result, ok, err}
use azure_shell.Cloud.{Azure, History}
use azure_shell.Cloud.Objects.{Nic, IpConfiguration, Vm, NicReference}
use azure_shell.Effects.{M, bind_result, ◌>>=◌, pure, call, collect}
use azure_shell.Effects.Retry.{Retrying}
use azure_shell.SecurityGroups.{first_configuration}
use azure_shell.Details.{
  NetworkInterface, current_interface, interface_of, get_vm_network_data, public_properties,
  get_name_from_resource_id,
}

-- the code returns only what satisfies `P`
abbrev pub Returns : {A : Type 0} → (A → Type 0) → Result A → Type 0
Returns P (ok a) = P a
Returns P (err e) = ⊤

pub Returns-bind :
    {A B : Type 0} (P : A → Type 0) (Q : B → Type 0) (x : Result A × History) (f : A → M B)
    → Returns P x.0
    → ((a : A) (h : History) → P a → Returns Q (f a h).0)
    → Returns Q (bind_result x f).0
Returns-bind P Q (ok a, h) f p g = g a h p
Returns-bind P Q (err e, h) f p g = tt

pub Returns-any : {A : Type 0} (x : Result A) → Returns (λ a. ⊤) x
Returns-any (ok a) = tt
Returns-any (err e) = tt

-- without a public address
abbrev pub HasNoPublicIp : NetworkInterface → Type 0
HasNoPublicIp i = i.public_ip_address ≡ text ""

module _ (r : Retrying) (z : Azure) (group : Text) where
  interface_of_lem :
      (nic_name : Text) (h : History) → Returns HasNoPublicIp (interface_of r z group nic_name h).0
  unfolding interface_of current_interface ◌>>=◌ pure
  interface_of_lem nic_name h =
      Returns-bind (λ (nic : Nic). ⊤) HasNoPublicIp (call _ z.nic h) _ (Returns-any _)
        (λ nic h _.
          Returns-bind (λ (c : IpConfiguration). ⊤) HasNoPublicIp (first_configuration nic h) _
            (Returns-any _)
            (λ configuration h _.
              Returns-bind (λ a. ⊤) HasNoPublicIp
                (public_properties r z group nic_name configuration.public_ip_address h) _
                (Returns-any _) (λ more h _. refl)))

  collect_lem :
      (references : List NicReference) (h : History)
      → Returns
          (All HasNoPublicIp)
          (collect references
            (λ reference. interface_of r z group (get_name_from_resource_id reference.id))
            h).0
  unfolding collect ◌>>=◌ pure
  collect_lem [] h = tt
  collect_lem (reference ∷ references) h =
      Returns-bind HasNoPublicIp (All HasNoPublicIp)
        (interface_of r z group (get_name_from_resource_id reference.id) h) _
        (interface_of_lem (get_name_from_resource_id reference.id) h)
        (λ i h p.
          Returns-bind (All HasNoPublicIp) (All HasNoPublicIp) (collect references _ h) _
            (collect_lem references h) (λ is h ps. (p, ps)))

  -- The details of a VM give every NIC an empty public address, also where Azure has one: the
  -- description of the NIC is built before the address is read.
  pub get_vm_network_data-HasNoPublicIp :
      (vm : Vm) (h : History) → Returns (All HasNoPublicIp) (get_vm_network_data r z vm group h).0
  unfolding get_vm_network_data
  get_vm_network_data-HasNoPublicIp vm h = collect_lem vm.network_interfaces h
