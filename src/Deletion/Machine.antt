-- ===== src/Deletion/Machine.antt =====
-- `delete`: what it touches, and what it does with a NIC that has no IP configuration.
use azure_shell.Prelude.{
  ◌≡◌, refl, true, Option, none, some, List, [], ◌∷◌, ◌++◌, map, All, if◌then◌else◌, ⊤,
}
use azure_shell.Text.{Text, text, contains}
use azure_shell.Errors.{Error, ErrorKind, exception, Result, ok, err}
use azure_shell.Cloud.{
  Azure, Call, History, delete_security_rule, list_nsgs, delete_nsg, get_nic, delete_nic, delete_ip,
  get_vm, delete_vm, delete_managed_disk, delete_blob, release_ips,
}
use azure_shell.Cloud.Objects.{Nic, Vm, IpConfiguration}
use azure_shell.Effects.{
  M, ◌>>=◌, pure, raise, lift, call, handle, attempt, for_each, collect, bind_result,
}
use azure_shell.Effects.Retry.{Retrying, retry5, is_cloud_error}
use azure_shell.Effects.Emits.{
  Emits, Emits-pure, Emits-raise, Emits-lift, Emits-call, Emits-handle, Emits-attempt, Emits-if,
  Emits-bind, Emits-retry5, Emits-for_each, Emits-collect, Emits-weaken,
}
use azure_shell.SecurityGroups.{sandbox_nsg_name, first_of, first_configuration}
use azure_shell.Networks.{
  is_static_allocation, delete_nics, delete_ips, delete_nsg_artifacts_associated_with_vm,
}
use azure_shell.Networks.Artifacts.{DeletesArtifacts, delete_nsg_artifacts-Emits}
use azure_shell.Blobs.{parse_blob_url}
use azure_shell.Ips
use azure_shell.Deletion.{
  last_part, public_ip_names, static_private_ips, run_commands, remove_vm, remove_managed_disk,
  delete_vm_disk, delete_disk, disk_commands, find_vm, found_vm, try_release, delete, is_not_found,
}

abbrev pub no_configuration : Error
no_configuration = exception ErrorKind.index_error (text "list index out of range")

raises_anyway :
    {A : Type 0} (cs : List IpConfiguration) (m : M A) (f : IpConfiguration → A → A) (h : History)
    → m h ≡ (err no_configuration, h)
    → bind_result (first_of cs h) (λ c. m >>= λ ips. pure (f c ips)) ≡ (err no_configuration, h)
unfolding first_of raise pure ◌>>=◌
raises_anyway [] m f h e = refl
raises_anyway (c ∷ cs) m f h e = rw e

static_private_ips_raises :
    (front : List Nic) (nic : Nic) (back : List Nic) (h : History)
    → nic.ip_configurations ≡ []
    → static_private_ips (front ++ nic ∷ back) h ≡ (err no_configuration, h)
unfolding static_private_ips first_configuration ◌>>=◌
static_private_ips_raises [] nic back h e = rw e (unfold first_of raise in refl)
static_private_ips_raises (n ∷ front) nic back h e =
    raises_anyway n.ip_configurations (static_private_ips (front ++ nic ∷ back))
      (λ c ips.
        if is_static_allocation c.private_ip_allocation_method
        then c.private_ip_address ∷ ips
        else ips)
      h (static_private_ips_raises front nic back h e)

-- A VM with a NIC that has no IP configuration cannot be deleted: once the VM and its NICs are read,
-- `delete` raises an `IndexError` and makes no further call.
pub delete_needs_configurations :
    (r : Retrying) (z : Azure) (urlparse : Text → Text × Text) (group vm_name : Text) (vm : Vm)
    (front : List Nic) (nic : Nic) (back : List Nic) (h h' : History)
    → z.vm (get_vm group vm_name ∷ h) ≡ ok vm
    → collect
        (map (λ reference. last_part reference.id) vm.network_interfaces)
        (λ name. call (get_nic group name) z.nic)
        (get_vm group vm_name ∷ h)
      ≡ (ok (front ++ nic ∷ back), h')
    → nic.ip_configurations ≡ []
    → delete r z urlparse group vm_name h ≡ (err no_configuration, h')
unfolding delete ◌>>=◌ call
delete_needs_configurations r z urlparse group vm_name vm front nic back h h' read nics none_there =
    rw read (rw nics (rw (static_private_ips_raises front nic back h' none_there)))

-- calls in one resource group that read; that delete the VM, NICs, public addresses and disks; that
-- delete artifacts of the VM; or that release private addresses of the sandbox
abbrev pub OfMachine : Text → Text → Call → Type 0
OfMachine group vm_name (get_vm g name) = (g ≡ group) × (name ≡ vm_name)
OfMachine group vm_name (delete_vm g name) = (g ≡ group) × (name ≡ vm_name)
OfMachine group vm_name (get_nic g name) = g ≡ group
OfMachine group vm_name (delete_nic g name) = g ≡ group
OfMachine group vm_name (delete_ip g name) = g ≡ group
OfMachine group vm_name (delete_managed_disk g name) = g ≡ group
OfMachine group vm_name (delete_blob g storage container blob) = g ≡ group
OfMachine group vm_name (release_ips pool reservation ips) = reservation ≡ group
OfMachine group vm_name (list_nsgs g) = g ≡ group
OfMachine group vm_name (delete_nsg g name) = (g ≡ group) × (contains vm_name name ≡ true)
OfMachine group vm_name (delete_security_rule g nsg name) =
    (g ≡ group) × (contains sandbox_nsg_name nsg ≡ true) × (contains vm_name name ≡ true)
OfMachine group vm_name _ = ⊥

of_artifacts :
    (group vm_name : Text) (c : Call) → DeletesArtifacts group vm_name c → OfMachine group vm_name c
of_artifacts group vm_name (list_nsgs g) p = p
of_artifacts group vm_name (delete_nsg g name) p = p
of_artifacts group vm_name (delete_security_rule g nsg name) p = p
of_artifacts group vm_name _ p = absurd p

module _ (r : Retrying) (z : Azure) (urlparse : Text → Text × Text) (group vm_name : Text) where
  run_commands-Emits :
      (ms : List (M ⊤))
      → All (Emits (OfMachine group vm_name)) ms
      → Emits (OfMachine group vm_name) (run_commands ms)
  unfolding run_commands
  run_commands-Emits [] g = Emits-pure (OfMachine group vm_name) tt
  run_commands-Emits (m ∷ ms) g =
      let P = OfMachine group vm_name in
      let pass = λ (e : Error). if is_not_found e then pure tt else raise e in
      Emits-bind P (handle m pass) (λ _. run_commands ms)
        (Emits-handle P m pass g.0 (λ e.
          Emits-if P (is_not_found e) (pure tt) (raise e) (Emits-pure P tt) (Emits-raise P e)))
        (λ _. run_commands-Emits ms g.1)

  first_of-Emits : (cs : List IpConfiguration) → Emits (OfMachine group vm_name) (first_of cs)
  unfolding first_of
  first_of-Emits [] = Emits-raise (OfMachine group vm_name) no_configuration
  first_of-Emits (c ∷ cs) = Emits-pure (OfMachine group vm_name) c

  static_private_ips-Emits :
      (nics : List Nic) → Emits (OfMachine group vm_name) (static_private_ips nics)
  unfolding static_private_ips first_configuration
  static_private_ips-Emits [] = Emits-pure (OfMachine group vm_name) []
  static_private_ips-Emits (nic ∷ nics) =
      let P = OfMachine group vm_name in
      let keep_static = λ (c : IpConfiguration) (ips : List Text).
        if is_static_allocation c.private_ip_allocation_method
        then c.private_ip_address ∷ ips
        else ips in
      Emits-bind P (first_configuration nic)
        (λ c. static_private_ips nics >>= λ ips. pure (keep_static c ips))
        (first_of-Emits nic.ip_configurations)
        (λ c.
          Emits-bind P (static_private_ips nics) (λ ips. pure (keep_static c ips))
            (static_private_ips-Emits nics) (λ ips. Emits-pure P (keep_static c ips)))

  delete_disk-Emits :
      (vm : Vm) (vhd : Option Text)
      → Emits (OfMachine group vm_name) (delete_disk r z urlparse group vm vhd)
  unfolding delete_disk remove_managed_disk
  delete_disk-Emits vm (some uri) =
      let P = OfMachine group vm_name in
      Emits-bind P (lift (parse_blob_url urlparse uri))
        (λ url. call (delete_blob group url.storage_name url.container_name url.blob_name) z.done)
        (Emits-lift P (parse_blob_url urlparse uri))
        (λ url.
          Emits-call P (delete_blob group url.storage_name url.container_name url.blob_name) z.done
            refl)
  delete_disk-Emits vm none =
      let P = OfMachine group vm_name in
      let m = call (delete_managed_disk group vm.os_disk.name) z.done in
      Emits-if P vm.os_disk.managed_disk (retry5 r m) (raise _)
        (Emits-retry5 P r m (Emits-call P (delete_managed_disk group vm.os_disk.name) z.done refl))
        (Emits-raise P _)

  disk-Emits :
      (vm : Option Vm) → All (Emits (OfMachine group vm_name)) (disk_commands r z urlparse group vm)
  unfolding disk_commands delete_vm_disk
  disk-Emits none = tt
  disk-Emits (some vm) = (delete_disk-Emits vm vm.os_disk.vhd, tt)

  found_vm-Emits : (x : Result Vm) → Emits (OfMachine group vm_name) (found_vm x)
  unfolding found_vm
  found_vm-Emits (ok vm) = Emits-pure (OfMachine group vm_name) (some vm)
  found_vm-Emits (err e) =
      let P = OfMachine group vm_name in
      Emits-if P (is_cloud_error e.kind) (pure none) (raise e) (Emits-pure P none) (Emits-raise P e)

  find_vm-Emits : Emits (OfMachine group vm_name) (find_vm r z group vm_name)
  unfolding find_vm
  find_vm-Emits =
      let P = OfMachine group vm_name in
      let read = retry5 r (call (get_vm group vm_name) z.vm) in
      Emits-bind P (attempt read) found_vm
        (Emits-attempt P read (
          Emits-retry5 P r (call (get_vm group vm_name) z.vm)
            (Emits-call P (get_vm group vm_name) z.vm (refl, refl))))
        found_vm-Emits

  remove_vm-Emits : Emits (OfMachine group vm_name) (remove_vm r z group vm_name)
  unfolding remove_vm
  remove_vm-Emits =
      let P = OfMachine group vm_name in
      Emits-retry5 P r (call (delete_vm group vm_name) z.done)
        (Emits-call P (delete_vm group vm_name) z.done (refl, refl))

  -- one call for each name, all of them tried again together
  for_names-Emits :
      (c : Text → Call) (names : List Text)
      → ((name : Text) → OfMachine group vm_name (c name))
      → Emits (OfMachine group vm_name) (retry5 r (for_each names (λ name. call (c name) z.done)))
  for_names-Emits c names allowed =
      let P = OfMachine group vm_name in
      Emits-retry5 P r (for_each names (λ name. call (c name) z.done)) (
        Emits-for_each P names (λ name. call (c name) z.done)
          (λ name. Emits-call P (c name) z.done (allowed name)))

  commands-Emits :
      (names : List Text) (nics : List Nic) (vm : Option Vm)
      → All (Emits (OfMachine group vm_name)) (
          remove_vm r z group vm_name
          ∷ delete_nics r z group names
          ∷ delete_ips r z group (public_ip_names nics)
          ∷ disk_commands r z urlparse group vm)
  unfolding delete_nics delete_ips
  commands-Emits names nics vm = (
    remove_vm-Emits,
    (
      for_names-Emits (λ name. delete_nic group name) names (λ name. refl),
      (
        for_names-Emits (λ name. delete_ip group name) (public_ip_names nics) (λ name. refl),
        disk-Emits vm,
      ),
    ),
  )

  try_release-Emits :
      (ips : List Text) → Emits (OfMachine group vm_name) (try_release r z group ips)
  unfolding try_release Ips.release
  try_release-Emits [] = Emits-pure (OfMachine group vm_name) tt
  try_release-Emits (ip ∷ ips) =
      let P = OfMachine group vm_name in
      Emits-handle P (Ips.release z group (ip ∷ ips)) (λ e. pure tt)
        (Emits-call P (release_ips (Ips.get_pool_id group) group (ip ∷ ips)) z.done refl)
        (λ e. Emits-pure P tt)

  -- `delete` makes no call outside its resource group, deletes no other VM, and of security groups and
  -- rules only those that contain the VM's name, whatever Azure answers.
  pub delete-Emits : Emits (OfMachine group vm_name) (delete r z urlparse group vm_name)
  unfolding delete
  delete-Emits =
      let P = OfMachine group vm_name in
      let artifacts = delete_nsg_artifacts_associated_with_vm r z group vm_name in
      Emits-bind P (call (get_vm group vm_name) z.vm) _
        (Emits-call P (get_vm group vm_name) z.vm (refl, refl))
        λ machine.
          let names = map (λ reference. last_part reference.id) machine.network_interfaces in
          Emits-bind P (collect names (λ name. call (get_nic group name) z.nic)) _
            (Emits-collect P names (λ name. call (get_nic group name) z.nic)
              (λ name. Emits-call P (get_nic group name) z.nic refl))
            λ nics.
              Emits-bind P (static_private_ips nics) _ (static_private_ips-Emits nics)
                λ private_ips. Emits-bind P (find_vm r z group vm_name) _ find_vm-Emits λ vm.
                  Emits-bind P _ _
                    (run_commands-Emits
                      (remove_vm r z group vm_name
                        ∷ delete_nics r z group names
                        ∷ delete_ips r z group (public_ip_names nics)
                        ∷ disk_commands r z urlparse group vm)
                      (commands-Emits names nics vm))
                    λ _.
                      Emits-bind P artifacts (λ _. try_release r z group private_ips)
                        (Emits-weaken (DeletesArtifacts group vm_name) P artifacts
                          (of_artifacts group vm_name)
                          (delete_nsg_artifacts-Emits r z group vm_name))
                        (λ _. try_release-Emits private_ips)
