-- ===== src/VirtualMachines/Requests.antt =====
-- What a request for a new VM asks for, whatever the attributes of the deployment are.
use azure_shell.Prelude.{
  ℕ, ◌≤◌, ◌≡◌, refl, true, false, Option, none, some, List, [], ◌∷◌, map, ⊤, arith, ◌⊎◌, inl, inr,
  Bool-cases,
}
use azure_shell.Text.{Text}
use azure_shell.Text.Decimal.{read_from}
use azure_shell.Errors.{ok}
use azure_shell.Cloud.{Azure, Call, get_image, put_vm}
use azure_shell.Cloud.Objects.{Nic, NicReference, OsDiskBody, Plan, VmBody}
use azure_shell.Effects.Emits.{
  Emits, Emits-call, Emits-bind, Emits-bind-lift, Emits-retry5, Emits-retry_retryable,
}
use azure_shell.Effects.Retry.{Retrying}
use azure_shell.VirtualMachines.{
  VmCredentials, is_number, prepare_os_disk, network_interfaces, create_vm,
  create_vm_from_custom_image, create_vm_from_marketplace,
}

-- The first NIC is the primary one, and the others follow in their order and are not.
abbrev pub IsInterfaces : List Nic → List NicReference → Type 0
IsInterfaces [] references = ⊥
IsInterfaces (nic ∷ nics) references =
    references
    ≡ record { id = nic.id; primary = true }
      ∷ map (λ other. record { id = other.id; primary = false }) nics

-- the size of the disk, in GB, for the attribute: the number that is written there, which is at most
-- 1023, or none where it is not written in digits
abbrev pub IsSized : Text → Option ℕ → Type 0
IsSized disk_size size =
    ((is_number disk_size ≡ true)
      × (size ≡ some (read_from 0 disk_size))
      × (read_from 0 disk_size ≤ 1023))
    ⊎ ((is_number disk_size ≡ false) × (size ≡ none))

-- the calls that creating a VM may make
abbrev pub OfCreation : Text → Text → List Nic → Text → Call → Type 0
OfCreation group vm_name nics disk_size (get_image _ _) = ⊤
OfCreation group vm_name nics disk_size (put_vm g n body) =
    (g ≡ group)
    × (n ≡ vm_name)
    × IsInterfaces nics body.network_interfaces
    × IsSized disk_size body.os_disk.disk_size_gb
OfCreation group vm_name nics disk_size _ = ⊥

prepare_os_disk-IsSized :
    (disk_type disk_size : Text) (disk : OsDiskBody)
    → prepare_os_disk disk_type disk_size ≡ ok disk
    → IsSized disk_size disk.disk_size_gb
unfolding prepare_os_disk
prepare_os_disk-IsSized disk_type disk_size disk h = elim (Bool-cases (is_number disk_size)) [
  | inl e ↦ inl (ground arith)
  | inr e ↦ inr (ground arith)
]

interfaces_lem :
    (nics : List Nic) (references : List NicReference)
    → network_interfaces nics ≡ ok references
    → IsInterfaces nics references
unfolding network_interfaces
interfaces_lem [] references h = cc
interfaces_lem (nic ∷ nics) references h = cc

module _ (r : Retrying) (z : Azure) (credentials : VmCredentials) (computer_name group : Text)
    (nics : List Nic) (vm_name vm_size disk_type disk_size : Text) where
  create :
      (body : VmBody)
      → IsInterfaces nics body.network_interfaces
      → IsSized disk_size body.os_disk.disk_size_gb
      → Emits (OfCreation group vm_name nics disk_size) (create_vm r z group vm_name body)
  unfolding create_vm
  create body i f =
      Emits-retry5 _ r _ (Emits-retry_retryable _ r _ (Emits-call _ _ _ (refl, refl, i, f)))

  -- Creating a VM from a custom image only looks up images and asks for the VM of the given name in
  -- the given group; each request has the given NICs in their order, the first of them and no other
  -- as the primary one. Where the size of the disk is written in digits, the request has that size, which
  -- is at most 1023 GB; otherwise it has no size.
  pub create_vm_from_custom_image-Emits :
      (image_name image_group : Text)
      → Emits (OfCreation group vm_name nics disk_size) (
          create_vm_from_custom_image r z credentials computer_name group nics vm_name vm_size
            disk_type disk_size image_name image_group)
  unfolding create_vm_from_custom_image
  create_vm_from_custom_image-Emits image_name image_group =
      Emits-bind-lift _ (network_interfaces nics) _ (λ references i.
        Emits-bind _ _ _ (Emits-call _ _ _ tt) (λ image.
          Emits-bind-lift _ (prepare_os_disk disk_type disk_size) _ (λ disk f.
            create _ (interfaces_lem nics references i)
              (prepare_os_disk-IsSized disk_type disk_size disk f))))

  -- Creating a VM from the marketplace does the same without a look-up of images.
  pub create_vm_from_marketplace-Emits :
      (offer publisher sku version : Text) (plan : Option Plan)
      → Emits (OfCreation group vm_name nics disk_size) (
          create_vm_from_marketplace r z credentials computer_name group nics vm_name vm_size
            disk_type disk_size offer publisher sku version plan)
  unfolding create_vm_from_marketplace
  create_vm_from_marketplace-Emits offer publisher sku version plan =
      Emits-bind-lift _ (network_interfaces nics) _ (λ references i.
        Emits-bind-lift _ (prepare_os_disk disk_type disk_size) _ (λ disk f.
          create _ (interfaces_lem nics references i)
            (prepare_os_disk-IsSized disk_type disk_size disk f)))
