-- ===== src/Preparation/Subnets.antt =====
-- Which subnets the creation of a subnet touches.
use azure_shell.Prelude.{◌≡◌, refl, Option, none, some, first, first-found, Member, inl, inr, ◌⊎◌}
use azure_shell.Text.{Text, eq, eq_sound}
use azure_shell.Cloud.{Azure, Call, put_subnet, delete_subnet}
use azure_shell.Cloud.Objects.{Subnet, Vnet}
use azure_shell.Effects.Retry.{Retrying}
use azure_shell.Effects.Emits.{
  Emits, Emits-pure, Emits-raise, Emits-call, Emits-bind, Emits-if, Emits-handle, Emits-retry5,
  Emits-collect,
}
use azure_shell.Networks.{update_subnet, remove_subnet}
use azure_shell.Networks.Creation.{create_subnet}
use azure_shell.Preparation.{
  Libraries, group_or_error, get_resource_group_name, ids_of, detach_nsg, remove_stale,
  cleanup_stale_data, create_subnet_command, create_sandbox_subnet,
}

-- a subnet of the network, as it was read, that has the CIDR
abbrev pub IsStale : Vnet → Text → Text → Type 0
IsStale vnet cidr name =
    (s : Subnet) × Member s vnet.subnets × (s.name ≡ name) × (s.address_prefix ≡ cidr)

-- Calls that put the subnet asked for, or put or delete a subnet that has its CIDR, all in the given
-- network.
abbrev pub OfSubnet : Text → Vnet → Text → Text → Call → Type 0
OfSubnet group vnet cidr name (put_subnet g v n body) =
    (g ≡ group)
    × (v ≡ vnet.name)
    × (body.address_prefix ≡ cidr)
    × ((n ≡ name) ⊎ IsStale vnet cidr n)
OfSubnet group vnet cidr name (delete_subnet g v n) =
    (g ≡ group) × (v ≡ vnet.name) × IsStale vnet cidr n
OfSubnet group vnet cidr name _ = ⊥

module _ (r : Retrying) (z : Azure) (libraries : Libraries) (group : Text) (vnet : Vnet)
    (cidr name : Text) where
  P : Call → Type 0
  P = OfSubnet group vnet cidr name

  group_or_error-Emits : (found : Option Text) → Emits P (group_or_error found)
  group_or_error-Emits none = Emits-raise P _
  group_or_error-Emits (some g) = Emits-pure P g

  module _ (s : Subnet) (stale : IsStale vnet cidr s.name) (same : s.address_prefix ≡ cidr) where
    detach_nsg-Emits : (nsg : Option Text) → Emits P (detach_nsg r z libraries group vnet s nsg)
    unfolding detach_nsg update_subnet P
    detach_nsg-Emits none = Emits-pure P tt
    detach_nsg-Emits (some nsg) =
        Emits-retry5 P r _ (Emits-call P _ _ (refl, refl, same, inr stale))

    remove_one-Emits : Emits P (remove_stale r z libraries group vnet (some s))
    unfolding remove_stale remove_subnet get_resource_group_name P
    remove_one-Emits = Emits-bind P _ _ (detach_nsg-Emits s.network_security_group) (λ _.
        Emits-bind P _ _
          (Emits-collect P (ids_of s.ip_configurations) (get_resource_group_name libraries)
            (λ id. group_or_error-Emits (libraries.resource_group_of id)))
          (λ _. Emits-retry5 P r _ (Emits-call P _ _ (refl, refl, stale))))

  remove_stale-Emits :
      (found : Option Subnet)
      → first (λ s. eq s.address_prefix cidr) vnet.subnets ≡ found
      → Emits P (remove_stale r z libraries group vnet found)
  unfolding remove_stale
  remove_stale-Emits none e = Emits-pure P tt
  remove_stale-Emits (some s) e =
      let found = first-found (λ s. eq s.address_prefix cidr) vnet.subnets s e in
      let same = eq_sound s.address_prefix cidr found.1 in
      remove_one-Emits s (s, found.0, refl, same) same

  create_subnet_command-Emits :
      (nsg : Text) → Emits P (create_subnet_command r z libraries group vnet nsg cidr name)
  unfolding create_subnet_command create_subnet P
  create_subnet_command-Emits nsg =
      Emits-retry5 P r _ (Emits-call P _ _ (refl, refl, refl, inl refl))

  -- Creating a subnet of a sandbox, with the clean-up of what has its CIDR and the second attempt,
  -- whatever Azure answers: only subnets of the given network are put or deleted, each put one has
  -- the requested CIDR, and one under another name than the requested is put or deleted only if it
  -- was read in the network with the requested CIDR.
  pub create_sandbox_subnet-Emits :
      (nsg : Text)
      → Emits
          (OfSubnet group vnet cidr name)
          (create_sandbox_subnet r z libraries group vnet nsg cidr name)
  unfolding create_sandbox_subnet cleanup_stale_data P
  create_sandbox_subnet-Emits nsg = Emits-handle P _ _ (create_subnet_command-Emits nsg) (λ e.
      Emits-if P _ _ _
        (Emits-if P _ _ _
          (Emits-bind P _ _
            (remove_stale-Emits (first (λ s. eq s.address_prefix cidr) vnet.subnets) refl)
            (λ _. create_subnet_command-Emits nsg))
          (Emits-raise P e))
        (Emits-raise P e))
