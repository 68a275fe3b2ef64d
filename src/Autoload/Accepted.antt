-- ===== src/Autoload/Accepted.antt =====
-- What a cloud provider resource that is accepted has been found to have.
use azure_shell.Prelude.{◌≡◌, refl, Bool, true, false, List, [], ◌∷◌, All, ⊤, Bool-cases, inl, inr}
use azure_shell.Text.{Text, is_empty}
use azure_shell.Errors.{Result, ok, err}
use azure_shell.Cloud.{Azure, History}
use azure_shell.Cloud.Objects.{Subnet, Vnet}
use azure_shell.Effects.{M, bind_result, ◌>>=◌, pure, raise}
use azure_shell.Effects.Retry.{Retrying}
use azure_shell.Autoload.{
  validate_cidr_format, validate_cidrs, validate_additional_mgmt_networks, validate_region,
  get_inventory, is_in, unlisted_cidrs, require_listed, validate_networks_in_use,
}

-- the code returns only if `P`
abbrev pub Needs : {A : Type 0} → Type 0 → Result A → Type 0
Needs P (ok a) = P
Needs P (err e) = ⊤

record IsGuarded {A : Type 0} (P : Type 0) (m : M A) : Type 0 where
  at : (h : History) → Needs P (m h).0

always : {A : Type 0} {P : Type 0} → P → (x : Result A) → Needs P x
always p (ok a) = p
always p (err e) = tt

module _ {A B : Type 0} (P : Type 0) where
  bound_first : (x : Result A × History) (f : A → M B) → Needs P x.0 → Needs P (bind_result x f).0
  bound_first (ok a, h) f p = always p (f a h).0
  bound_first (err e, h) f p = tt

  bound_rest :
      (x : Result A × History) (f : A → M B)
      → ((a : A) → IsGuarded P (f a))
      → Needs P (bind_result x f).0
  bound_rest (ok a, h) f p = (p a).at h
  bound_rest (err e, h) f p = tt

  IsGuarded-first : (m : M A) (f : A → M B) → IsGuarded P m → IsGuarded P (m >>= f)
  unfolding ◌>>=◌
  IsGuarded-first m f g = record { at = λ h. bound_first (m h) f (g.at h) }

  IsGuarded-rest : (m : M A) (f : A → M B) → ((a : A) → IsGuarded P (f a)) → IsGuarded P (m >>= f)
  unfolding ◌>>=◌
  IsGuarded-rest m f g = record { at = λ h. bound_rest (m h) f g }

both_need : {A : Type 0} (P Q : Type 0) (x : Result A) → Needs P x → Needs Q x → Needs (P × Q) x
both_need P Q (ok a) p q = (p, q)
both_need P Q (err e) p q = tt

validate_cidrs-Needs :
    (is_network : Text → Bool) (attribute : Text) (cidrs : List Text) (h : History)
    → Needs
        (All (λ cidr. validate_cidr_format is_network cidr ≡ true) cidrs)
        (validate_cidrs is_network attribute cidrs h).0
unfolding validate_cidrs pure raise
validate_cidrs-Needs is_network attribute [] h = tt
validate_cidrs-Needs is_network attribute (cidr ∷ cidrs) h =
    elim (Bool-cases (validate_cidr_format is_network cidr)) [
      | inl e ↦
          rw e (both_need _ _ _ (always refl _) (validate_cidrs-Needs is_network attribute cidrs h))
      | inr e ↦ rw e tt
    ]

module _ (r : Retrying) (z : Azure) where
  validate_region-Needs :
      (region : Text) (h : History)
      → Needs (is_empty region ≡ false) (validate_region r z region h).0
  unfolding validate_region raise
  validate_region-Needs [] h = tt
  validate_region-Needs (c ∷ region) h = anything _
    where
      anything : (x : Result ⊤) → Needs (false ≡ false) x
      anything (ok a) = refl
      anything (err e) = tt

  module _ (is_network : Text → Bool) (region group vm_size : Text) (additional : List Text) where
    inventory : M ⊤
    inventory = get_inventory r z is_network region group vm_size additional

    inventory_region : IsGuarded (is_empty region ≡ false) inventory
    unfolding inventory get_inventory
    inventory_region =
        IsGuarded-first _ (validate_region r z region) _
          (record { at = validate_region-Needs region })

    inventory_networks :
        IsGuarded (All (λ cidr. validate_cidr_format is_network cidr ≡ true) additional) inventory
    unfolding inventory get_inventory validate_additional_mgmt_networks
    inventory_networks = IsGuarded-rest _ _ _ (λ _. IsGuarded-rest _ _ _ (λ _.
        IsGuarded-rest _ _ _ (λ _. IsGuarded-rest _ _ _ (λ _. IsGuarded-rest _ _ _ (λ _.
          IsGuarded-rest _ _ _ (λ _.
            IsGuarded-rest _ _ _
              (λ _. record { at = validate_cidrs-Needs is_network _ additional })))))))

  -- An autoload that returns has found a region that is not empty, and every additional management
  -- network in the form that is asked for: accepted by `netaddr`, with a slash.
  pub get_inventory_accepts :
      (is_network : Text → Bool) (region group vm_size : Text) (additional : List Text)
      (h : History)
      → Needs
          ((is_empty region ≡ false)
            × All (λ cidr. validate_cidr_format is_network cidr ≡ true) additional)
          (get_inventory r z is_network region group vm_size additional h).0
  unfolding inventory
  get_inventory_accepts is_network region group vm_size additional h =
      both_need _ _ _ ((inventory_region is_network region group vm_size additional).at h)
        ((inventory_networks is_network region group vm_size additional).at h)

module _ (joined : List Text → Text) (vnet : Vnet) (networks : List Text) where
  require_listed-Needs :
      (subnets : List Subnet) (h : History)
      → Needs
          (All (λ s. is_in s.address_prefix networks ≡ true) subnets)
          (require_listed joined vnet.name (unlisted_cidrs networks subnets) h).0
  unfolding require_listed unlisted_cidrs pure raise
  require_listed-Needs [] h = tt
  require_listed-Needs (s ∷ subnets) h = elim (Bool-cases (is_in s.address_prefix networks)) [
    | inl e ↦ rw e (both_need _ _ _ (always refl _) (require_listed-Needs subnets h))
    | inr e ↦ rw e tt
  ]

  -- The check of the networks in use returns only where each of them has the form that is asked for and
  -- every subnet of the network has a CIDR among them.
  pub validate_networks_in_use_accepts :
      (is_network : Text → Bool) (h : History)
      → Needs
          (All (λ cidr. validate_cidr_format is_network cidr ≡ true) networks
            × All (λ s. is_in s.address_prefix networks ≡ true) vnet.subnets)
          (validate_networks_in_use is_network joined vnet networks h).0
  unfolding validate_networks_in_use
  validate_networks_in_use_accepts is_network h =
      both_need _ _ _
        ((IsGuarded-first _ _ _ (record { at = validate_cidrs-Needs is_network _ networks })).at h)
        ((IsGuarded-rest _ _ _ (λ _. record { at = require_listed-Needs vnet.subnets })).at h)
