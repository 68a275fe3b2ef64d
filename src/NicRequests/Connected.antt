-- ===== src/NicRequests/Connected.antt =====
-- Which subnets the requests name.
use azure_shell.Prelude.{
  ℕ, suc, ◌≤◌, ◌≡◌, refl, false, none, some, List, [], ◌∷◌, map, first, arith, leb, All, All-map_of,
  Bool-cases, inl, inr, first-found, Member, ◌++◌,
}
use mathlib.Core.List.{Perm}
use mathlib.Core.List.Perm
use azure_shell.Text.Decimal.{show}
use azure_shell.Text.{Text, eq, eq_sound, contains}
use azure_shell.Cloud.Objects.{Subnet}
use azure_shell.NicRequests.{
  NicRequest, ConnectSubnet, sort_key, insert_by_index, sort_by_index, default_request, add_request,
  requests_from, nic_requests,
}

-- the subnet of a connection is there
abbrev pub IsThere : List Subnet → ConnectSubnet → Type 0
IsThere subnets c = (s : Subnet) × (first (λ subnet. eq subnet.name c.subnet_id) subnets ≡ some s)

-- One request for each connection, in order: for a subnet of the network that has the name that is asked
-- for, public as it is asked for, and with interfaces that are numbered from `i` on.
abbrev pub Requested : Text → List Subnet → ℕ → List ConnectSubnet → List NicRequest → Type 0
Requested vm_name subnets i [] [] = Unit
Requested vm_name subnets i (c ∷ cs) (request ∷ requests) =
    ((request.interface_name ≡ vm_name ++ b'-' ∷ show i)
      × Member request.subnet subnets
      × (request.subnet.name ≡ c.subnet_id)
      × (request.is_public ≡ c.is_public_subnet))
    × Requested vm_name subnets (suc i) cs requests
Requested vm_name subnets i _ _ = ⊥

requests_from_lem :
    (vm_name : Text) (subnets : List Subnet) (i : ℕ) (cs : List ConnectSubnet)
    → All (IsThere subnets) cs
    → Requested vm_name subnets i cs (requests_from vm_name subnets i cs)
unfolding requests_from add_request
requests_from_lem vm_name subnets i [] h = tt
requests_from_lem vm_name subnets i (c ∷ cs) ((s, found), h) =
    let (among, same) = first-found (λ subnet. eq subnet.name c.subnet_id) subnets s found in
    rw found (
      (refl, among, eq_sound s.name c.subnet_id same, refl),
      requests_from_lem vm_name subnets (suc i) cs h,
    )

default_missing :
    (vm_name group : Text) (subnets : List Subnet)
    → All (λ s. contains group s.name ≡ false) subnets
    → default_request vm_name group subnets ≡ none
unfolding default_request
default_missing vm_name group [] h = refl
default_missing vm_name group (s ∷ subnets) h = rw h.0 (default_missing vm_name group subnets h.1)

-- Without connections, and where no subnet has the group's name in its own, there is a request, but
-- it is `None`, and nothing has been raised.
pub nic_requests_missing :
    (group vm_name : Text) (subnets : List Subnet)
    → All (λ s. contains group s.name ≡ false) subnets
    → nic_requests group vm_name [] subnets ≡ none ∷ []
unfolding nic_requests
nic_requests_missing group vm_name subnets h = rw (default_missing vm_name group subnets h)

-- one connection comes after another
abbrev pub IsOrdered : List ConnectSubnet → Type 0
IsOrdered [] = Unit
IsOrdered (c ∷ cs) = All (λ d. sort_key c.device_index ≤ sort_key d.device_index) cs × IsOrdered cs

module _ (P : ConnectSubnet → Type 0) where
  insert_by_index-All :
      (c : ConnectSubnet) (l : List ConnectSubnet) → P c → All P l → All P (insert_by_index c l)
  unfolding insert_by_index
  insert_by_index-All c [] p h = (p, tt)
  insert_by_index-All c (d ∷ ds) p h =
      elim (Bool-cases (leb (sort_key c.device_index) (sort_key d.device_index))) [
        | inl e ↦ rw e (p, h)
        | inr e ↦ rw e (h.0, insert_by_index-All c ds p h.1)
      ]

  sort_by_index-All : (l : List ConnectSubnet) → All P l → All P (sort_by_index l)
  unfolding sort_by_index
  sort_by_index-All [] h = tt
  sort_by_index-All (c ∷ cs) h =
      insert_by_index-All c (sort_by_index cs) h.0 (sort_by_index-All cs h.1)

insert_by_index-IsOrdered :
    (c : ConnectSubnet) (l : List ConnectSubnet) → IsOrdered l → IsOrdered (insert_by_index c l)
unfolding insert_by_index
insert_by_index-IsOrdered c [] o = (tt, tt)
insert_by_index-IsOrdered c (d ∷ ds) o =
    elim (Bool-cases (leb (sort_key c.device_index) (sort_key d.device_index))) [
      | inl e ↦
          let le : sort_key c.device_index ≤ sort_key d.device_index = ground arith in
          rw e (
            (
              le,
              All-map_of (λ x. sort_key d.device_index ≤ sort_key x.device_index)
                  (λ x. sort_key c.device_index ≤ sort_key x.device_index) ds (λ x k. omega arith)
                  o.0,
            ),
            o,
          )
      | inr e ↦
          let ge : sort_key d.device_index ≤ sort_key c.device_index = ground arith in
          rw e (
            insert_by_index-All (λ x. sort_key d.device_index ≤ sort_key x.device_index) c ds ge
                o.0,
            insert_by_index-IsOrdered c ds o.1,
          )
    ]

sort_by_index-IsOrdered : (l : List ConnectSubnet) → IsOrdered (sort_by_index l)
unfolding sort_by_index
sort_by_index-IsOrdered [] = tt
sort_by_index-IsOrdered (c ∷ cs) =
    insert_by_index-IsOrdered c (sort_by_index cs) (sort_by_index-IsOrdered cs)

insert_by_index-Perm :
    (c : ConnectSubnet) (l : List ConnectSubnet) → Perm (insert_by_index c l) (c ∷ l)
unfolding insert_by_index
insert_by_index-Perm c [] = Perm.refl (c ∷ [])
insert_by_index-Perm c (d ∷ ds) =
    elim (Bool-cases (leb (sort_key c.device_index) (sort_key d.device_index))) [
      | inl e ↦ rw e (Perm.refl (c ∷ d ∷ ds))
      | inr e ↦ rw e (Perm.trans (Perm.cons d (insert_by_index-Perm c ds)) (Perm.swap c d ds))
    ]

sort_by_index-Perm : (l : List ConnectSubnet) → Perm (sort_by_index l) l
unfolding sort_by_index
sort_by_index-Perm [] = Perm.refl []
sort_by_index-Perm (c ∷ cs) =
    Perm.trans (insert_by_index-Perm c (sort_by_index cs)) (Perm.cons c (sort_by_index-Perm cs))

-- Where there are connections, and every subnet that they ask for is there, the connections can be put
-- in an order in which their device indices ascend, those without an index first, such that there is
-- one request for each connection, in that order. It is for a subnet of the network that has the name
-- asked for, it is public as asked for, and its interface has the name of the VM and the number of its
-- place, from 0.
pub nic_requests_lem :
    (group vm_name : Text) (c : ConnectSubnet) (cs : List ConnectSubnet) (subnets : List Subnet)
    → All (IsThere subnets) (c ∷ cs)
    → (ordered : List ConnectSubnet) × (requests : List NicRequest) × (nic_requests group vm_name
          (c ∷ cs)
          subnets
        ≡ map (λ request. some request) requests)
      × Perm ordered (c ∷ cs)
      × IsOrdered ordered
      × Requested vm_name subnets 0 ordered requests
unfolding nic_requests
nic_requests_lem group vm_name c cs subnets h =
    let l = sort_by_index (c ∷ cs) in
    (
      l,
      requests_from vm_name subnets 0 l,
      refl,
      sort_by_index-Perm (c ∷ cs),
      sort_by_index-IsOrdered (c ∷ cs),
      requests_from_lem vm_name subnets 0 l (sort_by_index-All (IsThere subnets) (c ∷ cs) h),
    )
