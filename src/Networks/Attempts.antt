-- ===== src/Networks/Attempts.antt =====
-- What the repeated attempts of `create_nic` do.
use azure_shell.Prelude.{
  ◌+◌, ◌≤◌, ◌≡◌, ◌∙◌, Bool, true, Option, none, some, List, [], ◌∷◌, length, arith,
}
use azure_shell.Text.{Text}
use azure_shell.Errors.{Error, Result, ok, err}
use azure_shell.Cloud.{Azure, Call, History, put_nic, checkout_ip}
use azure_shell.Cloud.Objects.{Nic, Subnet, AllocationMethod, static}
use azure_shell.Effects.{M, ◌>>=◌, pure, raise, call}
use azure_shell.Effects.Bounded.{
  MakesAtMost, MakesAtMost-pure, MakesAtMost-call, MakesAtMost-if, MakesAtMost-bind,
  MakesAtMost-retry5, MakesAtMost-retry_retryable,
}
use azure_shell.Effects.Retry.{
  Retrying, retry5_ok, retry_retryable, retry_if_retryable_error, retry_done, retry_again,
}
use azure_shell.Ips.{get_next_available_ip_from_cs_pool, get_pool_id, first_item}
use azure_shell.Networks.{is_static_allocation}
use azure_shell.Networks.Creation.{next_address, create_nic_once, create_nic}

MakesAtMost-first_item : (ips : List Text) → MakesAtMost 0 (first_item ips)
unfolding first_item pure raise
MakesAtMost-first_item [] = record { at = λ h. omega arith }
MakesAtMost-first_item (ip ∷ ips) = record { at = λ h. omega arith }

module _ (r : Retrying) (z : Azure) where
  MakesAtMost-next_address :
      (method : AllocationMethod) (reservation : Text) (subnet : Subnet)
      → MakesAtMost 1 (next_address r z method reservation subnet)
  unfolding next_address get_next_available_ip_from_cs_pool
  MakesAtMost-next_address method reservation subnet =
      MakesAtMost-if 1 (is_static_allocation method) _ _
        (MakesAtMost-bind 1 0 _ _
          (MakesAtMost-bind 1 0 _ _ (MakesAtMost-call _ _) MakesAtMost-first_item)
          (λ ip. MakesAtMost-pure 0 (some ip)))
        (MakesAtMost-pure 1 none)

  module _ (name group : Text) (public_ip : Option Text) (subnet : Subnet) (reservation : Text)
      (forwarding : Bool) (nsg : Option Text) where
    -- Creating a NIC makes at most 200 calls, whatever Azure and the pool answer: up to 5 times 20
    -- attempts, each with at most one address from the pool and one request for the NIC.
    pub create_nic_bound :
        (method : AllocationMethod) (h : History)
        → length (create_nic r z name group public_ip subnet method reservation forwarding nsg h).1
          ≤ 200 + length h
    unfolding create_nic create_nic_once
    create_nic_bound method h =
        (MakesAtMost-retry5 r 40 _ (
            MakesAtMost-retry_retryable r 2 _ (
              MakesAtMost-bind 1 1 _ _ (MakesAtMost-next_address method reservation subnet)
                (λ ip. MakesAtMost-call _ _)))).at
          h

    abbrev pub checkout : Call
    checkout = checkout_ip (get_pool_id reservation) reservation subnet.address_prefix

    -- the request for the NIC with the static address `ip`
    abbrev pub request : Text → Call
    request ip = put_nic group name (record {
      private_ip_allocation_method = static;
      private_ip_address = some ip;
      subnet = subnet;
      public_ip_address = public_ip;
      network_security_group = nsg;
      enable_ip_forwarding = forwarding;
    })

    once :
        (h : History) (ip : Text) (ips : List Text) (answer : Result Nic)
        → z.checked_out (checkout ∷ h) ≡ ok (ip ∷ ips)
        → z.nic (request ip ∷ checkout ∷ h) ≡ answer
        → create_nic_once r z name group public_ip subnet static reservation forwarding nsg h
          ≡ (answer, request ip ∷ checkout ∷ h)
    unfolding create_nic_once next_address get_next_available_ip_from_cs_pool is_static_allocation
        first_item ◌>>=◌ call pure
    once h ip ips answer e f = rw e (rw f)

    -- When the first request for a NIC with a static address is refused with a retryable error and
    -- the second is accepted, two addresses have been checked out of the pool, only the second
    -- belongs to the NIC, and the first has not been given back.
    pub create_nic_leaks :
        (h : History) (lost kept : Text) (ips more : List Text) (e : Error) (nic : Nic)
        → z.checked_out (checkout ∷ h) ≡ ok (lost ∷ ips)
        → z.nic (request lost ∷ checkout ∷ h) ≡ err e
        → retry_if_retryable_error e ≡ true
        → z.checked_out (checkout ∷ request lost ∷ checkout ∷ h) ≡ ok (kept ∷ more)
        → z.nic (request kept ∷ checkout ∷ request lost ∷ checkout ∷ h) ≡ ok nic
        → create_nic r z name group public_ip subnet static reservation forwarding nsg h
          ≡ (ok nic, request kept ∷ checkout ∷ request lost ∷ checkout ∷ h)
    unfolding create_nic retry_retryable
    create_nic_leaks h lost kept ips more e nic a b c d f =
        retry5_ok r (retry_retryable r attempt) h _ nic inner
      where
        attempt : M Nic
        attempt = create_nic_once r z name group public_ip subnet static reservation forwarding nsg

        inner :
            retry_retryable r attempt h
            ≡ (ok nic, request kept ∷ checkout ∷ request lost ∷ checkout ∷ h)
        inner =
            retry_again r 18 _ attempt h _ e (once h lost ips (err e) a b) c
            ∙ retry_done r 17 _ attempt _ _ nic (once _ kept more (ok nic) d f)
