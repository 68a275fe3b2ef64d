-- ===== src/Deployment/Nics.antt =====
-- The loop that creates the NICs of a VM.
use azure_shell.Prelude.{
  ℕ, suc, ◌≤◌, ◌≡◌, refl, sym, ap, ◌∙◌, Option, none, some, ◌⊎◌, inl, inr, map, append_assoc,
  append-nil, All, subst, List, [], ◌∷◌, ◌++◌, length, arith, ⊤,
}
use azure_shell.Text.{Text}
use azure_shell.Errors.{Error, Result, ok, err}
use azure_shell.Models.{RuleData}
use azure_shell.Cloud.{Azure, History}
use azure_shell.Cloud.Objects.{IpConfiguration, Nic, Nsg}
use azure_shell.Effects.{M, bind_result, ◌>>=◌, pure, raise, attempt}
use azure_shell.Effects.Retry.{Retrying}
use azure_shell.NicRequests.{NicRequest}
use azure_shell.SecurityGroups.{first_of, first_configuration}
use azure_shell.Deployment.{DeploymentModel, CloudProviderModel, DeployData}
use azure_shell.Deployment.Steps.{
  Surroundings, Tracked, create_requested_nic, open_to, create_nics, after_nic, after_rules,
}

-- `None` in place of an exception: as many were made as were asked for, and otherwise at most as many
abbrev pub Counts : Option Error → ℕ → ℕ → Type 0
Counts none asked made = made ≡ asked
Counts (some e) asked made = made ≤ asked

-- the first configuration of the NIC has the address
abbrev pub HasAddress : Nic × Text → Type 0
HasAddress (nic, ip) =
    (c : IpConfiguration) × (cs : List IpConfiguration) × (nic.ip_configurations ≡ c ∷ cs)
    × (c.private_ip_address ≡ ip)

-- what the loop leaves: the NICs, or the exception
abbrev pub ending : List Nic → Option Error → Result (List Nic)
ending nics none = ok nics
ending nics (some e) = err e

module _ (r : Retrying) (z : Azure) (around : Surroundings) (d : DeploymentModel)
    (provider : CloudProviderModel) (job : DeployData) (vm_nsg : Nsg) (rules : List RuleData) where
  abbrev pub loop : List Text → List Nic → List (Option NicRequest) → M (Tracked (List Nic))
  loop = create_nics r z around d provider job vm_nsg rules

  abbrev pub make : Option NicRequest → M (Nic × Text)
  make = create_requested_nic r z around d provider job vm_nsg rules

  abbrev pub open_ports : Text → M ⊤
  open_ports = open_to r z around d provider job vm_nsg rules

  -- The loop as the source has it, from one history to another, with the NICs that it makes, each with
  -- its address, and the exception that ends it, if any: for each request the NIC is created and then
  -- the ports are opened to it, until one of these raises. A NIC to which the ports cannot be opened has
  -- been made.
  abbrev pub Runs :
      List (Option NicRequest) → History → List (Nic × Text) → Option Error → History → Type 0
  Runs [] h [] out l = (out ≡ none) × (h ≡ l)
  Runs [] h (_ ∷ _) out l = ⊥
  Runs (request ∷ requests) h [] out l =
      (e : Error) × (make request h ≡ (err e, l)) × (out ≡ some e)
  Runs (request ∷ requests) h ((nic, ip) ∷ made) out l =
      (k : History) × (make request h ≡ (ok (nic, ip), k))
      × (((e : Error) × (open_ports ip k ≡ (err e, l)) × (made ≡ []) × (out ≡ some e))
          ⊎ ((k' : History) × (open_ports ip k ≡ (ok tt, k')) × Runs requests k' made out l))

  -- the value `t` of the loop, and the history behind it, are those of a run
  abbrev pub IsRun :
      List Text
      → List Nic
      → List (Option NicRequest)
      → History
      → Result (Tracked (List Nic)) × History
      → Type 0
  IsRun ips nics requests h t =
      (made : List (Nic × Text)) × (out : Option Error) × (l : History) × Runs requests h made out l
      × (t ≡ (ok (ips ++ map (λ m. m.1) made, ending (nics ++ map (λ m. m.0) made) out), l))
      × Counts out (length requests) (length made)
      × All HasAddress made

  Counts-suc : (out : Option Error) (m n : ℕ) → Counts out m n → Counts out (suc m) (suc n)
  Counts-suc none m n h = ap suc h
  Counts-suc (some e) m n h = omega arith

  first_address :
      (nic : Nic) (configurations : List IpConfiguration) (h k : History) (m : Nic × Text)
      → nic.ip_configurations ≡ configurations
      → bind_result (first_of configurations h) (λ c l. (ok (nic, c.private_ip_address), l))
        ≡ (ok m, k)
      → HasAddress m
  unfolding first_of raise pure
  first_address nic [] h k m e f = cc
  first_address nic (c ∷ cs) h k m e f = subst HasAddress (ok_pair f) (c, cs, e, refl)
    where
      ok_pair :
          {x y : Nic × Text} {a b : History}
          → ◌≡◌ {A = Result (Nic × Text) × History} (ok x, a) (ok y, b)
          → x ≡ y
      ok_pair g = cc

  made_address :
      (answer : Result Nic × History) (k : History) (m : Nic × Text)
      → bind_result answer (λ nic l.
        bind_result (first_of nic.ip_configurations l) (λ c l. (ok (nic, c.private_ip_address), l)))
        ≡ (ok m, k)
      → HasAddress m
  made_address (ok nic, h) k m e = first_address nic nic.ip_configurations h k m refl e
  made_address (err x, h) k m e = cc

  make-HasAddress :
      (request : Option NicRequest) (h k : History) (m : Nic × Text)
      → make request h ≡ (ok m, k)
      → HasAddress m
  unfolding create_requested_nic ◌>>=◌ first_configuration pure raise
  make-HasAddress none h k m e = cc
  make-HasAddress (some request) h k m e = made_address _ k m e

  -- Creating the NICs of a VM, one for each request, does what the loop of the source does, from the
  -- addresses and the NICs so far. In every case it leaves the addresses so far followed by those of all
  -- the NICs that were made, each the private address of the first configuration of its NIC, also where
  -- an exception ends the loop. Without one it gives the NICs so far followed by those that were made,
  -- which are as many as were asked for; with one it keeps the exception, and at most as many were made.
  pub create_nics_lem :
      (ips : List Text) (nics : List Nic) (requests : List (Option NicRequest)) (h : History)
      → IsRun ips nics requests h (loop ips nics requests h)
  unfolding create_nics ◌>>=◌ attempt pure
  create_nics_lem ips nics [] h = (
    [],
    none,
    h,
    (refl, refl),
    sym (λ i. (ok (append-nil ips i, ok (append-nil nics i)), h)),
    refl,
    tt,
  )
  create_nics_lem ips nics (request ∷ requests) h =
      go (make request h) refl
        (λ nic ip k. create_nics_lem (ips ++ ip ∷ []) (nics ++ nic ∷ []) requests k)
    where
      opened :
          (nic : Nic) (ip : Text) (k : History) (x : Result ⊤ × History)
          → make request h ≡ (ok (nic, ip), k)
          → open_ports ip k ≡ x
          → ((k : History)
              → IsRun
                  (ips ++ ip ∷ [])
                  (nics ++ nic ∷ [])
                  requests
                  k
                  (loop (ips ++ ip ∷ []) (nics ++ nic ∷ []) requests k))
          → IsRun ips nics (request ∷ requests) h (
              after_rules r z around d provider job vm_nsg rules
                (ips ++ ip ∷ [])
                x.0
                (loop (ips ++ ip ∷ []) (nics ++ nic ∷ []) requests)
                x.1)
      opened nic ip k (ok _, k') e f next =
          let (made, out, l, runs, t, counted, addressed) = next k' in
          (
            (nic, ip) ∷ made,
            out,
            l,
            (k, e, inr (k', f, runs)),
            t ∙ (λ i. (
              ok (
                append_assoc ips (ip ∷ []) (map (λ m. m.1) made) i,
                ending (append_assoc nics (nic ∷ []) (map (λ m. m.0) made) i) out,
              ),
              l,
            )),
            Counts-suc out (length requests) (length made) counted,
            (make-HasAddress request h k (nic, ip) e, addressed),
          )
      opened nic ip k (err raised, k') e f next = (
        (nic, ip) ∷ [],
        some raised,
        k',
        (k, e, inl (raised, f, refl, refl)),
        refl,
        omega arith,
        (make-HasAddress request h k (nic, ip) e, tt),
      )

      go :
          (x : Result (Nic × Text) × History)
          → make request h ≡ x
          → ((nic : Nic) (ip : Text) (k : History)
              → IsRun
                  (ips ++ ip ∷ [])
                  (nics ++ nic ∷ [])
                  requests
                  k
                  (loop (ips ++ ip ∷ []) (nics ++ nic ∷ []) requests k))
          → IsRun ips nics (request ∷ requests) h (
              after_nic r z around d provider job vm_nsg rules ips x.0
                (λ nic ip. loop (ips ++ ip ∷ []) (nics ++ nic ∷ []) requests)
                x.1)
      go (ok (nic, ip), k) e next = opened nic ip k (open_ports ip k) e refl (next nic ip)
      go (err raised, k) e next = (
        [],
        some raised,
        k,
        (raised, e, refl),
        sym (λ i. (ok (append-nil ips i, err raised), k)),
        omega arith,
        tt,
      )
