-- ===== src/Deletion/Cleanup.antt =====
-- `cleanup_connectivity`: its three steps, in their order, whatever fails.
use azure_shell.Prelude.{
  ◌≡◌, refl, ap, ◌∙◌, true, Option, none, some, List, [], ◌∷◌, ◌++◌, keep, keep-All, All, ⊤, first,
  ◌↔◌,
}
use azure_shell.Text.{Text, text, starts_with, eq}
use azure_shell.Errors.{Result, ok, err, ErrorKind, exception}
use azure_shell.Cloud.{
  Azure, Call, History, delete_resource_group, list_vnets, put_subnet, delete_subnet, remove_lock,
}
use azure_shell.Cloud.Objects.{Subnet, Vnet}
use azure_shell.Effects.{M, ◌>>=◌, pure, raise, call, attempt, for_each}
use azure_shell.Effects.Retry.{Retrying, retry5}
use azure_shell.Effects.Emits.{
  Grows, Emits, Emits-pure, Emits-raise, Emits-call, Emits-bind, Emits-for_each_of, Emits-retry5,
  Grows-retry5,
}
use azure_shell.Networks.{
  get_virtual_networks, get_sandbox_virtual_network, get_virtual_network_by_tag, update_subnet,
  remove_subnet,
}
use azure_shell.Ips.{sandbox_lock_key}
use azure_shell.Deletion.{
  find_sandbox_subnets, vnet_name, detached, Action, CleanupResult, add_message, is_success,
  run_all, remove_nsg_and_routetable_from_subnets, remove_resource_group, delete_sandbox_subnets,
  action_id_of, cleanup_action_id, cleanup_connectivity,
}

-- a subnet of the sandbox: its name begins with the name of the sandbox's resource group
abbrev pub OfSandbox : Text → Text → Type 0
OfSandbox group name = starts_with name group ≡ true

-- calls that read networks or detach a subnet of the sandbox
abbrev pub Detaches : Text → Text → Call → Type 0
Detaches management group (list_vnets g) = g ≡ management
Detaches management group (put_subnet g vnet name subnet) =
    (g ≡ management)
    × OfSandbox group name
    × (subnet.name ≡ name)
    × (subnet.network_security_group ≡ none)
    × (subnet.route_table ≡ none)
Detaches management group _ = ⊥

abbrev pub DeletesGroup : Text → Call → Type 0
DeletesGroup group (delete_resource_group g) = g ≡ group
DeletesGroup group _ = ⊥

-- calls that read networks or delete a subnet of the sandbox
abbrev pub DeletesSubnets : Text → Text → Call → Type 0
DeletesSubnets management group (list_vnets g) = g ≡ management
DeletesSubnets management group (delete_subnet g vnet name) =
    (g ≡ management) × OfSandbox group name
DeletesSubnets management group _ = ⊥

-- the step raised nothing
abbrev pub Succeeds : Result ⊤ → Type 0
Succeeds (ok _) = ⊤
Succeeds (err e) = ⊥

-- the messages of what was raised, in order
abbrev pub raised_messages : List (Result ⊤) → List Text
raised_messages [] = []
raised_messages (ok _ ∷ outcomes) = raised_messages outcomes
raised_messages (err e ∷ outcomes) = e.message ∷ raised_messages outcomes

abbrev added : List (Result ⊤) → List Text
added [] = []
added (outcome ∷ outcomes) = add_message outcome (added outcomes)

messages_lem : (outcomes : List (Result ⊤)) → added outcomes ≡ raised_messages outcomes
messages_lem [] = refl
messages_lem (ok _ ∷ outcomes) = messages_lem outcomes
messages_lem (err e ∷ outcomes) = ap (λ l. e.message ∷ l) (messages_lem outcomes)

is_success_lem :
    (outcomes : List (Result ⊤)) → (is_success (added outcomes) ≡ true) ↔ All Succeeds outcomes
is_success_lem [] = (λ e. tt, λ s. refl)
is_success_lem (ok _ ∷ outcomes) =
    (λ e. (tt, (is_success_lem outcomes).0 e), λ s. (is_success_lem outcomes).1 s.1)
is_success_lem (err e ∷ outcomes) = (λ f. cc, λ s. absurd s.0)

found_subnets-Emits :
    (P : Call → Type 0) (group : Text) (f : Subnet → M ⊤)
    → ((s : Subnet) → OfSandbox group s.name → Emits P (f s))
    → (vnet : Option Vnet)
    → Emits P (find_sandbox_subnets group vnet >>= λ subnets. for_each subnets f)
unfolding find_sandbox_subnets ◌>>=◌ pure raise
found_subnets-Emits P group f k none = Emits-raise P _
found_subnets-Emits P group f k (some vnet) =
    Emits-for_each_of P (λ s. OfSandbox group s.name)
      (keep (λ s. starts_with s.name group) vnet.subnets) f
      (keep-All (λ (s : Subnet). starts_with s.name group) vnet.subnets) k

module _ (r : Retrying) (z : Azure) (management group : Text) where
  -- a step over the subnets of the sandbox, of which each is handled by allowed calls
  over_subnets-Emits :
      (P : Call → Type 0) (f : Option Vnet → Subnet → M ⊤)
      → P (list_vnets management)
      → ((v : Option Vnet) (s : Subnet) → OfSandbox group s.name → Emits P (f v s))
      → Emits P (
          get_sandbox_virtual_network r z management >>= λ vnet.
          find_sandbox_subnets group vnet >>= λ subnets. for_each subnets (f vnet))
  unfolding get_sandbox_virtual_network get_virtual_networks
  over_subnets-Emits P f reads k =
      Emits-bind P (get_sandbox_virtual_network r z management)
        (λ vnet. find_sandbox_subnets group vnet >>= λ subnets. for_each subnets (f vnet))
        (Emits-bind P (retry5 r (call (list_vnets management) z.vnets))
          (λ vnets. pure (get_virtual_network_by_tag vnets (text "network_type") (text "sandbox")))
          (Emits-retry5 P r (call (list_vnets management) z.vnets)
            (Emits-call P (list_vnets management) z.vnets reads))
          (λ vnets.
            Emits-pure P (get_virtual_network_by_tag vnets (text "network_type") (text "sandbox"))))
        (λ vnet. found_subnets-Emits P group (f vnet) (k vnet) vnet)

  detach-Emits :
      Emits
        (Detaches management group)
        (remove_nsg_and_routetable_from_subnets r z management group)
  unfolding remove_nsg_and_routetable_from_subnets update_subnet
  detach-Emits =
      let P = Detaches management group in
      over_subnets-Emits P
        (λ vnet s.
          retry5 r (call (put_subnet management (vnet_name vnet) s.name (detached s)) z.done))
        refl
        λ vnet s o.
          let c = call (put_subnet management (vnet_name vnet) s.name (detached s)) z.done in
          Emits-retry5 P r c (
            Emits-call P (put_subnet management (vnet_name vnet) s.name (detached s)) z.done
              (refl, o, refl, refl, refl))

  delete_subnets-Emits :
      Emits (DeletesSubnets management group) (delete_sandbox_subnets r z management group)
  unfolding delete_sandbox_subnets remove_subnet
  delete_subnets-Emits =
      let P = DeletesSubnets management group in
      over_subnets-Emits P
        (λ vnet s. retry5 r (call (delete_subnet management (vnet_name vnet) s.name) z.done)) refl
        λ vnet s o.
          Emits-retry5 P r (call (delete_subnet management (vnet_name vnet) s.name) z.done)
            (Emits-call P (delete_subnet management (vnet_name vnet) s.name) z.done (refl, o))

  delete_group-Grows :
      (h : History)
      → Grows
          (DeletesGroup group)
          (delete_resource_group group ∷ h)
          (remove_resource_group r z group h).1
  unfolding remove_resource_group
  delete_group-Grows h =
      unfold call in
      Grows-retry5 (DeletesGroup group) r (call (delete_resource_group group) z.done) h
        (Emits-call (DeletesGroup group) (delete_resource_group group) z.done refl)

  -- the histories after the three steps
  abbrev pub after_detach : History → History
  after_detach h = (remove_nsg_and_routetable_from_subnets r z management group h).1

  abbrev pub after_group : History → History
  after_group h = (remove_resource_group r z group (after_detach h)).1

  abbrev pub after_subnets : History → History
  after_subnets h = (delete_sandbox_subnets r z management group (after_group h)).1

  -- the messages of the steps that raised
  abbrev pub messages : History → List Text
  messages h = add_message (remove_nsg_and_routetable_from_subnets r z management group h).0 (
      add_message (remove_resource_group r z group (after_detach h)).0
        (add_message (delete_sandbox_subnets r z management group (after_group h)).0 []))

  -- the run of a request with an action to clean up
  cleanup_runs :
      (actions : List Action) (a : Action) (h : History)
      → first (λ action. eq action.0 (text "cleanupNetwork")) actions ≡ some a
      → cleanup_connectivity r z management group actions h ≡ (
        ok (record { action_id = a.1; success = is_success (messages h); errors = messages h }),
        remove_lock (sandbox_lock_key group) ∷ remove_lock group ∷ after_subnets h,
      )
  unfolding cleanup_connectivity cleanup_action_id action_id_of run_all attempt ◌>>=◌ pure call
  cleanup_runs actions a h e = rw (e, action_id_of)

  -- what the three steps return or raise, each after the steps before it
  abbrev pub outcomes : History → List (Result ⊤)
  outcomes h =
      (remove_nsg_and_routetable_from_subnets r z management group h).0
      ∷ (remove_resource_group r z group (after_detach h)).0
      ∷ (delete_sandbox_subnets r z management group (after_group h)).0
      ∷ []

  -- what is reported of a request, by its first action to clean up
  abbrev pub Cleans : History → Result CleanupResult × History → Option Action → Type 0
  Cleans h x none = x ≡ (err (exception ErrorKind.stop_iteration (text "")), h)
  Cleans h x (some a) =
      (reported : CleanupResult) × (x.0 ≡ ok reported)
      × (x.1 ≡ remove_lock (sandbox_lock_key group) ∷ remove_lock group ∷ after_subnets h)
      × (reported.action_id ≡ a.1)
      × (reported.errors ≡ raised_messages (outcomes h))
      × ((reported.success ≡ true) ↔ All Succeeds (outcomes h))

  -- A request without an action `cleanupNetwork` ends with a `StopIteration`, before any call. For
  -- another one all three steps run, whatever they raise: the result has the id of the first such
  -- action and the messages of the exceptions, one for each step that raised and in their order; it says
  -- success exactly if no step raised; and the two locks of the sandbox are removed in the end.
  pub cleanup_connectivity_lem :
      (actions : List Action) (h : History)
      → Cleans h
          (cleanup_connectivity r z management group actions h)
          (first (λ action. eq action.0 (text "cleanupNetwork")) actions)
  unfolding cleanup_connectivity cleanup_action_id action_id_of ◌>>=◌ raise
  cleanup_connectivity_lem actions h =
      go (first (λ action. eq action.0 (text "cleanupNetwork")) actions) refl
    where
      go :
          (found : Option Action)
          → first (λ action. eq action.0 (text "cleanupNetwork")) actions ≡ found
          → Cleans h (cleanup_connectivity r z management group actions h) found
      go none e = rw e refl
      go (some a) e =
          let run = cleanup_runs actions a h e in
          (
            record { action_id = a.1; success = is_success (messages h); errors = messages h },
            ap (λ x. x.0) run,
            ap (λ x. x.1) run,
            refl,
            messages_lem (outcomes h),
            is_success_lem (outcomes h),
          )

  -- For a request with an action `cleanupNetwork`, and whatever Azure answers to any call, a clean-up first reads networks and detaches subnets of the
  -- sandbox, then asks for the deletion of the resource group, once or more, then reads networks and
  -- deletes subnets of the sandbox, and makes no other calls of Azure; a subnet of the sandbox is one
  -- whose name begins with the name of the resource group.
  pub cleanup_connectivity_order :
      (actions : List Action) (a : Action) (h : History)
      → first (λ action. eq action.0 (text "cleanupNetwork")) actions ≡ some a
      → (l1 l2 l3 : List Call) × ((cleanup_connectivity r z management group actions h).1
          ≡ remove_lock (sandbox_lock_key group)
            ∷ remove_lock group
            ∷ (l3 ++ (l2 ++ delete_resource_group group ∷ (l1 ++ h))))
        × All (Detaches management group) l1
        × All (DeletesGroup group) l2
        × All (DeletesSubnets management group) l3
  cleanup_connectivity_order actions a h e =
      let (l1, e1, p1) = detach-Emits.at h in
      let (l2, e2, p2) = delete_group-Grows (after_detach h) in
      let (l3, e3, p3) = delete_subnets-Emits.at (after_group h) in
      (
        l1,
        l2,
        l3,
        ap (λ x. x.1) (cleanup_runs actions a h e)
            ∙ ap (λ x. remove_lock (sandbox_lock_key group) ∷ remove_lock group ∷ x)
                (e3 ∙ ap (λ x. l3 ++ x) (e2 ∙ ap (λ x. l2 ++ delete_resource_group group ∷ x) e1)),
        p1,
        p2,
        p3,
      )
