-- ===== src/Commands/Tables.antt =====
-- What the creation of route tables touches.
use azure_shell.Prelude.{
  ◌≡◌, refl, sym, ap, Bool, true, Option, none, some, List, ◌∷◌, first, Member, All-of_Member,
  first-found, subst, ◌∙◌,
}
use azure_shell.Text.{Text, text}
use azure_shell.Errors.{Result, ok, err}
use azure_shell.Cloud.{
  Azure, Call, History, write_message, list_vnets, put_route_table, get_route_table, get_subnet,
  put_subnet,
}
use azure_shell.Cloud.Objects.{Subnet, Vnet}
use azure_shell.Effects.{◌>>=◌, bind_result, pure, raise, call, for_each}
use azure_shell.Effects.Retry.{Retrying, retry5, retry5-gives}
use azure_shell.Effects.Emits.{
  Emits, Emits-pure, Emits-raise, Emits-call, Emits-bind, Emits-bind_of, Emits-bind-lift,
  Emits-for_each, Emits-for_each_of, Emits-retry5, Emits-retry_retryable,
}
use azure_shell.Tags.{try_find_tag}
use azure_shell.Deployment.{CloudProviderModel}
use azure_shell.ModelParser.{Attributes, convert_to_cloud_provider_resource_model}
use azure_shell.Networks.{
  get_virtual_network_by_tag, get_virtual_networks, get_sandbox_virtual_network, same_option,
}
use azure_shell.Networks.Creation
use azure_shell.Routes
use azure_shell.Routes.{RouteTableRequest, name_of_vnet}
use azure_shell.Commands.{cloud_provider, create_requested_table, create_route_tables}

-- the name of a network that Azure listed in the group, with the tag of a sandbox's network
abbrev pub IsSandbox : Azure → Text → Text → Type 0
IsSandbox z group name =
    (h : History) × (vnets : List Vnet) × (vnet : Vnet) × (z.vnets (list_vnets group ∷ h)
      ≡ ok vnets)
    × Member vnet vnets
    × (vnet.name ≡ name)
    × (same_option (try_find_tag vnet.tags (text "network_type")) (text "sandbox") ≡ true)

-- a subnet that a requested table lists
abbrev pub IsListed : List RouteTableRequest → Text → Type 0
IsListed tables name = (t : RouteTableRequest) × Member t tables × Member name t.subnets

-- the subnet that Azure answered when it was asked for this one, with the route table that Azure
-- answered when it was asked for a requested table that lists the subnet
abbrev pub IsRerouted : Azure → Text → Text → List RouteTableRequest → Text → Text → Subnet → Type 0
IsRerouted z group id tables v name body =
    (h : History) × (k : History) × (s : Subnet) × (table : Text) × (t : RouteTableRequest)
    × (z.subnet (get_subnet group v name ∷ h) ≡ ok s)
    × (z.route_table (get_route_table id t.name ∷ k) ≡ ok table)
    × Member t tables
    × Member name t.subnets
    × (body ≡ record s { route_table = some table })

-- calls for the requested tables, with the management group and the reservation
abbrev pub OfTables : Azure → Text → Text → List RouteTableRequest → Call → Type 0
OfTables z group id tables (write_message i m) = i ≡ id
OfTables z group id tables (list_vnets g) = g ≡ group
OfTables z group id tables (put_route_table g name routes) =
    (g ≡ id) × (t : RouteTableRequest) × Member t tables × (t.name ≡ name) × (t.routes ≡ routes)
OfTables z group id tables (get_route_table g name) =
    (g ≡ id) × (t : RouteTableRequest) × Member t tables × (t.name ≡ name)
OfTables z group id tables (get_subnet g v name) =
    (g ≡ group) × IsSandbox z group v × IsListed tables name
OfTables z group id tables (put_subnet g v name body) =
    (g ≡ group)
    × IsSandbox z group v
    × IsListed tables name
    × IsRerouted z group id tables v name body
OfTables z group id tables _ = ⊥

ok-inj : {A : Type 0} {a b : A} → ok a ≡ ok b → a ≡ b
ok-inj e = cc

-- a network that is found is one with the tag, among those that Azure listed
get_sandbox_virtual_network-IsSandbox :
    (r : Retrying) (z : Azure) (group : Text) (h : History) (vnet : Vnet)
    → (get_sandbox_virtual_network r z group h).0 ≡ ok (some vnet)
    → IsSandbox z group vnet.name
unfolding get_sandbox_virtual_network get_virtual_networks ◌>>=◌ pure get_virtual_network_by_tag
    call
get_sandbox_virtual_network-IsSandbox r z group h vnet =
    go (retry5 r (call (list_vnets group) z.vnets) h) (λ vnets.
      retry5-gives r (λ vnets. (k : History) × (z.vnets (list_vnets group ∷ k) ≡ ok vnets))
        (call (list_vnets group) z.vnets) (λ k x e. (k, e)) h vnets)
  where
    tagged : Vnet → Bool
    tagged v = same_option (try_find_tag v.tags (text "network_type")) (text "sandbox")

    go :
        (answer : Result (List Vnet) × History)
        → ((vnets : List Vnet)
            → answer.0 ≡ ok vnets
            → (k : History) × (z.vnets (list_vnets group ∷ k) ≡ ok vnets))
        → (bind_result answer (λ vnets k. (ok (first tagged vnets), k))).0 ≡ ok (some vnet)
        → IsSandbox z group vnet.name
    go (ok vnets, k) listed e =
        let (at, answered) = listed vnets refl in
        let (among, has_tag) = first-found tagged vnets vnet (ok-inj e) in
        (at, vnets, vnet, answered, among, refl, has_tag)
    go (err e, k) listed f = cc

-- where the name of a network is given, there is one
name_of_vnet-some :
    (found : Option Vnet) (h : History) (name : Text)
    → (name_of_vnet found h).0 ≡ ok name
    → (vnet : Vnet) × (found ≡ some vnet) × (vnet.name ≡ name)
unfolding name_of_vnet pure raise
name_of_vnet-some none h name e = cc
name_of_vnet-some (some vnet) h name e = (vnet, refl, ok-inj e)

module _ (r : Retrying) (z : Azure) (group id : Text) (tables : List RouteTableRequest) where
  P : Call → Type 0
  P = OfTables z group id tables

  module _ (t : RouteTableRequest) (asked : Member t tables) (vnet : Text)
      (sandbox : IsSandbox z group vnet) where
    add_route_table-Emits :
        (k : History) (table : Text)
        (found : z.route_table (get_route_table id t.name ∷ k) ≡ ok table) (name : Text)
        → Member name t.subnets
        → Emits P (Creation.add_route_table r z group vnet table name)
    unfolding Creation.add_route_table call P
    add_route_table-Emits k table found name m =
        Emits-bind_of P _ _ (Emits-call P _ z.subnet (refl, sandbox, (t, asked, m))) (λ h s e.
          Emits-call P _ z.done
            (refl, sandbox, (t, asked, m), (h, k, s, table, t, e, found, asked, m, refl)))

    add_route_table_to_subnets-Emits :
        Emits P (Creation.add_route_table_to_subnets r z id t.name t.subnets group vnet)
    unfolding Creation.add_route_table_to_subnets call P
    add_route_table_to_subnets-Emits =
        Emits-bind_of P _ _ (Emits-call P _ z.route_table (refl, t, asked, refl)) (λ h table e.
          Emits-for_each_of P (λ name. Member name t.subnets) t.subnets _
            (All-of_Member (λ name. Member name t.subnets) t.subnets (λ name m. m))
            (λ name m. add_route_table-Emits h table e name m))

  module _ (t : RouteTableRequest) (asked : Member t tables) where
    name_of_vnet-Emits : (found : Option Vnet) → Emits P (name_of_vnet found)
    unfolding name_of_vnet
    name_of_vnet-Emits none = Emits-raise P _
    name_of_vnet-Emits (some vnet) = Emits-pure P _

    create_table-Emits : Emits P (Creation.create_route_table r z id t.name t.routes)
    unfolding Creation.create_route_table P
    create_table-Emits = Emits-call P _ _ (refl, t, asked, refl, refl)

    networks-Emits : Emits P (get_sandbox_virtual_network r z group)
    unfolding get_sandbox_virtual_network get_virtual_networks P
    networks-Emits =
        Emits-bind P _ _ (Emits-retry5 P r _ (Emits-call P _ _ refl)) (λ vnets. Emits-pure P _)

    create_route_table-Emits : Emits P (Routes.create_route_table r z t group id)
    unfolding Routes.create_route_table Routes.create_route_table_once
    create_route_table-Emits = Emits-retry_retryable P r _ (
        Emits-bind_of P _ _ networks-Emits (λ h found e.
          Emits-bind_of P _ _ (name_of_vnet-Emits found) (λ k name f.
            let (vnet, g, n) = name_of_vnet-some found k name f in
            let sandbox =
              subst (IsSandbox z group) n
                (get_sandbox_virtual_network-IsSandbox r z group h vnet (e ∙ ap ok g)) in
            Emits-bind P _ _ create_table-Emits
              (λ _. add_route_table_to_subnets-Emits t asked name sandbox))))

    create_requested_table-Emits :
        (decrypt : Text → Result Text) (resource : Attributes) (request : Text)
        → Emits P (create_requested_table r z decrypt resource group id request t)
    unfolding create_requested_table P
    create_requested_table-Emits decrypt resource request =
        Emits-bind P _ _
          (Emits-bind P _ _ (Emits-call P _ _ refl)
            (λ _. Emits-for_each P _ _ (λ route. Emits-call P _ _ refl)))
          (λ _. create_route_table-Emits)

-- Whatever Azure answers, the command that creates route tables deletes nothing. It puts the requested
-- tables with their routes in the group of the reservation, and puts subnets that a requested table
-- lists, in networks that Azure listed in the management group with the tag of a sandbox's network. Each
-- is put as Azure answered when asked for it, but for the route table, which is what Azure answered when
-- asked for a requested table that lists the subnet. Its other calls write messages
-- to the reservation, list networks and read these subnets and route tables.
pub create_route_tables-Emits :
    (r : Retrying) (z : Azure) (decrypt : Text → Result Text) (resource : Attributes)
    (model : CloudProviderModel) (id request : Text) (tables : List RouteTableRequest)
    → convert_to_cloud_provider_resource_model decrypt resource ≡ ok model
    → Emits
        (OfTables z model.management_group_name id tables)
        (create_route_tables r z decrypt resource id request tables)
unfolding create_route_tables cloud_provider P create_requested_table
create_route_tables-Emits r z decrypt resource model id request tables given =
    Emits-bind-lift _ _ _ (λ found e.
      subst
        (λ m. Emits (OfTables z model.management_group_name id tables) (
          for_each tables
            (create_requested_table r z decrypt resource m.management_group_name id request)))
        (ok-inj (sym given ∙ e))
        (Emits-for_each_of _ (λ t. Member t tables) tables _
          (All-of_Member (λ t. Member t tables) tables (λ t m. m))
          (λ t m.
            create_requested_table-Emits r z model.management_group_name id tables t m decrypt
              resource request)))
