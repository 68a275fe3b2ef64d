-- ===== src/Commands/Answered.antt =====
-- Which actions the results of a deployment answer.
use azure_shell.Prelude.{◌≡◌, refl, ap, Bool, true, List, [], ◌∷◌, map, ℕ, ⊤, Bool-cases, inl, inr}
use azure_shell.Text.{Text, text, eq}
use azure_shell.Errors.{Result, ok, err}
use azure_shell.Caches.{Cache}
use azure_shell.Cloud.{Azure, History}
use azure_shell.Commands.Deploy.{
  DeployApp, ConnectAction, RequestAction, DeployResult, deployed, connected, network_actions_of,
  deploy_actions_of, network_results, deploy_with, deploy_azure_vm, deploy_vm_from_custom_image,
  deploy_by_path, deploy,
}
use azure_shell.Credentials.{SshKey}
use azure_shell.Deployment.{DeploymentModel}
use azure_shell.Deployment.Steps.{Surroundings}
use azure_shell.Details.Addresses.{Returns, Returns-bind, Returns-any}
use azure_shell.Effects.{M, ◌>>=◌, pure, raise, lift}
use azure_shell.Effects.Retry.{Retrying}
use azure_shell.ModelParser.{Attributes}
use azure_shell.NicRequests.{ConnectSubnet}

-- the action that a result answers, and whether it tells of success
abbrev pub answers : DeployResult → Text × Bool
answers (deployed id result) = (id, true)
answers (connected id success) = (id, success)

abbrev pub Answered : Text → List ConnectAction → List DeployResult → Type 0
Answered id actions results =
    map answers results ≡ (id, true) ∷ map (λ action. (action.action_id, true)) actions

network_results_lem :
    (actions : List ConnectAction)
    → map answers (network_results actions) ≡ map (λ action. (action.action_id, true)) actions
unfolding network_results
network_results_lem [] = refl
network_results_lem (action ∷ actions) =
    ap (λ (l : List (Text × Bool)). (action.action_id, true) ∷ l) (network_results_lem actions)

-- code that, where it returns, returns what satisfies `P`
abbrev pub Gives : {A : Type 0} → (A → Type 0) → M A → Type 0
Gives P m = (h : History) → Returns P (m h).0

bind-Gives :
    {A B : Type 0} (P : B → Type 0) (m : M A) (f : A → M B)
    → ((a : A) → Gives P (f a))
    → Gives P (m >>= f)
unfolding ◌>>=◌
bind-Gives P m f g h = Returns-bind (λ a. ⊤) P (m h) f (Returns-any (m h).0) (λ a h' u. g a h')

bind-Gives_known :
    {A B : Type 0} (P : B → Type 0) (x : Result A) (f : A → M B) (a : A)
    → x ≡ ok a
    → Gives P (f a)
    → Gives P (lift x >>= f)
unfolding ◌>>=◌ lift
bind-Gives_known {A = A} P (ok b) f a e g h = rw (ok_inj e) (g h)
  where
    ok_inj : {x y : A} → ok x ≡ ok y → x ≡ y
    ok_inj e = cc
bind-Gives_known P (err b) f a e g h = tt

pure-Gives : {A : Type 0} (P : A → Type 0) (a : A) → P a → Gives P (pure a)
unfolding pure
pure-Gives P a p h = p

module _ (r : Retrying) (z : Azure) (decrypt : Text → Result Text) (to_int : Text → Result ℕ)
    (around : Surroundings) (is_disk_mismatch : Text → Bool) (pairs : Cache SshKey)
    (unique postfix : Text) (resource : Attributes) (single : List DeployApp → Result DeployApp)
    (group : Text) (actions : List RequestAction) (action : DeployApp)
    (one : single (deploy_actions_of actions) ≡ ok action) where
  deploy_with-Answered :
      (convert : Text
        → Attributes
        → Attributes
        → Result (List ConnectSubnet)
        → Result DeploymentModel)
      → Gives (Answered action.action_id (network_actions_of actions)) (
          deploy_with r z decrypt to_int around is_disk_mismatch pairs unique postfix resource
            single group convert actions)
  unfolding deploy_with
  deploy_with-Answered convert =
      let P = Answered action.action_id (network_actions_of actions) in
      bind-Gives_known P (single (deploy_actions_of actions)) _ action one (
        bind-Gives P _ _ λ d. bind-Gives P _ _ λ provider. bind-Gives P _ _ λ result.
          pure-Gives P _ (
            ap (λ (l : List (Text × Bool)). (action.action_id, true) ∷ l)
              (network_results_lem (network_actions_of actions))))

  deploy_by_path-Answered :
      (path : Text)
      → Gives (Answered action.action_id (network_actions_of actions)) (
          deploy_by_path r z decrypt to_int around is_disk_mismatch pairs unique postfix resource
            single group path actions)
  unfolding deploy_by_path deploy_azure_vm deploy_vm_from_custom_image raise
  deploy_by_path-Answered path = elim (Bool-cases (eq path (text "Azure VM From Marketplace"))) [
    | inl e ↦ rw e (deploy_with-Answered _)
    | inr e ↦ rw e (elim (Bool-cases (eq path (text "Azure VM From Custom Image"))) [
      | inl f ↦ rw f (deploy_with-Answered _)
      | inr f ↦ rw f (λ h. tt)
    ])
  ]

  -- When `single` finds the action that deploys, a deployment that returns, whichever image it is from,
  -- returns a result for that action and then one for each network action, in their order and with
  -- their ids; those of the network actions tell of success.
  pub deploy-Answered : Gives (Answered action.action_id (network_actions_of actions)) (
      deploy r z decrypt to_int around is_disk_mismatch pairs unique postfix resource single group
        actions)
  unfolding deploy
  deploy-Answered =
      let P = Answered action.action_id (network_actions_of actions) in
      bind-Gives_known P (single (deploy_actions_of actions)) _ action one
        (deploy_by_path-Answered action.deployment_path)
