-- ===== src/Deployment/Undone.antt =====
-- A deployment that fails, from what raised to the calls of its rollback.
use azure_shell.Prelude.{◌≡◌, Bool, none, some, List, [], map, ◌⊎◌}
use azure_shell.Text.{Text}
use azure_shell.Errors.{Error, ok, err}
use azure_shell.Models.{RuleData}
use azure_shell.Cloud.{Azure, History}
use azure_shell.Cloud.Objects.{Nic, Nsg, Vm}
use azure_shell.Effects.{M}
use azure_shell.Effects.Retry.{Retrying}
use azure_shell.Caches.{Cache}
use azure_shell.Credentials.{SshKey}
use azure_shell.VirtualMachines.{VmCredentials}
use azure_shell.Deployment.{DeploymentModel, CloudProviderModel, DeployData}
use azure_shell.Deployment.Steps.{Surroundings, Tracked, create_groups, with_credentials}
use azure_shell.Deployment.Flow.{create_machine}
use azure_shell.Deployment.Nics.{Runs}

module _ (r : Retrying) (z : Azure) (around : Surroundings) (is_disk_mismatch : Text → Bool)
    (d : DeploymentModel) (provider : CloudProviderModel)
    (action : DeployData → List Nic → VmCredentials → M Vm) (pairs : Cache SshKey)
    (job : DeployData) where
  -- the addresses and the NICs of what has been made
  abbrev pub with_made : List (Nic × Text) → M (Tracked (List Nic × VmCredentials))
  with_made made =
      with_credentials r z around d provider job pairs (map (λ m. m.1) made)
        (ok (map (λ m. m.0) made))

  -- The part of a deployment that creates goes from one history to another, ends with the exception `e`,
  -- and has made the NICs: the security group of the VM or the rules raise, the loop over the NICs does,
  -- or, with all NICs made, the credentials do, or the VM or its script.
  abbrev pub Fails : History → List (Nic × Text) → Error → History → Type 0
  Fails h made e k =
      ((create_groups r z around d provider job h ≡ (err e, k)) × (made ≡ []))
      ⊎ ((nsg : Nsg) × (rules : List RuleData) × (h1 : History) × (create_groups r z around d
              provider job h
            ≡ (ok (nsg, rules), h1))
          × (Runs r z around d provider job nsg rules job.nic_requests h1 made (some e) k
              ⊎ ((h2 : History) × Runs r z around d provider job nsg rules job.nic_requests h1 made
                    none h2
                  × ((with_made made h2 ≡ (ok (map (λ m. m.1) made, err e), k))
                      ⊎ ((objects : List Nic × VmCredentials) × (h3 : History) × (with_made made h2
                            ≡ (ok (map (λ m. m.1) made, ok objects), h3))
                          × (create_machine r z around is_disk_mismatch d provider action job
                                objects h3
                              ≡ (err e, k)))))))
