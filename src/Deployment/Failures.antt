-- ===== src/Deployment/Failures.antt =====
-- How a deployment ends when something goes wrong.
use azure_shell.Prelude.{◌≡◌, refl, Bool, true, false, List, map, ⊤}
use azure_shell.Text.{Text, text}
use azure_shell.Errors.{Error, Result, ok, err, ErrorKind, exception}
use azure_shell.Cloud.{Azure, History}
use azure_shell.Cloud.Objects.{Nic, Vm, other_text}
use azure_shell.Effects.{M, bind_result, ◌>>=◌, raise}
use azure_shell.Effects.Retry.{Retrying}
use azure_shell.Cancellation.{check_cancelled}
use azure_shell.Caches.{Cache}
use azure_shell.Credentials.{SshKey}
use azure_shell.Rollback.{rollback_deployed_resources}
use azure_shell.VirtualMachines.{VmCredentials}
use azure_shell.Waiter.{check_if_cancelled}
use azure_shell.Deployment.{DeploymentModel, CloudProviderModel, DeployData}
use azure_shell.Deployment.Steps.{Surroundings}
use azure_shell.Deployment.Flow.{
  DeployAppResult, interface_of, try_block, settle, describe, deploy_prepared,
}

abbrev pub cancelled : Error
cancelled = exception ErrorKind.cancellation_exception (text "Command was cancelled")

-- what a deployment ends with after an exception `e`: another one when the rollback raises
abbrev pub after_rollback : Error → Result ⊤ × History → Result DeployAppResult × History
after_rollback e (ok _, h) = (err e, h)
after_rollback e (err raised, h) = (err raised, h)

module _ (r : Retrying) (z : Azure) (around : Surroundings) (is_disk_mismatch : Text → Bool)
    (d : DeploymentModel) (provider : CloudProviderModel)
    (action : DeployData → List Nic → VmCredentials → M Vm) (pairs : Cache SshKey)
    (job : DeployData) where
  abbrev pub deployed : M DeployAppResult
  deployed = deploy_prepared r z around is_disk_mismatch d provider action pairs job

  abbrev pub rollback : List Text → M ⊤
  rollback ips =
      rollback_deployed_resources r z job.group_name (map interface_of job.nic_requests) job.vm_name
        (other_text provider.private_ip_allocation_method) ips job.group_name

  -- A deployment that is cancelled before it has created anything ends with the cancellation, and
  -- neither creates nor rolls back.
  pub cancelled_before : (h : History) → z.is_cancelled h ≡ true → deployed h ≡ (err cancelled, h)
  unfolding deploy_prepared ◌>>=◌ check_cancelled check_if_cancelled
  cancelled_before h c = rw c

  settled :
      (e : Error) (x : Result ⊤ × History)
      → bind_result
          (bind_result x (λ _. raise e))
          (describe r z around is_disk_mismatch d provider action job)
        ≡ after_rollback e x
  unfolding raise
  settled e (ok _, h) = refl
  settled e (err raised, h) = refl

  -- an exception that leaves the part that creates is followed by the rollback
  pub deploy_ends :
      (h k : History) (ips : List Text) (e : Error)
      → z.is_cancelled h ≡ false
      → try_block r z around is_disk_mismatch d provider action pairs job h ≡ (ok (ips, err e), k)
      → deployed h ≡ after_rollback e (rollback ips k)
  unfolding deploy_prepared settle ◌>>=◌ check_cancelled check_if_cancelled
  deploy_ends h k ips e c raised = rw c (rw raised (settled e (rollback ips k)))
