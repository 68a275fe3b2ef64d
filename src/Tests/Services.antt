-- ===== src/Tests/Services.antt =====
-- Services that create NICs, machines, credentials and scripts, and the caches and copies of storage.
use azure_shell.Prelude.{
  ℕ, ◌+◌, ◌≤◌, ◌≡◌, refl, false, none, some, [], ◌∷◌, length, arith, if◌then◌else◌, ◌==◌,
}
use azure_shell.Text.{Text, text, eq, contains, starts_with}
use azure_shell.Text.Edit.{lower, lower_char}
use azure_shell.Errors.{Error, ErrorKind, ok, err}
use azure_shell.Cloud.{Azure, Call, get_blob}
use azure_shell.Cloud.Objects.{static}
use azure_shell.Effects.Emits.{Emits}
use azure_shell.Effects.Retry.{retry_if_retryable_error, is_cloud_error}
use azure_shell.Caches.{get_storage_account_key}
use azure_shell.Caches.Transparent.{
  look_up_all, uncached_all, value_of, read_with_attempts, get_storage_account_key_transparent,
}
use azure_shell.Copies.{
  checking, deciding, waiting, copying_blob, marking_success, returned, Pc, State, started, set_pc,
  check, decide, Run, done, then_step, initial,
}
use azure_shell.Copies.Exclusion.{is_copying, initial-IsSane, one_copies}
use azure_shell.Copies.Races.{copied_image, copy_blob_races}
use azure_shell.Copies.Polls.{wait_until_blob_copied_lem}
use azure_shell.Copies.Waiting.{has_failed, wait_until_blob_copied}
use azure_shell.Networks.Creation.{create_nic}
use azure_shell.Networks.Attempts.{checkout, request, create_nic_bound, create_nic_leaks}
use azure_shell.VirtualMachines.{VmCredentials, create_vm_from_custom_image}
use azure_shell.VirtualMachines.Requests.{OfCreation, create_vm_from_custom_image-Emits}
use azure_shell.Tests.Data.{subnet, retrying, group, vm_name, nic, cloud}

create_nic_bound_example :
    length (create_nic retrying cloud vm_name group none subnet static group false none []).1
    ≤ 200 + length {A = Call} []
create_nic_bound_example =
    create_nic_bound retrying cloud vm_name group none subnet group false none static []

-- the first address and the second one
abbrev lost : Text
lost = b'1' ∷ []

abbrev kept : Text
kept = b'2' ∷ []

abbrev retryable : Error
unfolding text
retryable = record {
  kind = ErrorKind.cloud_error;
  message = text "RetryableError";
  formatted = text "";
  reason = text "";
}

-- the first request for a NIC is refused, the second accepted
abbrev first_refused : Azure
first_refused = record cloud {
  nic = λ h. if length h == 2 then err retryable else ok nic;
  checked_out = λ h. ok ((if length h == 1 then lost else kept) ∷ []);
}

create_nic_leaks_example :
    create_nic retrying first_refused vm_name group none subnet static group false none [] ≡ (
      ok nic,
      request retrying first_refused vm_name group none subnet group false none kept
          ∷ checkout retrying first_refused vm_name group none subnet group false none
          ∷ request retrying first_refused vm_name group none subnet group false none lost
          ∷ checkout retrying first_refused vm_name group none subnet group false none
          ∷ [],
    )
create_nic_leaks_example =
    create_nic_leaks retrying first_refused vm_name group none subnet group false none [] lost kept
      [] [] retryable nic refl refl
      (unfold retry_if_retryable_error is_cloud_error contains starts_with lower lower_char text in
        refl)
      refl refl

abbrev credentials : VmCredentials
credentials = record { admin_username = vm_name; admin_password = group; ssh_key = none }

create_vm_from_custom_image_example : Emits (OfCreation group vm_name (nic ∷ []) (text "30")) (
    create_vm_from_custom_image retrying cloud credentials vm_name group
      (nic ∷ [])
      vm_name
      (text "A1")
      (text "HDD")
      (text "30")
      (text "image")
      group)
create_vm_from_custom_image_example =
    create_vm_from_custom_image-Emits retrying cloud credentials vm_name group (nic ∷ []) vm_name
      (text "A1") (text "HDD") (text "30") (text "image") group

abbrev secret : Text → Text → Text
secret g n = b'k' ∷ []

abbrev stable_cloud : Azure
stable_cloud = record cloud { account_keys = λ h. ok (secret [] [] ∷ []) }

get_storage_account_key_example :
    value_of
      (look_up_all
        (get_storage_account_key retrying stable_cloud)
        []
        ((group, vm_name) ∷ (group, vm_name) ∷ [])
        []).0
    ≡ (uncached_all
        ((group, vm_name) ∷ (group, vm_name) ∷ [])
        (read_with_attempts retrying stable_cloud secret (λ g n. []) (λ g n h. refl))
        []).0
get_storage_account_key_example =
    get_storage_account_key_transparent retrying stable_cloud secret (λ g n. []) (λ g n h. refl) []
      ((group, vm_name) ∷ (group, vm_name) ∷ []) [] [] tt

-- thread 0 decides to copy, and then thread 1 finds that it has to wait
abbrev both_ask : State
both_ask = record {
  entry = some started;
  held = none;
  pc =
      set_pc 1 waiting
        (set_pc 1 deciding (set_pc 0 copying_blob (set_pc 0 deciding (λ t. checking))));
}

asked : Run initial both_ask
asked =
    then_step
      (then_step (then_step (then_step done 0 (check refl)) 0 (decide refl refl)) 1 (check refl)) 1
      (decide refl refl)

one_copies_example : is_copying (both_ask.pc 1) ≡ false
one_copies_example =
    one_copies initial both_ask initial-IsSane asked 0 1 (λ e. omega (arith, e)) refl

abbrev at_result : ℕ → Pc
at_result t = if t == 0 then marking_success lost else checking

copy_blob_races_example :
    (v : State) × Run (copied_image at_result 0 1 lost) v × (v.pc 1 ≡ returned none)
copy_blob_races_example = copy_blob_races at_result 0 1 lost (λ e. omega (arith, e)) refl refl

-- the copy is under way when it is looked at first, and done the next time
abbrev slow_copy : Azure
slow_copy = record cloud { copy_status = λ h. ok (if length h == 1 then [] else text "success") }

wait_until_blob_copied_example :
    wait_until_blob_copied retrying slow_copy (λ c b. b) group vm_name 2 []
    ≡ (ok (some tt), get_blob group vm_name ∷ get_blob group vm_name ∷ [])
wait_until_blob_copied_example =
    wait_until_blob_copied_lem retrying slow_copy (λ c b. b) group vm_name 1 1 [] (omega arith)
      ([], refl, (unfold eq text in refl), (unfold has_failed eq text in refl), refl, tt) refl refl
