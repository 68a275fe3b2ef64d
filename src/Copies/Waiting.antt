-- ===== src/Copies/Waiting.antt =====
-- `_copy_blob` and `_wait_until_blob_copied` of
-- package/cloudshell/cp/azure/domain/services/storage_service.py. A call on a blob includes what gets
-- the blob service. The loop takes fuel; `none` means that it ran out.
use azure_shell.Prelude.{
  ℕ, zero, suc, Bool, true, false, ◌||◌, Option, none, some, ◌++◌, if◌then◌else◌, ⊤,
}
use azure_shell.Text.{Text, text, eq}
use azure_shell.Errors.{Result, ok, err, ErrorKind, exception}
use azure_shell.Blobs.{AzureBlobUrlModel}
use azure_shell.Cloud.{Azure, get_blob, abort_copy, blob_exists, create_container, copy_blob}
use azure_shell.Effects.{M, ◌>>=◌, ◌>>◌, pure, raise, call}
use azure_shell.Effects.Retry.{Retrying, retry5}
use azure_shell.Waiter.{check_if_cancelled}

-- `blob.properties.copy.status in ["aborted", "failed"]`
unfoldable pub has_failed : Text → Bool
has_failed status = eq status (text "aborted") || eq status (text "failed")

module _ (r : Retrying) (z : Azure) (make_blob_url : Text → Text → Text) where
  module _ (container blob : Text) where
    -- `except CancellationException`: the copy is aborted, and the exception raised again
    unfoldable pub abort_if_cancelled : Result ⊤ → M ⊤
    abort_if_cancelled (ok _) = pure tt
    abort_if_cancelled (err e) = call (abort_copy container blob) z.done >> raise e

    -- the tests on the status of the copy, and otherwise the next round
    unfoldable pub after_status : Text → M (Option ⊤) → M (Option ⊤)
    after_status status next =
        if eq status (text "success")
        then pure (some tt)
        else if has_failed status
        then raise (
            exception ErrorKind.plain_exception
              (text "Copying of file " ++ make_blob_url container blob ++ text " failed"))
        else next

    -- the loop of `_wait_until_blob_copied`
    unfoldable pub poll : ℕ → M (Option ⊤)
    poll zero = pure none
    poll (suc fuel) = call (get_blob container blob) z.copy_status >>= λ status.
        (λ h. abort_if_cancelled (check_if_cancelled (z.is_cancelled h)) h) >>= λ _.
        after_status status (poll fuel)

    unfoldable pub wait_until_blob_copied : ℕ → M (Option ⊤)
    wait_until_blob_copied fuel = retry5 r (poll fuel)

  -- `if not …exists(…)`: the copy is started and awaited
  unfoldable pub copy_if_missing : ℕ → AzureBlobUrlModel → Text → Bool → M (Option ⊤)
  copy_if_missing fuel to source true = pure (some tt)
  copy_if_missing fuel to source false = do
    call (create_container to.container_name) z.done
    call (copy_blob to.container_name to.blob_name source) z.done
    wait_until_blob_copied to.container_name to.blob_name fuel

  -- `_copy_blob`, with the address of the source that its token makes readable
  unfoldable pub copy_once : ℕ → AzureBlobUrlModel → Text → M (Option Text)
  copy_once fuel to source = retry5 r (do
    exists ← call (blob_exists to.container_name to.blob_name) z.blob_is_there
    copied ← copy_if_missing fuel to source exists
    pure (finished copied))
    where
      finished : Option ⊤ → Option Text
      finished none = none
      finished (some _) = some (make_blob_url to.container_name to.blob_name)
