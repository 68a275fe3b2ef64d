-- ===== src/Copies/Polls.antt =====
-- How long the wait for a copy lasts, and how it ends.
use azure_shell.Prelude.{ℕ, zero, suc, ◌≤◌, ◌≡◌, refl, arith, true, false, some, ◌∷◌, ⊤}
use azure_shell.Text.{Text, text, eq, eq_refl}
use azure_shell.Errors.{ok, err, ErrorKind, exception}
use azure_shell.Cloud.{Azure, Call, History, get_blob, abort_copy}
use azure_shell.Effects.{◌>>=◌, pure, raise, call}
use azure_shell.Effects.Retry.{Retrying, retry5_ok}
use azure_shell.Waiter.{check_if_cancelled}
use azure_shell.Copies.Waiting.{
  has_failed, abort_if_cancelled, after_status, poll, wait_until_blob_copied,
}

module _ (r : Retrying) (z : Azure) (make_blob_url : Text → Text → Text)
    (container blob : Text) where
  abbrev pub asked : Call
  asked = get_blob container blob

  -- the history after `n` looks at the blob
  abbrev pub polls : ℕ → History → History
  polls zero h = h
  polls (suc n) h = polls n (asked ∷ h)

  -- the first `n` looks find the copy under way and the command not cancelled
  abbrev pub IsPending : ℕ → History → Type 0
  IsPending zero h = ⊤
  IsPending (suc n) h =
      (s : Text) × (z.copy_status (asked ∷ h) ≡ ok s)
      × (eq s (text "success") ≡ false)
      × (has_failed s ≡ false)
      × (z.is_cancelled (asked ∷ h) ≡ false)
      × IsPending n (asked ∷ h)

  poll_success :
      (n fuel : ℕ) (h : History)
      → n ≤ fuel
      → IsPending n h
      → z.copy_status (polls (suc n) h) ≡ ok (text "success")
      → z.is_cancelled (polls (suc n) h) ≡ false
      → poll r z make_blob_url container blob (suc fuel) h ≡ (ok (some tt), polls (suc n) h)
  unfolding poll after_status abort_if_cancelled check_if_cancelled ◌>>=◌ call pure
  poll_success zero fuel h le p status free = rw (status, free, eq_refl (text "success")) refl
  poll_success (suc n) zero h le p status free = absurd (omega (arith, le))
  poll_success (suc n) (suc fuel) h le (s, found, a, b, c, p) status free =
      rw (found, c, a, b) (poll_success n fuel (asked ∷ h) (omega (arith, le)) p status free)

  -- When Azure reports the success of a copy after `n` looks that found it under way, and the command
  -- is not cancelled meanwhile, the wait ends with look `n + 1`, on any fuel above `n`.
  pub wait_until_blob_copied_lem :
      (n fuel : ℕ) (h : History)
      → n ≤ fuel
      → IsPending n h
      → z.copy_status (polls (suc n) h) ≡ ok (text "success")
      → z.is_cancelled (polls (suc n) h) ≡ false
      → wait_until_blob_copied r z make_blob_url container blob (suc fuel) h
        ≡ (ok (some tt), polls (suc n) h)
  unfolding wait_until_blob_copied
  wait_until_blob_copied_lem n fuel h le p status free =
      retry5_ok r (poll r z make_blob_url container blob (suc fuel)) h (polls (suc n) h) (some tt)
        (poll_success n fuel h le p status free)

  -- A cancellation that is seen in look `n + 1` aborts the copy in Azure and ends the loop.
  poll_cancelled :
      (n fuel : ℕ) (h : History) (s : Text)
      → n ≤ fuel
      → IsPending n h
      → z.copy_status (polls (suc n) h) ≡ ok s
      → z.is_cancelled (polls (suc n) h) ≡ true
      → z.done (abort_copy container blob ∷ polls (suc n) h) ≡ ok tt
      → poll r z make_blob_url container blob (suc fuel) h ≡ (
        err (exception ErrorKind.cancellation_exception (text "Command was cancelled")),
        abort_copy container blob ∷ polls (suc n) h,
      )
  unfolding poll after_status abort_if_cancelled check_if_cancelled ◌>>=◌ call pure raise
  poll_cancelled zero fuel h s le p status seen aborted = rw (status, seen, aborted) refl
  poll_cancelled (suc n) zero h s le p status seen aborted = absurd (omega (arith, le))
  poll_cancelled (suc n) (suc fuel) h s le (t, found, a, b, c, p) status seen aborted =
      rw (found, c, a, b)
        (poll_cancelled n fuel (asked ∷ h) s (omega (arith, le)) p status seen aborted)
