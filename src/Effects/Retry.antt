-- ===== src/Effects/Retry.antt =====
-- The decorator `retry` of the library `retrying`, which is not part of this repository: a parameter,
-- with what its documentation says of `stop_max_attempt_number` and `retry_on_exception`. The waits
-- between attempts are left out. What is retried is decided by
-- package/cloudshell/cp/azure/common/helpers/retrying_helpers.py.
use azure_shell.Prelude.{
  ℕ, zero, suc, ◌≡◌, sym, ◌∙◌, ap, Bool, true, false, ◌&&◌, ◌||◌, if◌then◌else◌,
}
use azure_shell.Text.{text, contains}
use azure_shell.Text.Edit.{lower}
use azure_shell.Errors.{Error, ErrorKind, Result, ok, err}
use azure_shell.Cloud.{History}
use azure_shell.Effects.{M}

-- how an attempt goes on
abbrev pub after_attempt :
    {A : Type 0} → (Error → Bool) → M A → Result A × History → Result A × History
after_attempt p again (ok a, h) = (ok a, h)
after_attempt p again (err e, h) = if p e then again h else (err e, h)

pub record Retrying : Type 1 where
  pub retry : (A : Type 0) → ℕ → (Error → Bool) → M A → M A
  -- the last attempt is returned or raised as it is
  pub retry_last : (A : Type 0) (p : Error → Bool) (m : M A) (h : History) → retry A 1 p m h ≡ m h
  -- an attempt that raised what `retry_on_exception` accepts is followed by another
  pub retry_more :
      (A : Type 0) (n : ℕ) (p : Error → Bool) (m : M A) (h : History)
      → retry A (suc (suc n)) p m h ≡ after_attempt p (retry A (suc n) p m) (m h)

-- `isinstance(exception, kind)`
unfoldable pub is_connection_kind : ErrorKind → Bool
is_connection_kind ErrorKind.client_request_error = true
is_connection_kind ErrorKind.connection_error = true
is_connection_kind _ = false

unfoldable pub is_cloud_error : ErrorKind → Bool
is_cloud_error ErrorKind.cloud_error = true
is_cloud_error _ = false

unfoldable pub is_pool_closed_error : Error → Bool
is_pool_closed_error e = contains (text "pool is closed") (lower e.formatted)

unfoldable pub retry_if_connection_error : Error → Bool
retry_if_connection_error e = is_connection_kind e.kind || is_pool_closed_error e

unfoldable pub retry_if_retryable_error : Error → Bool
retry_if_retryable_error e =
    is_cloud_error e.kind && contains (lower (text "retryable")) (lower e.message)

abbrev retryable_error_max_attempts : ℕ
retryable_error_max_attempts = 20

module _ (r : Retrying) where
  -- An attempt that returns is the last one.
  pub retry_done :
      {A : Type 0} (n : ℕ) (p : Error → Bool) (m : M A) (h h' : History) (a : A)
      → m h ≡ (ok a, h')
      → r.retry A (suc (suc n)) p m h ≡ (ok a, h')
  retry_done {A} n p m h h' a e =
      r.retry_more A n p m h ∙ ap (after_attempt p (r.retry A (suc n) p m)) e

  -- An attempt that raises what is retried is followed by the others.
  pub retry_again :
      {A : Type 0} (n : ℕ) (p : Error → Bool) (m : M A) (h h' : History) (e : Error)
      → m h ≡ (err e, h')
      → p e ≡ true
      → r.retry A (suc (suc n)) p m h ≡ r.retry A (suc n) p m h'
  retry_again {A} n p m h h' e raised retried =
      r.retry_more A n p m h ∙ ap (after_attempt p (r.retry A (suc n) p m)) raised ∙ rw retried

  -- `@retry(stop_max_attempt_number=5, wait_fixed=2000, retry_on_exception=retry_if_connection_error)`
  unfoldable pub retry5 : {A : Type 0} → M A → M A
  retry5 {A} m = r.retry A 5 retry_if_connection_error m

  -- `@retry(stop_max_attempt_number=retryable_error_max_attempts, …)`
  unfoldable pub retry_retryable : {A : Type 0} → M A → M A
  retry_retryable {A} m = r.retry A retryable_error_max_attempts retry_if_retryable_error m

  -- An attempt that returns is the only one.
  pub retry5_ok :
      {A : Type 0} (m : M A) (h h' : History) (a : A) → m h ≡ (ok a, h') → retry5 m h ≡ (ok a, h')
  unfolding retry5
  retry5_ok m h h' a e = retry_done 3 retry_if_connection_error m h h' a e

  -- An attempt that raises what is not retried is the only one.
  pub retry5_err :
      {A : Type 0} (m : M A) (h h' : History) (e : Error)
      → m h ≡ (err e, h')
      → retry_if_connection_error e ≡ false
      → retry5 m h ≡ (err e, h')
  unfolding retry5
  retry5_err {A} m h h' x e refused =
      r.retry_more A 3 retry_if_connection_error m h
      ∙ ap (after_attempt retry_if_connection_error (r.retry A 4 retry_if_connection_error m)) e
      ∙ rw refused

  module _ {A : Type 0} (Q : A → Type 0) (p : Error → Bool) (m : M A)
      (gives : (h : History) (x : A) → (m h).0 ≡ ok x → Q x) where
    after_attempt-gives :
        (again : M A) (y : Result A × History)
        → ((x : A) → y.0 ≡ ok x → Q x)
        → ((h : History) (x : A) → (again h).0 ≡ ok x → Q x)
        → (x : A) → (after_attempt p again y).0 ≡ ok x
        → Q x
    after_attempt-gives again (ok a, h) now later x e = now x e
    after_attempt-gives again (err raised, h) now later x e = go (p raised) e
      where
        go : (b : Bool) → (if b then again h else (err raised, h)).0 ≡ ok x → Q x
        go true f = later h x f
        go false f = cc

    -- what an attempt can give is what retrying gives
    pub retry-gives : (n : ℕ) (h : History) (x : A) → (r.retry A (suc n) p m h).0 ≡ ok x → Q x
    retry-gives zero h x e = gives h x (sym (ap (λ y. y.0) (r.retry_last A p m h)) ∙ e)
    retry-gives (suc n) h x e =
        after_attempt-gives (r.retry A (suc n) p m) (m h) (gives h) (retry-gives n) x
          (sym (ap (λ y. y.0) (r.retry_more A n p m h)) ∙ e)

  pub retry5-gives :
      {A : Type 0} (Q : A → Type 0) (m : M A)
      → ((h : History) (x : A) → (m h).0 ≡ ok x → Q x)
      → (h : History) (x : A) → (retry5 m h).0 ≡ ok x
      → Q x
  unfolding retry5
  retry5-gives Q m gives = retry-gives Q retry_if_connection_error m gives 4
