-- ===== src/Effects/Bounded.antt =====
-- How many calls a piece of code makes at most, whatever Azure answers: one rule for each way to
-- build code.
use azure_shell.Prelude.{
  ℕ, zero, suc, ◌+◌, ◌*◌, ◌≤◌, sym, subst, Bool, true, false, length, if◌then◌else◌, arith,
}
use azure_shell.Errors.{Error, Result, ok, err}
use azure_shell.Cloud.{Call, History}
use azure_shell.Effects.{M, bind_result, ◌>>=◌, pure, lift, call}
use azure_shell.Effects.Retry.{Retrying, after_attempt, retry5, retry_retryable}

-- `m` makes at most `n` calls.
pub record MakesAtMost {A : Type 0} (n : ℕ) (m : M A) : Type 0 where
  pub at : (h : History) → length (m h).1 ≤ n + length h

module _ {A : Type 0} where
  pub MakesAtMost-pure : (n : ℕ) (a : A) → MakesAtMost n (pure a)
  unfolding pure
  MakesAtMost-pure n a = record { at = λ h. omega arith }

  pub MakesAtMost-lift : (n : ℕ) (r : Result A) → MakesAtMost n (lift r)
  unfolding lift
  MakesAtMost-lift n r = record { at = λ h. omega arith }

  pub MakesAtMost-call : (c : Call) (answer : History → Result A) → MakesAtMost 1 (call c answer)
  unfolding call
  MakesAtMost-call c answer = record { at = λ h. omega arith }

  pub MakesAtMost-if :
      (n : ℕ) (b : Bool) (m k : M A)
      → MakesAtMost n m
      → MakesAtMost n k
      → MakesAtMost n (if b then m else k)
  MakesAtMost-if n true m k g f = g
  MakesAtMost-if n false m k g f = f

  after_attempt_le :
      (j n : ℕ) (p : Error → Bool) (again : M A) (h : History) (x : Result A × History)
      → length x.1 ≤ j + length h
      → MakesAtMost n again
      → length (after_attempt p again x).1 ≤ (j + n) + length h
  after_attempt_le j n p again h (ok a, h') le g = omega arith
  after_attempt_le j n p again h (err e, h') le g = go (p e)
    where
      go : (b : Bool) → length (if b then again h' else (err e, h')).1 ≤ (j + n) + length h
      go true = omega (arith, g.at h')
      go false = omega arith

  -- At most `n` attempts are made, of at most `k` calls each.
  pub MakesAtMost-retry :
      (r : Retrying) (n k : ℕ) (p : Error → Bool) (m : M A)
      → MakesAtMost k m
      → MakesAtMost (suc n * k) (r.retry A (suc n) p m)
  MakesAtMost-retry r zero k p m g = record {
    at = λ h.
        subst (λ x. length x.1 ≤ (1 * k) + length h) (sym (r.retry_last A p m h))
          (omega (arith, g.at h));
  }
  MakesAtMost-retry r (suc n) k p m g = record {
    at = λ h.
        subst (λ x. length x.1 ≤ (suc (suc n) * k) + length h) (sym (r.retry_more A n p m h))
          (omega (
            arith,
            after_attempt_le k (suc n * k) p (r.retry A (suc n) p m) h (m h) (g.at h)
                (MakesAtMost-retry r n k p m g),
          ));
  }

  pub MakesAtMost-retry5 :
      (r : Retrying) (k : ℕ) (m : M A) → MakesAtMost k m → MakesAtMost (5 * k) (retry5 r m)
  unfolding retry5
  MakesAtMost-retry5 r k m g = MakesAtMost-retry r 4 k _ m g

  pub MakesAtMost-retry_retryable :
      (r : Retrying) (k : ℕ) (m : M A)
      → MakesAtMost k m
      → MakesAtMost (20 * k) (retry_retryable r m)
  unfolding retry_retryable
  MakesAtMost-retry_retryable r k m g = MakesAtMost-retry r 19 k _ m g

module _ {A B : Type 0} where
  bind_result_le :
      (j k : ℕ) (h : History) (x : Result A × History) (f : A → M B)
      → length x.1 ≤ j + length h
      → ((a : A) → MakesAtMost k (f a))
      → length (bind_result x f).1 ≤ (j + k) + length h
  bind_result_le j k h (ok a, h') f le g = omega (arith, (g a).at h')
  bind_result_le j k h (err e, h') f le g = omega arith

  pub MakesAtMost-bind :
      (j k : ℕ) (m : M A) (f : A → M B)
      → MakesAtMost j m
      → ((a : A) → MakesAtMost k (f a))
      → MakesAtMost (j + k) (m >>= f)
  unfolding ◌>>=◌
  MakesAtMost-bind j k m f g q = record { at = λ h. bind_result_le j k h (m h) f (g.at h) q }
