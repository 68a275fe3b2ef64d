-- ===== src/Effects/Emits.antt =====
-- Which calls a piece of code makes, whatever Azure answers: one rule for each way to build code.
use azure_shell.Prelude.{
  ℕ, zero, suc, ◌≡◌, refl, sym, ◌∙◌, ap, ⊤, Bool, true, false, List, [], ◌∷◌, ◌++◌, append_assoc,
  if◌then◌else◌, All, All-append, All-map_of, subst,
}
use azure_shell.Errors.{Error, Result, ok, err}
use azure_shell.Cloud.{Call, History}
use azure_shell.Effects.{
  M, bind_result, ◌>>=◌, pure, raise, lift, call, handle_result, handle, attempt, for_each, collect,
}
use azure_shell.Effects.Retry.{
  Retrying, after_attempt, retry5, retry_if_connection_error, retry_retryable,
}

-- The calls from `h` to `h'` all satisfy `P`.
abbrev pub Grows : (Call → Type 0) → History → History → Type 0
Grows P h h' = (l : List Call) × (h' ≡ l ++ h) × All P l

pub record Emits {A : Type 0} (P : Call → Type 0) (m : M A) : Type 0 where
  pub at : (h : History) → Grows P h (m h).1

module _ (P : Call → Type 0) where
  pub Grows-refl : (h : History) → Grows P h h
  Grows-refl h = ([], refl, tt)

  pub Grows-trans : (a b c : History) → Grows P a b → Grows P b c → Grows P a c
  Grows-trans a b c (l, e, p) (k, f, q) =
      (k ++ l, f ∙ ap (λ x. k ++ x) e ∙ sym (append_assoc k l a), All-append P k l q p)

  module _ {A : Type 0} where
    pub Emits-pure : (a : A) → Emits P (pure a)
    unfolding pure
    Emits-pure a = record { at = Grows-refl }

    pub Emits-raise : (e : Error) → Emits P (raise {A = A} e)
    unfolding raise
    Emits-raise e = record { at = Grows-refl }

    pub Emits-lift : (r : Result A) → Emits P (lift r)
    unfolding lift
    Emits-lift r = record { at = Grows-refl }

    pub Emits-call : (c : Call) (answer : History → Result A) → P c → Emits P (call c answer)
    unfolding call
    Emits-call c answer p = record { at = λ h. (c ∷ [], refl, (p, tt)) }

    Emits-handle_result :
        (a : History) (r : Result A × History) (f : Error → M A)
        → Grows P a r.1
        → ((e : Error) → Emits P (f e))
        → Grows P a (handle_result f r).1
    Emits-handle_result a (ok x, h) f g k = g
    Emits-handle_result a (err e, h) f g k = Grows-trans a h (f e h).1 g ((k e).at h)

    pub Emits-handle :
        (m : M A) (f : Error → M A)
        → Emits P m
        → ((e : Error) → Emits P (f e))
        → Emits P (handle m f)
    unfolding handle
    Emits-handle m f g k = record { at = λ h. Emits-handle_result h (m h) f (g.at h) k }

    pub Emits-attempt : (m : M A) → Emits P m → Emits P (attempt m)
    unfolding attempt
    Emits-attempt m g = record { at = λ h. g.at h }

    pub Emits-if : (b : Bool) (m n : M A) → Emits P m → Emits P n → Emits P (if b then m else n)
    Emits-if true m n g k = g
    Emits-if false m n g k = k

    Emits-after_attempt :
        (p : Error → Bool) (again : M A) (a : History) (r : Result A × History)
        → Grows P a r.1
        → Emits P again
        → Grows P a (after_attempt p again r).1
    Emits-after_attempt p again a (ok x, h) g k = g
    Emits-after_attempt p again a (err e, h) g k = go (p e)
      where
        go : (b : Bool) → Grows P a (if b then again h else (err e, h)).1
        go true = Grows-trans a h (again h).1 g (k.at h)
        go false = g

    Emits-retry :
        (r : Retrying) (n : ℕ) (p : Error → Bool) (m : M A)
        → Emits P m
        → Emits P (r.retry A (suc n) p m)
    Emits-retry r zero p m g = record {
      at = λ h. subst (λ x. Grows P h x.1) (sym (r.retry_last A p m h)) (g.at h);
    }
    Emits-retry r (suc n) p m g = record {
      at = λ h.
          subst (λ x. Grows P h x.1) (sym (r.retry_more A n p m h))
            (Emits-after_attempt p (r.retry A (suc n) p m) h (m h) (g.at h)
              (Emits-retry r n p m g));
    }

    -- the first attempt is made, and what follows it is allowed
    pub Grows-retry5 :
        (r : Retrying) (m : M A) (h : History) → Emits P m → Grows P (m h).1 (retry5 r m h).1
    unfolding retry5
    Grows-retry5 r m h g =
        subst (λ x. Grows P (m h).1 x.1) (sym (r.retry_more A 3 retry_if_connection_error m h))
          (Emits-after_attempt retry_if_connection_error (r.retry A 4 retry_if_connection_error m)
            (m h).1 (m h) (Grows-refl (m h).1) (Emits-retry r 3 retry_if_connection_error m g))

    pub Emits-retry5 : (r : Retrying) (m : M A) → Emits P m → Emits P (retry5 r m)
    unfolding retry5
    Emits-retry5 r m g = Emits-retry r 4 retry_if_connection_error m g

    pub Emits-retry_retryable : (r : Retrying) (m : M A) → Emits P m → Emits P (retry_retryable r m)
    unfolding retry_retryable
    Emits-retry_retryable r m g = Emits-retry r 19 _ m g

  module _ {A B : Type 0} where
    Emits-bind_result :
        (a : History) (r : Result A × History) (f : A → M B)
        → Grows P a r.1
        → ((x : A) → r.0 ≡ ok x → Emits P (f x))
        → Grows P a (bind_result r f).1
    Emits-bind_result a (ok x, h) f g k = Grows-trans a h (f x h).1 g ((k x refl).at h)
    Emits-bind_result a (err e, h) f g k = g

    pub Emits-bind :
        (m : M A) (f : A → M B) → Emits P m → ((x : A) → Emits P (f x)) → Emits P (m >>= f)
    unfolding ◌>>=◌
    Emits-bind m f g k = record { at = λ h. Emits-bind_result h (m h) f (g.at h) (λ x e. k x) }

    -- the rest of the block may use what the first part can give
    pub Emits-bind_of :
        (m : M A) (f : A → M B)
        → Emits P m
        → ((h : History) (x : A) → (m h).0 ≡ ok x → Emits P (f x))
        → Emits P (m >>= f)
    unfolding ◌>>=◌
    Emits-bind_of m f g k = record { at = λ h. Emits-bind_result h (m h) f (g.at h) (k h) }

    -- the rest of the block may use that `r` did not raise
    pub Emits-bind-lift :
        (r : Result A) (f : A → M B) → ((x : A) → r ≡ ok x → Emits P (f x)) → Emits P (lift r >>= f)
    unfolding ◌>>=◌ lift
    Emits-bind-lift r f k = record { at = λ h. Emits-bind_result h (r, h) f (Grows-refl h) k }

  module _ {A : Type 0} (Q : A → Type 0) where
    -- a loop over elements of which `Q` holds
    pub Emits-for_each_of :
        (xs : List A) (f : A → M ⊤)
        → All Q xs
        → ((x : A) → Q x → Emits P (f x))
        → Emits P (for_each xs f)
    unfolding for_each
    Emits-for_each_of [] f q k = Emits-pure tt
    Emits-for_each_of (x ∷ xs) f q k =
        Emits-bind (f x) (λ _. for_each xs f) (k x q.0) (λ _. Emits-for_each_of xs f q.1 k)

  pub Emits-for_each :
      {A : Type 0} (xs : List A) (f : A → M ⊤) → ((x : A) → Emits P (f x)) → Emits P (for_each xs f)
  unfolding for_each
  Emits-for_each [] f k = Emits-pure tt
  Emits-for_each (x ∷ xs) f k =
      Emits-bind (f x) (λ _. for_each xs f) (k x) (λ _. Emits-for_each xs f k)

  pub Emits-collect :
      {A B : Type 0} (xs : List A) (f : A → M B)
      → ((x : A) → Emits P (f x))
      → Emits P (collect xs f)
  unfolding collect
  Emits-collect [] f k = Emits-pure []
  Emits-collect (x ∷ xs) f k =
      Emits-bind (f x) (λ y. collect xs f >>= λ ys. pure (y ∷ ys)) (k x)
        (λ y.
          Emits-bind (collect xs f) (λ ys. pure (y ∷ ys)) (Emits-collect xs f k)
            (λ ys. Emits-pure (y ∷ ys)))

-- What is allowed may be said more generously.
pub Emits-weaken :
    (P Q : Call → Type 0) {A : Type 0} (m : M A) → ((c : Call) → P c → Q c) → Emits P m → Emits Q m
Emits-weaken P Q m f g = record { at = λ h. let (l, e, p) = g.at h in (l, e, All-map_of P Q l f p) }

pub ruleset emits_rules = (
  Emits-pure, Emits-raise, Emits-lift, Emits-call, Emits-handle, Emits-attempt, Emits-if,
  Emits-retry5, Emits-retry_retryable, Emits-bind, Emits-for_each, Emits-collect,
)
