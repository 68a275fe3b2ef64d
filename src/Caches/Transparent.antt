-- ===== src/Caches/Transparent.antt =====
-- A cache changes how often Azure is called, not what is answered.
use azure_shell.Prelude.{
  ◌≡◌, refl, sym, ap, ◌∙◌, subst, Bool, true, false, some, List, [], ◌∷◌, map, All, some-inj,
  Option-cases, inl, inr, ◌&&◌, if◌then◌else◌,
}
use azure_shell.Text.{Text, eq, eq_sound}
use azure_shell.Errors.{Result, ok, err}
use azure_shell.Cloud.{Azure, History, list_keys}
use azure_shell.Effects.{M, bind_result, ◌>>=◌, pure, call}
use azure_shell.Effects.Retry.{Retrying, retry_if_connection_error, retry_done}
use azure_shell.Caches.{
  Cache, find, found_or, cached, first_key, read_account_key, get_storage_account_key,
}

module _ {A : Type 0} where
  -- the look-ups of several accounts, one after the other, each with the cache that the last one left
  unfoldable pub look_up_all :
      (Cache A → Text → Text → M (A × Cache A))
      → Cache A
      → List (Text × Text)
      → M (List A × Cache A)
  look_up_all look cache [] = pure ([], cache)
  look_up_all look cache ((group, name) ∷ accounts) =
      look cache group name >>= λ x. look_up_all look x.1 accounts >>= λ y. pure (x.0 ∷ y.0, y.1)

  -- the same look-ups without a cache
  unfoldable pub uncached_all : List (Text × Text) → (Text → Text → M A) → M (List A)
  uncached_all [] read = pure []
  uncached_all ((group, name) ∷ accounts) read =
      read group name >>= λ a. uncached_all accounts read >>= λ rest. pure (a ∷ rest)

  module _ (value : Text → Text → A) where
    -- everything in the cache is what the account has
    abbrev pub IsTrue : Cache A → Type 0
    IsTrue cache = All (λ entry. entry.1 ≡ value entry.0.0 entry.0.1) cache

    find-IsTrue :
        (cache : Cache A) (group name : Text) (a : A)
        → IsTrue cache
        → find cache group name ≡ some a
        → a ≡ value group name
    unfolding find
    find-IsTrue [] group name a t h = cc
    find-IsTrue (((g, n), b) ∷ cache) group name a t h =
        go (eq g group) (eq n name) refl refl (find-IsTrue cache group name a t.1) h
      where
        go :
            (p q : Bool)
            → eq g group ≡ p
            → eq n name ≡ q
            → (find cache group name ≡ some a → a ≡ value group name)
            → (if p && q then some b else find cache group name) ≡ some a
            → a ≡ value group name
        go true true e f next k =
            sym (some-inj k)
            ∙ t.0
            ∙ ap (λ x. value x n) (eq_sound g group e)
            ∙ ap (value group) (eq_sound n name f)
        go true false e f next k = next k
        go false q e f next k = next k

    -- how a look-up ends: with the value, and a cache that is still true
    abbrev pub IsRight : {B : Type 0} → B → Result (B × Cache A) → Type 0
    IsRight b (ok (x, cache)) = (x ≡ b) × IsTrue cache
    IsRight b (err e) = ⊥

    read-IsRight :
        (x : Result A × History) (cache : Cache A) (group name : Text)
        → x.0 ≡ ok (value group name)
        → IsTrue cache
        → IsRight (value group name) (bind_result x (λ a. pure (a, ((group, name), a) ∷ cache))).0
    unfolding pure
    read-IsRight (ok a, h) cache group name e t = (cc, (cc, t))
    read-IsRight (err e, h) cache group name f t = cc

    pub cached-IsRight :
        (cache : Cache A) (group name : Text) (read : M A) (h : History)
        → (read h).0 ≡ ok (value group name)
        → IsTrue cache
        → IsRight (value group name) (cached cache group name read h).0
    unfolding cached found_or ◌>>=◌ pure
    cached-IsRight cache group name read h answer t = elim (Option-cases (find cache group name)) [
      | inl e ↦ rw e (read-IsRight (read h) cache group name answer t)
      | inr (a, e) ↦ rw e (find-IsTrue cache group name a t e, t)
    ]

    pub values : List (Text × Text) → List A
    values accounts = map (λ account. value account.0 account.1) accounts

    then-IsRight :
        {B C : Type 0} (b : B) (c : C) (x : Result (B × Cache A) × History)
        (f : B × Cache A → M (C × Cache A))
        → IsRight b x.0
        → ((cache : Cache A) (h : History) → IsTrue cache → IsRight c (f (b, cache) h).0)
        → IsRight c (bind_result x f).0
    then-IsRight b c (ok (y, cache), h) f right g = rw right.0 (g cache h right.1)
    then-IsRight b c (err e, h) f right g = absurd right

    module _ (look : Cache A → Text → Text → M (A × Cache A))
        (right : (cache : Cache A) (group name : Text) (h : History)
          → IsTrue cache
          → IsRight (value group name) (look cache group name h).0) where
      pub look_up_all-IsRight :
          (cache : Cache A) (accounts : List (Text × Text)) (h : History)
          → IsTrue cache
          → IsRight (values accounts) (look_up_all look cache accounts h).0
      unfolding look_up_all values ◌>>=◌ pure
      look_up_all-IsRight cache [] h t = (refl, t)
      look_up_all-IsRight cache ((group, name) ∷ accounts) h t =
          then-IsRight (value group name) (values ((group, name) ∷ accounts))
            (look cache group name h)
            (λ x. look_up_all look x.1 accounts >>= λ y. pure (x.0 ∷ y.0, y.1))
            (right cache group name h t)
            (λ cache h t.
              then-IsRight (values accounts) _ (look_up_all look cache accounts h)
                (λ y. pure (value group name ∷ y.0, y.1)) (look_up_all-IsRight cache accounts h t)
                (λ cache h t. (refl, t)))

    module _ (read : Text → Text → M A)
        (answers : (group name : Text) (h : History)
          → (read group name h).0 ≡ ok (value group name)) where
      then_ok :
          {B C : Type 0} (b : B) (c : C) (x : Result B × History) (f : B → M C)
          → x.0 ≡ ok b
          → ((h : History) → (f b h).0 ≡ ok c)
          → (bind_result x f).0 ≡ ok c
      then_ok b c (ok y, h) f e g = rw (ok_inj e) (g h)
        where
          ok_inj : ok y ≡ ok b → y ≡ b
          ok_inj e = cc
      then_ok b c (err e, h) f q g = cc

      pub uncached_all_right :
          (accounts : List (Text × Text)) (h : History)
          → (uncached_all accounts read h).0 ≡ ok (values accounts)
      unfolding uncached_all values ◌>>=◌ pure
      uncached_all_right [] h = refl
      uncached_all_right ((group, name) ∷ accounts) h =
          then_ok (value group name) _ (read group name h)
            (λ a. uncached_all accounts read >>= λ rest. pure (a ∷ rest)) (answers group name h)
            (λ h.
              then_ok (values accounts) _ (uncached_all accounts read h)
                (λ rest. pure (value group name ∷ rest)) (uncached_all_right accounts h)
                (λ h. refl))

-- the value, without the cache
abbrev pub value_of : {A B : Type 0} → Result (A × B) → Result A
value_of (ok x) = ok x.0
value_of (err e) = err e

value_of_right :
    {A B : Type 0} (value : Text → Text → A) (b : B) (x : Result (B × Cache A))
    → IsRight value b x
    → value_of x ≡ ok b
value_of_right value b (ok x) right = rw right.0
value_of_right value b (err e) right = absurd right

module _ (r : Retrying) (z : Azure) (value : Text → Text → Text) (more : Text → Text → List Text)
    (stable : (group name : Text) (h : History)
      → z.account_keys (list_keys group name ∷ h) ≡ ok (value group name ∷ more group name)) where
  read_lem :
      (group name : Text) (h : History)
      → read_account_key r z group name h ≡ (ok (value group name), list_keys group name ∷ h)
  unfolding read_account_key ◌>>=◌ call pure first_key
  read_lem group name h = rw (stable group name h)

  -- the reference: every account's key is read from Azure
  abbrev pub read_with_attempts : Text → Text → M Text
  read_with_attempts group name =
      r.retry Text 20 retry_if_connection_error (read_account_key r z group name)

  key-IsRight :
      (keys : Cache Text) (group name : Text) (h : History)
      → IsTrue value keys
      → IsRight value (value group name) (get_storage_account_key r z keys group name h).0
  unfolding get_storage_account_key
  key-IsRight keys group name h t =
      go (cached keys group name (read_account_key r z group name) h) refl (
        cached-IsRight value keys group name (read_account_key r z group name) h
          (ap (λ x. x.0) (read_lem group name h)) t)
    where
      go :
          (x : Result (Text × Cache Text) × History)
          → cached keys group name (read_account_key r z group name) h ≡ x
          → IsRight value (value group name) x.0
          → IsRight value (value group name) (get_storage_account_key r z keys group name h).0
      go (ok a, k) e right =
          subst (λ x. IsRight value (value group name) x.0)
            (sym (retry_done r 18 retry_if_connection_error _ h k a e)) right
      go (err a, k) e right = absurd right

  -- While Azure answers every request for the keys of an account alike, the keys that a sequence of
  -- cached look-ups returns, whichever accounts are repeated and whatever true entries the cache
  -- starts with, are those that reading every one of them from Azure returns.
  pub get_storage_account_key_transparent :
      (keys : Cache Text) (accounts : List (Text × Text)) (h k : History)
      → IsTrue value keys
      → value_of (look_up_all (get_storage_account_key r z) keys accounts h).0
        ≡ (uncached_all accounts read_with_attempts k).0
  get_storage_account_key_transparent keys accounts h k t =
      value_of_right value (values value accounts)
        (look_up_all (get_storage_account_key r z) keys accounts h).0
        (look_up_all-IsRight value (get_storage_account_key r z) key-IsRight keys accounts h t)
      ∙ sym (
          uncached_all_right value read_with_attempts
            (λ group name h.
              ap (λ x. x.0)
                (retry_done r 18 retry_if_connection_error _ h _ _ (read_lem group name h)))
            accounts k)
