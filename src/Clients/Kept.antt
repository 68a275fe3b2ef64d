-- ===== src/Clients/Kept.antt =====
-- What holds of the managers and of the lock at each place, and that the steps of other threads keep
-- it.
use azure_shell.Prelude.{
  ℕ, ◌+◌, ◌<◌, ◌≡◌, ◌≢◌, refl, sym, ◌∙◌, ap, true, Option, none, some, ◌==◌, ==_iff, if◌then◌else◌,
  arith, ⊤,
}
use azure_shell.Text.{eq_sound}
use azure_shell.Clients.{
  Provider, check_params_equality, ClientKind, compute, network, storage, resource, subscription,
  code, Client, construct, Pc, idle, call_wait, call_get, call_create, call_store, call_release,
  client_check, client_wait, client_recheck, client_create, client_agent, client_release,
  client_read, client_none, client_got, Clients, State, set_at, set_client,
}

abbrev pub IsPresent : {A : Type 0} → Option A → Type 0
IsPresent none = ⊥
IsPresent (some c) = ⊤

-- manager `m` exists, and is one of the provider
abbrev pub IsOwn : ℕ → (ℕ → Provider) → Provider → ℕ → Type 0
IsOwn next providers p m = (m < next) × (providers m ≡ p)

-- what holds of the managers and of the lock while thread `t` stands at a place
abbrev pub Fits : ℕ → (ℕ → Provider) → Clients → Option ℕ → ℕ → Pc → Type 0
Fits n d c h t idle = ⊤
Fits n d c h t (call_wait p k) = ⊤
Fits n d c h t (call_get p k) = h ≡ some t
Fits n d c h t (call_create p k) = h ≡ some t
Fits n d c h t (call_store p k m) = (h ≡ some t) × IsOwn n d p m
Fits n d c h t (call_release p k m) = (h ≡ some t) × IsOwn n d p m
Fits n d c h t (client_check p k m) = IsOwn n d p m
Fits n d c h t (client_wait p k m) = IsOwn n d p m
Fits n d c h t (client_recheck p k m) = (h ≡ some t) × IsOwn n d p m
Fits n d c h t (client_create p k m) = (h ≡ some t) × IsOwn n d p m × (c m k ≡ none)
Fits n d c h t (client_agent p k m) = (h ≡ some t) × IsOwn n d p m × IsPresent (c m k)
Fits n d c h t (client_release p k m) = (h ≡ some t) × IsOwn n d p m × IsPresent (c m k)
Fits n d c h t (client_read p k m) = IsOwn n d p m × IsPresent (c m k)
Fits n d c h t (client_none p k m) = ⊥
Fits n d c h t (client_got p k m x) = IsOwn n d p m × (c m k ≡ some x)

-- a client was constructed for the provider of its manager, which exists
abbrev pub IsMadeFor : ℕ → (ℕ → Provider) → Clients → Type 0
IsMadeFor n d c =
    (m : ℕ) (k : ClientKind) (x : ℕ × Client) → c m k ≡ some x → (m < n) × (x.1 ≡ construct k (d m))

-- the manager in `__instances_by_cls` exists
abbrev pub IsBelow : Option ℕ → ℕ → Type 0
IsBelow none n = ⊤
IsBelow (some m) n = m < n

pub record IsConsistent (s : State) : Type 0 where
  pub fits : (t : ℕ) → Fits s.next s.providers s.clients s.held t (s.pc t)
  pub made_for : IsMadeFor s.next s.providers s.clients
  pub below : IsBelow s.instance_of_cls s.next

pub check_params_equality_sound : (p q : Provider) → check_params_equality p q ≡ true → q ≡ p
unfolding check_params_equality
check_params_equality_sound p q e = ground (
  arith,
  eq_sound p.subscription_id q.subscription_id,
  eq_sound p.application_id q.application_id,
  eq_sound p.application_key q.application_key,
  eq_sound p.tenant q.tenant,
)

of_code : ℕ → ClientKind
of_code n =
    if n == 0
    then compute
    else if n == 1
    then network
    else if n == 2
    then storage
    else if n == 3
    then resource
    else subscription

of_code-code : (k : ClientKind) → of_code (code k) ≡ k
unfolding of_code
of_code-code compute = refl
of_code-code network = refl
of_code-code storage = refl
of_code-code resource = refl
of_code-code subscription = refl

pub code_inj : (k l : ClientKind) → (code k == code l) ≡ true → k ≡ l
code_inj k l e = sym (of_code-code k) ∙ ap of_code ((==_iff (code k) (code l)).0 e) ∙ of_code-code l

module _ (n : ℕ) (d : ℕ → Provider) (c : Clients) (t u : ℕ) (other : t ≢ u) where
  -- What thread `u` relies on survives what thread `t` does: taking the lock,
  pub Fits-acquire : (q : Pc) → Fits n d c none u q → Fits n d c (some t) u q
  Fits-acquire idle f = f
  Fits-acquire q f = ground arith

  -- giving it back,
  pub Fits-release : (q : Pc) → Fits n d c (some t) u q → Fits n d c none u q
  Fits-release idle f = f
  Fits-release q f = ground arith

  -- constructing a manager,
  pub Fits-manager :
      (p : Provider) (q : Pc) → Fits n d c (some t) u q → Fits (n + 1) (set_at n p d) c (some t) u q
  Fits-manager p idle f = f
  Fits-manager p q f = ground arith

  -- and assigning a client that a manager does not have.
  pub Fits-client :
      (m : ℕ) (k : ClientKind) (x : ℕ × Client) (q : Pc)
      → c m k ≡ none
      → Fits n d c (some t) u q
      → Fits n d (set_client m k x c) (some t) u q
  Fits-client m k x idle absent f = f
  Fits-client m k x (client_read p l j) absent f = ground (arith, code_inj k l)
  Fits-client m k x (client_got p l j y) absent f = ground (arith, code_inj k l)
  Fits-client m k x q absent f = ground arith
