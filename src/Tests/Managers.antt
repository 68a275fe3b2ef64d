-- ===== src/Tests/Managers.antt =====
-- Threads that ask for the clients of cloud providers.
use azure_shell.Prelude.{ℕ, ◌≡◌, refl, false, none, List, [], ◌∷◌, ◌==◌, arith, if◌then◌else◌}
use azure_shell.Text.{eq}
use azure_shell.Clients.{
  Provider, network, idle, call_wait, Client, State, construct, check_params_equality, step_at,
  step, run,
}
use azure_shell.Clients.Kept.{Fits, IsConsistent}
use azure_shell.Clients.Owned.{client_is_own, client_is_shared}

abbrev provider : ℕ → Provider
provider c = record {
  subscription_id = c ∷ [];
  application_id = c ∷ [];
  application_key = c ∷ [];
  tenant = c ∷ [];
}

-- no manager yet; two threads of two providers
abbrev two_providers : State
two_providers = record {
  instance_of_cls = none;
  next = 0;
  providers = λ m. provider 0;
  clients = λ m k. none;
  made = 0;
  is_tracked = λ i. false;
  held = none;
  pc = λ t.
      if t == 0
      then call_wait (provider 7) network
      else if t == 1
      then call_wait (provider 8) network
      else idle;
}

two_providers-Fits :
    (t : ℕ)
    → Fits two_providers.next two_providers.providers two_providers.clients two_providers.held t
        (two_providers.pc t)
two_providers-Fits t = ground arith

two_providers-IsConsistent : IsConsistent two_providers
two_providers-IsConsistent = record {
  fits = two_providers-Fits;
  made_for = λ m k x e. cc;
  below = tt;
}

-- thread 1 constructs its manager while thread 0 is on its way to the client of its own
abbrev turns : List ℕ
turns = 0 ∷ 0 ∷ 0 ∷ 1 ∷ 0 ∷ 0 ∷ 1 ∷ 1 ∷ 1 ∷ 1 ∷ 1 ∷ 0 ∷ 0 ∷ 0 ∷ 0 ∷ 0 ∷ 0 ∷ 0 ∷ []

client_is_own_example : construct network (provider 7) ≡ construct network (provider 7)
unfolding run step step_at check_params_equality eq
client_is_own_example =
    client_is_own turns two_providers two_providers-IsConsistent 0 (provider 7) network 0
      (0, construct network (provider 7)) refl

abbrev same_provider : State
same_provider = record two_providers {
  pc = λ t.
      if t == 0
      then call_wait (provider 7) network
      else if t == 1
      then call_wait (provider 7) network
      else idle;
}

same_provider-Fits :
    (t : ℕ)
    → Fits same_provider.next same_provider.providers same_provider.clients same_provider.held t
        (same_provider.pc t)
same_provider-Fits t = ground arith

same_provider-IsConsistent : IsConsistent same_provider
same_provider-IsConsistent = record {
  fits = same_provider-Fits;
  made_for = λ m k x e. cc;
  below = tt;
}

-- the second thread finds the manager of the first
abbrev turns_of_same : List ℕ
turns_of_same =
    0 ∷ 0 ∷ 0 ∷ 0 ∷ 0 ∷ 1 ∷ 1 ∷ 1 ∷ 0 ∷ 1 ∷ 0 ∷ 0 ∷ 0 ∷ 1 ∷ 0 ∷ 0 ∷ 0 ∷ 1 ∷ 1 ∷ 1 ∷ 1 ∷ []

client_is_shared_example :
    ◌≡◌ {A = ℕ × Client} (0, construct network (provider 7)) (0, construct network (provider 7))
unfolding run step step_at check_params_equality eq
client_is_shared_example =
    client_is_shared turns_of_same same_provider same_provider-IsConsistent 0 (provider 7) network 0
      (0, construct network (provider 7)) 1 (provider 7) (0, construct network (provider 7)) refl
      refl
