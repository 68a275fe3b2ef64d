-- ===== src/Clients.antt =====
-- `AzureClientsManager` of package/cloudshell/cp/azure/common/azure_clients.py, and its metaclass
-- `SingletonByArgsMeta` of package/cloudshell/cp/azure/common/singletons.py: threads that construct
-- the manager of a cloud provider and then read one of its clients, interleaved line by line. A
-- manager and a client are numbers, by order of creation.
pub mod Kept
pub mod Owned
use azure_shell.Prelude.{
  ℕ, ◌+◌, Bool, true, false, ◌&&◌, Option, none, some, List, [], ◌∷◌, ◌==◌, if◌then◌else◌,
}
use azure_shell.Text.{Text, eq}

-- the attributes of a cloud provider by which managers are told apart
pub record Provider : Type 0 where
  pub subscription_id : Text
  pub application_id : Text
  pub application_key : Text
  pub tenant : Text

-- `check_params_equality`: the manager's attributes come second
unfoldable pub check_params_equality : Provider → Provider → Bool
check_params_equality p q =
    eq p.subscription_id q.subscription_id
    && eq p.application_id q.application_id
    && eq p.application_key q.application_key
    && eq p.tenant q.tenant

-- the properties of a manager
pub data ClientKind : Type 0 where
  compute network storage resource subscription : ClientKind

abbrev pub code : ClientKind → ℕ
code compute = 0
code network = 1
code storage = 2
code resource = 3
code subscription = 4

-- a client, by the arguments that it is constructed with
pub record Client : Type 0 where
  pub kind : ClientKind
  pub client_id : Text
  pub secret : Text
  pub tenant : Text
  pub subscription_id : Option Text

-- the client of a subscription is constructed without one
abbrev pub subscription_of : ClientKind → Text → Option Text
subscription_of subscription id = none
subscription_of kind id = some id

-- `ComputeManagementClient(self._service_credentials, self._subscription_id)` and its like
unfoldable pub construct : ClientKind → Provider → Client
construct kind p = record {
  kind = kind;
  client_id = p.application_id;
  secret = p.application_key;
  tenant = p.tenant;
  subscription_id = subscription_of kind p.subscription_id;
}

-- where a thread stands in `AzureClientsManager(provider)`, and in the property of its manager
pub data Pc : Type 0 where
  idle : Pc
  call_wait call_get call_create : Provider → ClientKind → Pc
  call_store call_release : Provider → ClientKind → ℕ → Pc
  client_check client_wait client_recheck client_create client_agent client_release client_read :
      Provider → ClientKind → ℕ → Pc
  client_none : Provider → ClientKind → ℕ → Pc
  client_got : Provider → ClientKind → ℕ → ℕ × Client → Pc

-- the attributes `_compute_client` and so on, of all managers
abbrev pub Clients : Type 0
Clients = ℕ → ClientKind → Option (ℕ × Client)

-- the manager in `__instances_by_cls`, the number of the next manager, what the managers were
-- constructed with, their clients, the number of the next client, the clients with a tracking id in
-- their user agent, the thread that holds `SingletonByArgsMeta.lock`, and the threads
pub record State : Type 0 where
  pub instance_of_cls : Option ℕ
  pub next : ℕ
  pub providers : ℕ → Provider
  pub clients : Clients
  pub made : ℕ
  pub is_tracked : ℕ → Bool
  pub held : Option ℕ
  pub pc : ℕ → Pc

abbrev pub set_at {ℓ} : {A : Type ℓ} → ℕ → A → (ℕ → A) → ℕ → A
set_at i v f = λ j. if i == j then v else f j

-- `self._compute_client = …` and so on
abbrev pub set_client : ℕ → ClientKind → ℕ × Client → Clients → Clients
set_client m kind c clients = λ n other.
    if m == n
    then (if code kind == code other then some c else clients n other)
    else clients n other

abbrev pub goto : ℕ → Pc → State → State
goto t p s = record s { pc = set_at t p s.pc }

-- `with SingletonByArgsMeta.lock`: a thread waits while the lock is held
abbrev pub acquire : Option ℕ → ℕ → Pc → State → State
acquire none t p s = record (goto t p s) { held = some t }
acquire (some u) t p s = s

-- `if not (instance and instance.check_params_equality(…))`
abbrev pub after_get : Option ℕ → (ℕ → Provider) → Provider → ClientKind → Pc
after_get none providers p kind = call_create p kind
after_get (some m) providers p kind =
    if check_params_equality p (providers m) then call_release p kind m else call_create p kind

-- `if self._compute_client is None`
abbrev pub if_none : {A : Type 0} → Option A → Pc → Pc → Pc
if_none none absent present = absent
if_none (some c) absent present = present

-- `self._compute_client.config.add_user_agent(…)`
abbrev pub track : Option (ℕ × Client) → (ℕ → Bool) → ℕ → Bool
track none is_tracked = is_tracked
track (some (i, c)) is_tracked = set_at i true is_tracked

-- `return self._compute_client`
abbrev pub read : Provider → ClientKind → ℕ → Option (ℕ × Client) → Pc
read p kind m none = client_none p kind m
read p kind m (some c) = client_got p kind m c

unfoldable pub step_at : ℕ → Pc → State → State
unfolding construct
step_at t (call_wait p kind) s = acquire s.held t (call_get p kind) s
step_at t (call_get p kind) s = goto t (after_get s.instance_of_cls s.providers p kind) s
step_at t (call_create p kind) s = record (goto t (call_store p kind s.next) s) {
  next = s.next + 1;
  providers = set_at s.next p s.providers;
}
step_at t (call_store p kind m) s = record (goto t (call_release p kind m) s) {
  instance_of_cls = some m;
}
step_at t (call_release p kind m) s = record (goto t (client_check p kind m) s) { held = none }
step_at t (client_check p kind m) s =
    goto t (if_none (s.clients m kind) (client_wait p kind m) (client_read p kind m)) s
step_at t (client_wait p kind m) s = acquire s.held t (client_recheck p kind m) s
step_at t (client_recheck p kind m) s =
    goto t (if_none (s.clients m kind) (client_create p kind m) (client_release p kind m)) s
step_at t (client_create p kind m) s = record (goto t (client_agent p kind m) s) {
  clients = set_client m kind (s.made, construct kind (s.providers m)) s.clients;
  made = s.made + 1;
}
step_at t (client_agent p kind m) s = record (goto t (client_release p kind m) s) {
  is_tracked = track (s.clients m kind) s.is_tracked;
}
step_at t (client_release p kind m) s = record (goto t (client_read p kind m) s) { held = none }
step_at t (client_read p kind m) s = goto t (read p kind m (s.clients m kind)) s
step_at t idle s = s
step_at t (client_none p kind m) s = s
step_at t (client_got p kind m c) s = s

-- thread `t` runs its next line
unfoldable pub step : ℕ → State → State
step t s = step_at t (s.pc t) s

-- the threads run in the order of a schedule
unfoldable pub run : List ℕ → State → State
run [] s = s
run (t ∷ schedule) s = run schedule (step t s)
