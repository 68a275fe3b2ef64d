-- ===== src/Deletion/Commands.antt =====
-- How the commands of `delete` run: what is not found is passed over, anything else stops.
use azure_shell.Prelude.{
  ◌≡◌, refl, true, false, List, [], ◌∷◌, ◌++◌, if◌then◌else◌, ⊤, All, ◌∙◌, subst, append-nil,
}
use azure_shell.Text.{Text}
use azure_shell.Errors.{Error, Result, ok, err}
use azure_shell.Cloud.{Azure, History, delete_nic}
use azure_shell.Effects.{M, ◌>>=◌, bind_result, pure, raise, call, handle, handle_result, for_each}
use azure_shell.Effects.Retry.{Retrying, retry5_err, retry_if_connection_error}
use azure_shell.Networks.{delete_nics}
use azure_shell.Deletion.{is_not_found, run_commands}

-- the code returns, or raises that the resource is not found
abbrev pub Tolerates : Result ⊤ → Type 0
Tolerates (ok _) = ⊤
Tolerates (err e) = is_not_found e ≡ true

pub record IsTolerated (m : M ⊤) : Type 0 where
  pub at : (h : History) → Tolerates (m h).0

-- the history after running commands whatever they raise
abbrev pub after : List (M ⊤) → History → History
after [] h = h
after (m ∷ ms) h = after ms (m h).1

passed_over :
    (x : Result ⊤ × History) (k : M ⊤)
    → Tolerates x.0
    → bind_result (handle_result (λ e. if is_not_found e then pure tt else raise e) x) (λ _. k)
      ≡ k x.1
unfolding pure
passed_over (ok _, h) k t = refl
passed_over (err e, h) k t = rw t

stopped :
    (x : Result ⊤ × History) (k : M ⊤) (e : Error) (h : History)
    → x ≡ (err e, h)
    → is_not_found e ≡ false
    → bind_result (handle_result (λ e. if is_not_found e then pure tt else raise e) x) (λ _. k)
      ≡ (err e, h)
unfolding pure raise
stopped x k e h eq fatal = rw eq (rw fatal)

run_commands-append :
    (ms rest : List (M ⊤)) (h : History)
    → All IsTolerated ms
    → run_commands (ms ++ rest) h ≡ run_commands rest (after ms h)
unfolding run_commands ◌>>=◌ handle
run_commands-append [] rest h t = refl
run_commands-append (m ∷ ms) rest h t =
    passed_over (m h) (run_commands (ms ++ rest)) (t.0.at h)
    ∙ run_commands-append ms rest (m h).1 t.1

-- Commands that return or do not find their resource all run, in their order, and the operation goes
-- on.
pub run_commands_lem :
    (ms : List (M ⊤)) (h : History) → All IsTolerated ms → run_commands ms h ≡ (ok tt, after ms h)
unfolding run_commands pure
run_commands_lem ms h t =
    subst (λ l. run_commands l h ≡ (ok tt, after ms h)) (append-nil ms)
      (run_commands-append ms [] h t)

-- The first command that raises anything else than that its resource is not found ends the operation
-- with what it raised, and the commands behind it do not run.
pub run_commands_stops :
    (ms : List (M ⊤)) (m : M ⊤) (rest : List (M ⊤)) (e : Error) (h h' : History)
    → All IsTolerated ms
    → m (after ms h) ≡ (err e, h')
    → is_not_found e ≡ false
    → run_commands (ms ++ m ∷ rest) h ≡ (err e, h')
unfolding run_commands ◌>>=◌ handle
run_commands_stops ms m rest e h h' t raises fatal =
    run_commands-append ms (m ∷ rest) h t
    ∙ stopped (m (after ms h)) (run_commands rest) e h' raises fatal

first_fails :
    (z : Azure) (group name : Text) (names : List Text) (e : Error) (h : History)
    → z.done (delete_nic group name ∷ h) ≡ err e
    → for_each (name ∷ names) (λ n. call (delete_nic group n) z.done) h
      ≡ (err e, delete_nic group name ∷ h)
unfolding for_each ◌>>=◌ call
first_fails z group name names e h answer = rw answer

-- `delete_nics` is one command for all the NICs. If the first of them is not found, the others are
-- not deleted, and the operation goes on as if they were.
pub delete_nics_skips_rest :
    (r : Retrying) (z : Azure) (group name : Text) (names : List Text) (e : Error) (h : History)
    → z.done (delete_nic group name ∷ h) ≡ err e
    → is_not_found e ≡ true
    → retry_if_connection_error e ≡ false
    → run_commands (delete_nics r z group (name ∷ names) ∷ []) h
      ≡ (ok tt, delete_nic group name ∷ h)
unfolding delete_nics run_commands ◌>>=◌ handle pure
delete_nics_skips_rest r z group name names e h answer absent final =
    let each = for_each (name ∷ names) (λ n. call (delete_nic group n) z.done) in
    let first : each h ≡ (err e, delete_nic group name ∷ h) =
      first_fails z group name names e h answer in
    rw (retry5_err r each h (delete_nic group name ∷ h) e first final) (rw absent)
