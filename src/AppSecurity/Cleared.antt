-- ===== src/AppSecurity/Cleared.antt =====
-- What a request that leaves an app without rules comes to.
use azure_shell.Prelude.{◌≡◌, refl, Bool, true, false, Option, none, some, List, [], ◌∷◌, All, ⊤}
use azure_shell.Text.{Text}
use azure_shell.Errors.{Result, ok, err}
use azure_shell.Cloud.{Azure, History}
use azure_shell.Effects.{M, bind_result, ◌>>=◌, pure, raise, attempt, collect}
use azure_shell.Effects.Retry.{Retrying}
use azure_shell.SecurityGroups.Rules.{Constants}
use azure_shell.AppSecurity.{
  AppSecurityGroup, AppResult, Libraries, result_of, set_app, set_apps_security_groups, iterated,
}
use azure_shell.AppSecurity.Requests.{
  RequestedApp, RequestedConfiguration, unless_none, parse_security_group_configurations, model_of,
  convert_to_app_security_group_models,
}

-- an exception was raised
abbrev pub has_raised : {A : Type 0} → Result A → Bool
has_raised (ok a) = false
has_raised (err e) = true

abbrev pub Raises : {A : Type 0} → M A → Type 0
Raises m = (h : History) → has_raised (m h).0 ≡ true

bind-Raises : {A B : Type 0} (m : M A) (f : A → M B) → ((a : A) → Raises (f a)) → Raises (m >>= f)
unfolding ◌>>=◌
bind-Raises {A = A} {B = B} m f g h = after (m h)
  where
    after : (x : Result A × History) → has_raised (bind_result x f).0 ≡ true
    after (ok a, h) = g a h
    after (err e, h) = refl

iterated-Raises :
    {A B : Type 0} (items : Option (List A)) (f : List A → M B)
    → items ≡ none
    → Raises (iterated items >>= f)
unfolding iterated raise ◌>>=◌
iterated-Raises none f e h = refl
iterated-Raises (some l) f e h = cc

-- the operation returns, and every result says that it failed
abbrev pub AllFailed : Result (List AppResult) → Type 0
AllFailed (ok results) = All (λ x. x.success ≡ false) results
AllFailed (err e) = ⊥

-- no configurations: an empty list, or none at all
abbrev pub IsEmpty : Option (List RequestedConfiguration) → Type 0
IsEmpty none = ⊤
IsEmpty (some []) = ⊤
IsEmpty (some (_ ∷ _)) = ⊥

parsed-none :
    (configurations : Option (List RequestedConfiguration))
    → IsEmpty configurations
    → parse_security_group_configurations configurations ≡ none
unfolding parse_security_group_configurations unless_none
parsed-none none h = refl
parsed-none (some []) h = refl
parsed-none (some (_ ∷ _)) h = absurd h

result-failed :
    (app : Text) (x : Result ⊤) → has_raised x ≡ true → (result_of app x).success ≡ false
unfolding result_of
result-failed app (ok _) h = cc
result-failed app (err e) h = refl

module _ (r : Retrying) (z : Azure) (k : Constants) (libraries : Libraries) (group : Text) where
  set_app-Raises :
      (app : AppSecurityGroup)
      → app.configurations ≡ none
      → Raises (set_app r z k libraries group app)
  unfolding set_app
  set_app-Raises app e =
      bind-Raises _ _
        λ _. bind-Raises _ _ λ vm. bind-Raises _ _ λ nics. iterated-Raises app.configurations _ e

  -- When every app of a request comes without configurations, in an empty list or in none, then
  -- whatever Azure answers, the operation returns and reports a failure for each of the apps.
  pub set_apps_security_groups-AllFailed :
      (requested : List RequestedApp) (h : History)
      → All (λ app. IsEmpty app.configurations) requested
      → AllFailed
          (set_apps_security_groups r z k libraries group
            (convert_to_app_security_group_models requested)
            h).0
  unfolding convert_to_app_security_group_models set_apps_security_groups collect ◌>>=◌ attempt pure
      model_of
  set_apps_security_groups-AllFailed [] h e = tt
  set_apps_security_groups-AllFailed (app ∷ requested) h e =
      let x = set_app r z k libraries group (model_of app) h in
      rest
        (set_apps_security_groups r z k libraries group
          (convert_to_app_security_group_models requested) x.1)
        (result_of app.name x.0)
        (result-failed app.name x.0
          (set_app-Raises (model_of app) (parsed-none app.configurations e.0) h))
        (set_apps_security_groups-AllFailed requested x.1 e.1)
    where
      rest :
          (y : Result (List AppResult) × History) (one : AppResult)
          → one.success ≡ false
          → AllFailed y.0
          → AllFailed (bind_result y (λ results. pure (one ∷ results))).0
      rest (ok results, h) one e f = (e, f)
      rest (err raised, h) one e f = f
