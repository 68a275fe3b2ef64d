-- ===== src/VmDetails/Prefix.antt =====
-- Which requests the details of VMs answer.
use azure_shell.Prelude.{
  ℕ, zero, suc, ◌≡◌, refl, ap, true, Option, none, some, List, [], ◌∷◌, map, Bool-cases, ◌⊎◌, inl,
  inr,
}
use azure_shell.Text.{Text}
use azure_shell.Errors.{Result, ok, err}
use azure_shell.Cloud.{Azure, History}
use azure_shell.Effects.{bind_result, ◌>>=◌, pure, attempt}
use azure_shell.Effects.Retry.{Retrying}
use azure_shell.VmDetails.{
  DetailsRequest, VmDetails, ImageIds, settled, is_cancelled_now, details_of, get_vm_details,
}

abbrev pub take {ℓ} : {A : Type ℓ} → ℕ → List A → List A
take zero xs = []
take (suc n) [] = []
take (suc n) (x ∷ xs) = x ∷ take n xs

-- the names of the apps of which the details tell, where they are returned
abbrev pub names_of : Result (List VmDetails) → Option (List Text)
names_of (ok results) = some (map (λ x. x.app_name) results)
names_of (err e) = none

abbrev pub asked : List DetailsRequest → List Text
asked requests = map (λ request. request.app_name) requests

settled-name : (name : Text) (x : Result VmDetails) → (settled name x).app_name ≡ name
unfolding settled
settled-name name (ok details) = refl
settled-name name (err e) = refl

-- The details of the first `n` requests are returned, which are all of them, or else the command is
-- cancelled at the end.
abbrev pub IsAnswered : Azure → List DetailsRequest → ℕ → Result (List VmDetails) × History → Type 0
IsAnswered z requests n (result, h) =
    (names_of result ≡ some (take n (asked requests)))
    × ((take n (asked requests) ≡ asked requests) ⊎ (z.is_cancelled h ≡ true))

IsAnswered-cons :
    (z : Azure) (request : DetailsRequest) (requests : List DetailsRequest) (n : ℕ)
    (y : Result (List VmDetails) × History) (one : VmDetails)
    → one.app_name ≡ request.app_name
    → IsAnswered z requests n y
    → IsAnswered z (request ∷ requests) (suc n) (bind_result y (λ results. pure (one ∷ results)))
unfolding pure
IsAnswered-cons z request requests n (ok results, h) one e (f, inl whole) =
    (cc, inl (ap (λ (names : List Text). request.app_name ∷ names) whole))
IsAnswered-cons z request requests n (ok results, h) one e (f, inr cancelled) = (cc, inr cancelled)
IsAnswered-cons z request requests n (err raised, h) one e (f, g) = absurd (cc f)

module _ (r : Retrying) (z : Azure) (ids : ImageIds) (group : Text) where
  -- Whatever Azure answers, and whenever the command is cancelled, the operation returns, with the
  -- details of the first of the requests, in their order. They are those of all requests, or else the
  -- command is cancelled at the end.
  pub get_vm_details_total :
      (requests : List DetailsRequest) (h : History)
      → (n : ℕ) × IsAnswered z requests n (get_vm_details r z ids group requests h)
  unfolding get_vm_details ◌>>=◌ attempt pure is_cancelled_now
  get_vm_details_total [] h = (0, (refl, inl refl))
  get_vm_details_total (request ∷ requests) h = elim (Bool-cases (z.is_cancelled h)) [
    | inl cancelled ↦ (0, rw cancelled (refl, inr cancelled))
    | inr goes_on ↦
        let x = details_of r z ids group request h in
        let rest = get_vm_details_total requests x.1 in
        (
          suc rest.0,
          rw goes_on (
              IsAnswered-cons z request requests rest.0 (get_vm_details r z ids group requests x.1)
                (settled request.app_name x.0) (settled-name request.app_name x.0) rest.1),
        )
  ]
