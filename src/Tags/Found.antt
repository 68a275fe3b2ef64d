-- ===== src/Tags/Found.antt =====
-- What is found among the tags of a reservation.
use azure_shell.Prelude.{
  ◌≡◌, refl, ◌∙◌, Option, none, some, [], ◌∷◌, if◌then◌else◌, arith, Bool-cases, inl, inr,
}
use azure_shell.Text.{Text, text, is_empty, eq, eq_refl, eq_sound}
use azure_shell.Tags.{Dict, insert, lookup, Reservation, update_if, get_tags, try_find_tag}

-- An update changes what is found at its own key only.
pub lookup-insert :
    (k j v : Text) (d : Dict) → lookup j (insert k v d) ≡ (if eq k j then some v else lookup j d)
unfolding lookup insert
lookup-insert k j v [] = refl
lookup-insert k j v ((i, w) ∷ d) =
    ground
      (arith, eq_sound k j, eq_sound i k, eq_sound i j, eq_refl k, eq_refl j, lookup-insert k j v d)

lookup-update_if :
    (k j v : Text) (d : Dict)
    → lookup j (update_if k v d)
      ≡ (if eq k j then (if is_empty v then lookup j d else some v) else lookup j d)
unfolding update_if
lookup-update_if k j [] d = elim (Bool-cases (eq k j)) [ inl e ↦ rw e | inr e ↦ rw e ]
lookup-update_if k j (c ∷ v) d = lookup-insert k j (c ∷ v) d

-- the value of a tag that is set only where it is not empty
abbrev pub unless_empty : Text → Option Text
unless_empty v = if is_empty v then none else some v

-- one update after another, as a chain of tests on the key
abbrev after_update : Text → Text → Text → Option Text → Option Text
after_update k j v o = if eq k j then (if is_empty v then o else some v) else o

lookup-get_tags :
    (vm_name : Text) (r : Reservation) (j : Text)
    → lookup j (get_tags vm_name r)
      ≡ after_update (text "Domain") j r.domain (
          after_update (text "Blueprint") j r.blueprint (
            after_update (text "SandboxId") j r.reservation_id (
              after_update (text "Owner") j r.owner (
                after_update
                  (text "Name")
                  j
                  vm_name
                  (lookup j ((text "CreatedBy", text "Cloudshell") ∷ []))))))
unfolding get_tags
lookup-get_tags vm_name r j = simp lookup-update_if

-- Each tag of a VM in a reservation is found under its name, and is absent exactly where its value
-- is empty; every resource is tagged as created by CloudShell.
pub try_find_tag-get_tags :
    (vm_name : Text) (r : Reservation)
    → let find = try_find_tag (some (get_tags vm_name r)) in
      (find (text "CreatedBy") ≡ some (text "Cloudshell"))
      × (find (text "Name") ≡ unless_empty vm_name)
      × (find (text "Owner") ≡ unless_empty r.owner)
      × (find (text "SandboxId") ≡ unless_empty r.reservation_id)
      × (find (text "Blueprint") ≡ unless_empty r.blueprint)
      × (find (text "Domain") ≡ unless_empty r.domain)
unfolding try_find_tag
try_find_tag-get_tags vm_name r = (
  lookup-get_tags vm_name r (text "CreatedBy") ∙ (unfold lookup eq text in refl),
  lookup-get_tags vm_name r (text "Name") ∙ (unfold lookup eq text in refl),
  lookup-get_tags vm_name r (text "Owner") ∙ (unfold lookup eq text in refl),
  lookup-get_tags vm_name r (text "SandboxId") ∙ (unfold lookup eq text in refl),
  lookup-get_tags vm_name r (text "Blueprint") ∙ (unfold lookup eq text in refl),
  lookup-get_tags vm_name r (text "Domain") ∙ (unfold lookup eq text in refl),
)
