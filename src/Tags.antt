-- ===== src/Tags.antt =====
-- package/cloudshell/cp/azure/domain/services/tags.py and models/reservation_model.py. A dictionary
-- is an association list whose keys differ.
pub mod Found
use azure_shell.Prelude.{ℕ, Bool, Option, none, some, List, [], ◌∷◌, ◌++◌, if◌then◌else◌}
use azure_shell.Text.{Text, text, is_empty, eq}

abbrev pub Dict : Type 0
Dict = List (Text × Text)

-- `d[k] = v`, and `d.update({k: v})`
unfoldable pub insert : Text → Text → Dict → Dict
insert k v [] = (k, v) ∷ []
insert k v ((j, w) ∷ d) = if eq j k then (j, v) ∷ d else (j, w) ∷ insert k v d

unfoldable pub lookup : Text → Dict → Option Text
lookup k [] = none
lookup k ((j, v) ∷ d) = if eq j k then some v else lookup k d

pub record Reservation : Type 0 where
  pub reservation_id : Text
  pub owner : Text
  pub blueprint : Text
  pub domain : Text

-- `if value: result.update({key: value})`
unfoldable pub update_if : Text → Text → Dict → Dict
update_if key value result = if is_empty value then result else insert key value result

-- `TagService.get_tags`; an absent `vm_name` is empty
unfoldable pub get_tags : Text → Reservation → Dict
get_tags vm_name reservation = update_if (text "Domain") reservation.domain (
    update_if (text "Blueprint") reservation.blueprint (
      update_if (text "SandboxId") reservation.reservation_id (
        update_if (text "Owner") reservation.owner
          (update_if (text "Name") vm_name ((text "CreatedBy", text "Cloudshell") ∷ [])))))

-- `TagService.try_find_tag`
unfoldable pub try_find_tag : Option Dict → Text → Option Text
try_find_tag none tag_key = none
try_find_tag (some tags) tag_key = lookup tag_key tags
