-- ===== src/Tests/Texts.antt =====
-- Names, port attributes, tags and priorities.
use azure_shell.Prelude.{ℕ, ◌≤◌, ◌≡◌, ◌≢◌, refl, true, none, some, List, [], ◌∷◌, map, All, length}
use azure_shell.Text.{Text, text}
use azure_shell.Errors.{ok}
use azure_shell.Names.{is_alnum, prepare_storage_account_name}
use azure_shell.Names.Generated.{prepare_storage_account_name_lem}
use azure_shell.Ports.Match.{is_digit}
use azure_shell.Ports.Spec.{PortSpec, range, port}
use azure_shell.Ports.RoundTrip.{rule_of, print_all, parse_port_group_attribute-print_all}
use azure_shell.Ports.RulesAttribute
use azure_shell.Tags.{Reservation, try_find_tag, get_tags}
use azure_shell.Tags.Found.{unless_empty, try_find_tag-get_tags}
use azure_shell.Priorities.{priorities, rule_priority_generator}
use azure_shell.Priorities.Fresh.{AscendsFrom, rule_priority_generator_lem}

abbrev unique : Text
unique = b'1' ∷ b'2' ∷ b'3' ∷ b'4' ∷ b'5' ∷ b'6' ∷ b'7' ∷ b'8' ∷ []

abbrev app : Text
app = b'-' ∷ b'm' ∷ b'y' ∷ b'_' ∷ b'a' ∷ []

prepare_storage_account_name_example :
    All (λ c. is_alnum c ≡ true) (prepare_storage_account_name unique app)
    × (length (prepare_storage_account_name unique app) ≤ 24)
prepare_storage_account_name_example = prepare_storage_account_name_lem unique app

abbrev number : Text
number = b'8' ∷ b'0' ∷ []

abbrev entries : List PortSpec
entries = range number number ∷ port number ∷ []

parse_port_group_attribute-print_all_example :
    RulesAttribute.parse_port_group_attribute (print_all entries) ≡ ok (map rule_of entries)
unfolding is_digit
parse_port_group_attribute-print_all_example =
    parse_port_group_attribute-print_all entries
      ((((refl, (refl, tt)), refl), ((refl, (refl, tt)), refl)), (((refl, (refl, tt)), refl), tt))

abbrev reservation : Reservation
reservation = record {
  reservation_id = text "r1";
  owner = text "admin";
  blueprint = text "";
  domain = text "Global";
}

try_find_tag-get_tags_example :
    let find = try_find_tag (some (get_tags app reservation)) in
    (find (text "CreatedBy") ≡ some (text "Cloudshell"))
    × (find (text "Name") ≡ unless_empty app)
    × (find (text "Owner") ≡ unless_empty reservation.owner)
    × (find (text "SandboxId") ≡ unless_empty reservation.reservation_id)
    × (find (text "Blueprint") ≡ unless_empty reservation.blueprint)
    × (find (text "Domain") ≡ unless_empty reservation.domain)
try_find_tag-get_tags_example = try_find_tag-get_tags app reservation

abbrev in_use : List ℕ
in_use = 1010 ∷ 1000 ∷ 4000 ∷ []

rule_priority_generator_example :
    AscendsFrom 1000 (priorities 4 (rule_priority_generator in_use none))
    × All (λ p. All (λ v. p ≢ v) (priorities 4 (rule_priority_generator in_use none))) in_use
rule_priority_generator_example = rule_priority_generator_lem in_use none 4
