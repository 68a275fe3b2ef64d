-- ===== src/Names/Subnet.antt =====
-- Names of subnets: what creates a sandbox's subnets and what looks for them agree on the prefix.
use azure_shell.Prelude.{◌≡◌, ◌≢◌, true, [], ◌∷◌, ◌++◌, arith, All, All-map_of, All-every}
use azure_shell.Text.{Text, starts_with, starts_with-append}
use azure_shell.Text.Edit.{replace, replace-All, replace-append, replace_absent}
use azure_shell.Names.{format_subnet_name}

-- A resource group's name has no spaces and slashes.
abbrev pub IsGroupName : Text → Type 0
IsGroupName g = All (λ c. c ≢ b' ') g × All (λ c. c ≢ b'/') g

format_subnet_name-append :
    (g cidr : Text)
    → IsGroupName g
    → format_subnet_name g cidr ≡ g ++ replace b'/' (b'-' ∷ []) (replace b' ' [] (b'_' ∷ cidr))
unfolding format_subnet_name
format_subnet_name-append g cidr h = rw (
  replace-append b' ' [] g (b'_' ∷ cidr),
  replace_absent b' ' [] g h.0,
  replace-append b'/' (b'-' ∷ []) g (replace b' ' [] (b'_' ∷ cidr)),
  replace_absent b'/' (b'-' ∷ []) g h.1,
)

-- The name of a sandbox's subnet begins with the name of the sandbox's resource group.
pub starts_with-format_subnet_name :
    (g cidr : Text) → IsGroupName g → starts_with (format_subnet_name g cidr) g ≡ true
starts_with-format_subnet_name g cidr h =
    rw (format_subnet_name-append g cidr h)
      (starts_with-append g (replace b'/' (b'-' ∷ []) (replace b' ' [] (b'_' ∷ cidr))))

not_space_All : (s : Text) → All (λ c. c ≢ b' ') (replace b' ' [] s)
not_space_All s =
    replace-All (λ c. c ≢ b' ') b' ' [] tt s (All-every (λ x. x ≢ b' ' → x ≢ b' ') s (λ x h. h))

-- No subnet name has a slash or a space, whatever the names of the group and the CIDR.
pub format_subnet_name-All :
    (g cidr : Text) → All (λ c. (c ≢ b'/') × (c ≢ b' ')) (format_subnet_name g cidr)
unfolding format_subnet_name
format_subnet_name-All g cidr =
    let s = replace b' ' [] (g ++ b'_' ∷ cidr) in
    replace-All (λ c. (c ≢ b'/') × (c ≢ b' ')) b'/' (b'-' ∷ []) (omega arith) s
      (All-map_of (λ c. c ≢ b' ') (λ c. c ≢ b'/' → (c ≢ b'/') × (c ≢ b' ')) s (λ c h k. (k, h))
        (not_space_All (g ++ b'_' ∷ cidr)))
