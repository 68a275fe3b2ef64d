-- ===== src/ModelParser/Booleans.antt =====
-- How an attribute that means a Boolean is read, and how it is used.
use azure_shell.Prelude.{◌≡◌, refl, false, [], ◌∷◌}
use azure_shell.Text.{Text, text, eq, is_empty}
use azure_shell.Text.Edit.{lower, lower_idem}
use azure_shell.Cloud.{Azure}
use azure_shell.Effects.{pure}
use azure_shell.Effects.Retry.{Retrying}
use azure_shell.SecurityGroups.Rules.{Constants}
use azure_shell.VmRules.{block_sandbox}
use azure_shell.ModelParser.{convert_to_boolean}

-- Boolean attributes are read whatever their case is.
convert_to_boolean-lower :
    (value : Text) → convert_to_boolean (lower value) ≡ convert_to_boolean value
unfolding convert_to_boolean
convert_to_boolean-lower value = rw (lower_idem value)

not_empty : (attribute : Text) → lower attribute ≡ text "false" → is_empty attribute ≡ false
unfolding text lower
not_empty [] e = cc
not_empty (c ∷ cs) e = refl

-- An attribute that is `false` in another case than `False` is false to the parser of Boolean
-- attributes, and all the same it leaves a VM without the rules that keep traffic of the sandbox from
-- it: there the attribute is compared with `False` itself.
pub block_sandbox_misses :
    (r : Retrying) (z : Azure) (k : Constants) (group nsg attribute : Text)
    → lower attribute ≡ text "false"
    → eq attribute (text "False") ≡ false
    → (convert_to_boolean attribute ≡ false) × (block_sandbox r z k group nsg attribute ≡ pure tt)
unfolding block_sandbox convert_to_boolean eq text
block_sandbox_misses r z k group nsg attribute e f = (rw e refl, rw (not_empty attribute e, f) refl)
