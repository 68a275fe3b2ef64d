-- ===== src/Priorities.antt =====
-- `SecurityGroupService._rule_priority_generator` of
-- package/cloudshell/cp/azure/domain/services/security_group.py.
--
-- The generator walks the sorted list `relevant_existing_priorities` by the index `i`. Its state is
-- kept here as the pair of `relevant_existing_priorities[i] + RULE_PRIORITY_INCREASE_STEP`, the next
-- candidate, and the finite part of `relevant_existing_priorities[i + 1:]`, which the end limit
-- `float("inf")` closes. The list begins with `start_limit`, as no relevant priority is below it, so
-- that the first candidate is `start_from` itself: no number below 0 is needed, also where
-- `start_from` is less than the step.
pub mod Fresh
pub mod Bound
use azure_shell.Prelude.{
  ℕ, zero, suc, ◌+◌, Bool, Option, none, some, List, [], ◌∷◌, leb, ltb, keep, if◌then◌else◌,
}

abbrev pub rule_default_priority : ℕ
rule_default_priority = 1000

abbrev pub rule_priority_increase_step : ℕ
rule_priority_increase_step = 5

pub record Generator : Type 0 where
  pub candidate : ℕ
  pub rest : List ℕ

-- Python's `sorted`, on integers
unfoldable pub insert : ℕ → List ℕ → List ℕ
insert x [] = x ∷ []
insert x (y ∷ ys) = if leb x y then x ∷ y ∷ ys else y ∷ insert x ys

unfoldable pub sorted : List ℕ → List ℕ
sorted [] = []
sorted (x ∷ xs) = insert x (sorted xs)

-- `start_from`, or the default for `None`
abbrev pub start_or_default : Option ℕ → ℕ
start_or_default none = rule_default_priority
start_or_default (some start_from) = start_from

-- the generator before its first `next`; `ep >= start_limit`, with the step on the other side
unfoldable pub rule_priority_generator : List ℕ → Option ℕ → Generator
rule_priority_generator existing_priorities start_from =
    let start = start_or_default start_from in
    record {
      candidate = start;
      rest = sorted (keep (λ ep. leb start (ep + rule_priority_increase_step)) existing_priorities);
    }

-- `next(priority_generator)`: the loop up to its next `yield`
unfoldable pub next_from : ℕ → List ℕ → ℕ × Generator
next_from c [] = (c, record { candidate = c + rule_priority_increase_step; rest = [] })
next_from c (y ∷ ys) =
    if ltb c y
    then (c, record { candidate = c + rule_priority_increase_step; rest = y ∷ ys })
    else next_from (y + rule_priority_increase_step) ys

unfoldable pub next : Generator → ℕ × Generator
next g = next_from g.candidate g.rest

-- the first `n` values
unfoldable pub priorities : ℕ → Generator → List ℕ
priorities zero g = []
priorities (suc n) g = (next g).0 ∷ priorities n (next g).1
