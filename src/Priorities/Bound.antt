-- ===== src/Priorities/Bound.antt =====
-- How high the generated priorities go.
use azure_shell.Prelude.{
  ℕ, zero, suc, ◌+◌, ◌*◌, ◌≤◌, ◌<◌, ◌≡◌, refl, Option, List, [], ◌∷◌, arith, leb, ltb, keep, All,
  All-map_of, All-keep, Bool-cases, inl, inr,
}
use azure_shell.Priorities.{
  Generator, sorted, start_or_default, rule_priority_generator, next_from, next, priorities,
}
use azure_shell.Priorities.Fresh.{sorted-All}

next_from-le :
    (b c : ℕ) (l : List ℕ)
    → c ≤ b
    → All (λ y. y + 5 ≤ b) l
    → ((next_from c l).0 ≤ b)
      × ((next_from c l).1.candidate ≤ b + 5)
      × All (λ y. y + 5 ≤ b + 5) (next_from c l).1.rest
unfolding next_from
next_from-le b c [] h k = (h, omega arith, tt)
next_from-le b c (y ∷ ys) h k = elim (Bool-cases (ltb c y)) [
  | inl e ↦ rw e (
    h,
    omega arith,
    (
      omega (arith, k.0),
      All-map_of (λ z. z + 5 ≤ b) (λ z. z + 5 ≤ b + 5) ys (λ z p. omega arith) k.1,
    ),
  )
  | inr e ↦ rw e (next_from-le b (y + 5) ys k.0 k.1)
]

priorities-le_of :
    (n b : ℕ) (g : Generator)
    → g.candidate ≤ b
    → All (λ y. y + 5 ≤ b) g.rest
    → All (λ v. v ≤ b + 5 * n) (priorities (suc n) g)
unfolding priorities next
priorities-le_of zero b g h k = (omega (arith, next_from-le b g.candidate g.rest h k), tt)
priorities-le_of (suc n) b g h k =
    let one = next_from-le b g.candidate g.rest h k in
    (
      omega (arith, one.0),
      All-map_of (λ v. v ≤ b + 5 + 5 * n) (λ v. v ≤ b + 5 * suc n)
          (priorities (suc n) (next_from g.candidate g.rest).1) (λ v p. omega arith)
          (priorities-le_of n (b + 5) (next_from g.candidate g.rest).1 one.1 one.2),
    )

-- Where `start_from` is at most `b`, and every rule stands 5 or more below `b`, the first of `n + 1`
-- priorities is at most `b` and the last at most `b + 5 * n`.
pub priorities-le :
    (existing : List ℕ) (start_from : Option ℕ) (b n : ℕ)
    → start_or_default start_from ≤ b
    → All (λ ep. ep + 5 ≤ b) existing
    → All (λ v. v ≤ b + 5 * n) (priorities (suc n) (rule_priority_generator existing start_from))
priorities-le existing start_from b n h k =
    priorities-le_of n b (rule_priority_generator existing start_from)
      (unfold rule_priority_generator in h)
      (unfold rule_priority_generator in
        sorted-All (λ y. y + 5 ≤ b)
          (keep (λ ep. leb (start_or_default start_from) (ep + 5)) existing)
          (All-keep (λ y. y + 5 ≤ b) (λ ep. leb (start_or_default start_from) (ep + 5)) existing k))

-- the values from `c` on, in steps of 5
abbrev pub in_steps : ℕ → ℕ → List ℕ
in_steps zero c = []
in_steps (suc n) c = c ∷ in_steps n (c + 5)

priorities-nil : (n c : ℕ) → priorities n (record { candidate = c; rest = [] }) ≡ in_steps n c
unfolding priorities next next_from
priorities-nil zero c = refl
priorities-nil (suc n) c = rw (priorities-nil n (c + 5))

keep_none :
    (start : ℕ) (l : List ℕ) → All (λ ep. ep + 5 < start) l → keep (λ ep. leb start (ep + 5)) l ≡ []
keep_none start [] h = refl
keep_none start (x ∷ xs) h = ground (arith, keep_none start xs h.1)

-- If all rules stand more than 5 below `start_from`, the priorities are `start_from`,
-- `start_from + 5`, `start_from + 10` and so on.
pub priorities_free :
    (existing : List ℕ) (start_from : Option ℕ) (n : ℕ)
    → All (λ ep. ep + 5 < start_or_default start_from) existing
    → priorities n (rule_priority_generator existing start_from)
      ≡ in_steps n (start_or_default start_from)
unfolding rule_priority_generator sorted
priorities_free existing start_from n h =
    rw (keep_none (start_or_default start_from) existing h)
      (priorities-nil n (start_or_default start_from))
