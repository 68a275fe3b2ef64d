-- ===== src/Priorities/Fresh.antt =====
-- No generated priority is in use, and they ascend from `start_from`.
use azure_shell.Prelude.{
  ℕ, zero, suc, ◌+◌, ◌≤◌, ◌<◌, ◌≡◌, ◌≢◌, refl, true, Option, List, [], ◌∷◌, arith, leb, ltb, keep,
  All, All-if, All-map_of, Member, ◌⊎◌, inl, inr, Bool-cases, keep-All, All-of_Member, length,
  subst, sym,
}
use azure_shell.Priorities.{
  Generator, insert, sorted, start_or_default, rule_priority_generator, next_from, next, priorities,
}

abbrev pub IsSorted : List ℕ → Type 0
IsSorted [] = Unit
IsSorted (x ∷ xs) = All (λ y. x ≤ y) xs × IsSorted xs

insert-All : (P : ℕ → Type 0) (x : ℕ) (l : List ℕ) → P x → All P l → All P (insert x l)
unfolding insert
insert-All P x [] p h = (p, tt)
insert-All P x (y ∷ ys) p h =
    All-if P (leb x y) (x ∷ y ∷ ys) (y ∷ insert x ys) (λ _. (p, h))
      (λ _. (h.0, insert-All P x ys p h.1))

pub sorted-All : (P : ℕ → Type 0) (l : List ℕ) → All P l → All P (sorted l)
unfolding sorted
sorted-All P [] h = tt
sorted-All P (x ∷ xs) h = insert-All P x (sorted xs) h.0 (sorted-All P xs h.1)

insert-IsSorted : (x : ℕ) (l : List ℕ) → IsSorted l → IsSorted (insert x l)
unfolding insert
insert-IsSorted x [] h = (tt, tt)
insert-IsSorted x (y ∷ ys) h = elim (Bool-cases (leb x y)) [
  | inl e ↦
      rw e (((ground arith, All-map_of (λ z. y ≤ z) (λ z. x ≤ z) ys (λ z p. ground arith) h.0), h))
  | inr e ↦ rw e (insert-All (λ z. y ≤ z) x ys (ground arith) h.0, insert-IsSorted x ys h.1)
]

pub sorted-IsSorted : (l : List ℕ) → IsSorted (sorted l)
unfolding sorted
sorted-IsSorted [] = tt
sorted-IsSorted (x ∷ xs) = insert-IsSorted x (sorted xs) (sorted-IsSorted xs)

insert-Member : (a x : ℕ) (l : List ℕ) → (a ≡ x) ⊎ Member a l → Member a (insert x l)
unfolding insert
insert-Member a x [] m = m
insert-Member a x (y ∷ ys) m = ground (arith, insert-Member a x ys)

pub sorted-Member : (a : ℕ) (l : List ℕ) → Member a l → Member a (sorted l)
unfolding sorted
sorted-Member a [] m = m
sorted-Member a (x ∷ xs) (inl e) = insert-Member a x (sorted xs) (inl e)
sorted-Member a (x ∷ xs) (inr m) = insert-Member a x (sorted xs) (inr (sorted-Member a xs m))

-- What the generator knows of a priority in use: it has been passed, or it is still ahead.
abbrev Seen : Generator → ℕ → Type 0
Seen g p = (p < g.candidate) ⊎ Member p g.rest

abbrev pub IsReady : Generator → Type 0
IsReady g = IsSorted g.rest × All (λ y. g.candidate ≤ y + 5) g.rest

All-Member : (P : ℕ → Type 0) (p : ℕ) (l : List ℕ) → All P l → Member p l → P p
All-Member P p [] h m = absurd (m tt)
All-Member P p (x ∷ xs) h (inl e) = subst P (sym e) h.0
All-Member P p (x ∷ xs) h (inr m) = All-Member P p xs h.1 m

-- One value: it is not below the candidate, and the generator is ready for the next one, which will
-- be greater by 5 at least.
next_from_lem :
    (c : ℕ) (l : List ℕ)
    → IsSorted l
    → All (λ y. c ≤ y + 5) l
    → (c ≤ (next_from c l).0)
      × ((next_from c l).1.candidate ≡ (next_from c l).0 + 5)
      × IsReady (next_from c l).1
unfolding next_from
next_from_lem c [] s h = (omega arith, refl, (tt, tt))
next_from_lem c (y ∷ ys) s h = elim (Bool-cases (ltb c y)) [
  | inl e ↦ rw e (
    omega arith,
    refl,
    (s, (ground arith, All-map_of (λ z. y ≤ z) (λ z. c + 5 ≤ z + 5) ys (λ z p. ground arith) s.0)),
  )
  | inr e ↦ rw e (
      let rest =
        next_from_lem (y + 5) ys s.1
          (All-map_of (λ z. y ≤ z) (λ z. y + 5 ≤ z + 5) ys (λ z p. omega arith) s.0) in
      (omega (arith, rest.0, h.0), rest.1, rest.2))
]

-- One value and a priority in use: they differ, and the generator still knows of the priority.
next_from-Seen :
    (c : ℕ) (l : List ℕ) (p : ℕ)
    → IsSorted l
    → All (λ y. c ≤ y + 5) l
    → (p < c) ⊎ Member p l
    → (p ≢ (next_from c l).0) × Seen (next_from c l).1 p
unfolding next_from
next_from-Seen c [] p s h (inl lt) = (omega arith, inl (omega arith))
next_from-Seen c [] p s h (inr m) = absurd (m tt)
next_from-Seen c (y ∷ ys) p s h m = elim (Bool-cases (ltb c y)) [
  | inl e ↦ rw e (before e m)
  | inr e ↦ rw e (
      next_from-Seen (y + 5) ys p s.1
        (All-map_of (λ z. y ≤ z) (λ z. y + 5 ≤ z + 5) ys (λ z q. omega arith) s.0) (behind m))
]
  where
    before :
        ltb c y ≡ true → (p < c) ⊎ Member p (y ∷ ys) → (p ≢ c) × ((p < c + 5) ⊎ Member p (y ∷ ys))
    before e (inl lt) = (omega arith, inl (omega arith))
    before e (inr q) = (beyond e (All-Member (λ z. y ≤ z) p (y ∷ ys) (omega arith, s.0) q), inr q)
      where
        beyond : ltb c y ≡ true → y ≤ p → p ≢ c
        beyond e le = ground arith

    behind : (p < c) ⊎ Member p (y ∷ ys) → (p < y + 5) ⊎ Member p ys
    behind (inl lt) = inl (omega (arith, h.0))
    behind (inr (inl e)) = inl (omega arith)
    behind (inr (inr q)) = inr q

pub next_lem :
    (g : Generator)
    → IsReady g
    → (g.candidate ≤ (next g).0) × ((next g).1.candidate ≡ (next g).0 + 5) × IsReady (next g).1
unfolding next
next_lem g r = next_from_lem g.candidate g.rest r.0 r.1

pub length-priorities : (n : ℕ) (g : Generator) → length (priorities n g) ≡ n
unfolding priorities
length-priorities zero g = refl
length-priorities (suc n) g = omega (arith, length-priorities n (next g).1)

-- each value is at least 5 above the one before
abbrev pub AscendsFrom : ℕ → List ℕ → Type 0
AscendsFrom b [] = Unit
AscendsFrom b (v ∷ vs) = (b ≤ v) × AscendsFrom (v + 5) vs

priorities-AscendsFrom :
    (n : ℕ) (g : Generator) → IsReady g → AscendsFrom g.candidate (priorities n g)
unfolding priorities next
priorities-AscendsFrom zero g r = tt
priorities-AscendsFrom (suc n) g r =
    let one = next_from_lem g.candidate g.rest r.0 r.1 in
    (
      one.0,
      subst (λ b. AscendsFrom b (priorities n (next_from g.candidate g.rest).1)) one.1
          (priorities-AscendsFrom n (next_from g.candidate g.rest).1 one.2),
    )

priorities-ne :
    (n : ℕ) (g : Generator) (p : ℕ) → IsReady g → Seen g p → All (λ v. p ≢ v) (priorities n g)
unfolding priorities next
priorities-ne zero g p r m = tt
priorities-ne (suc n) g p r m =
    let one = next_from-Seen g.candidate g.rest p r.0 r.1 m in
    (
      one.0,
      priorities-ne n (next_from g.candidate g.rest).1 p
          (next_from_lem g.candidate g.rest r.0 r.1).2 one.1,
    )

pub rule_priority_generator-IsReady :
    (existing : List ℕ) (start_from : Option ℕ)
    → IsReady (rule_priority_generator existing start_from)
unfolding rule_priority_generator
rule_priority_generator-IsReady existing start_from =
    let start = start_or_default start_from in
    let relevant = keep (λ ep. leb start (ep + 5)) existing in
    (
      sorted-IsSorted relevant,
      sorted-All (λ y. start ≤ y + 5) relevant
          (All-map_of (λ ep. leb start (ep + 5) ≡ true) (λ y. start ≤ y + 5) relevant
            (λ y e. ground arith) (keep-All (λ ep. leb start (ep + 5)) existing)),
    )

keep-Member :
    (p : ℕ) (start : ℕ) (l : List ℕ)
    → Member p l
    → (p < start) ⊎ Member p (keep (λ ep. leb start (ep + 5)) l)
keep-Member p start [] m = absurd (m tt)
keep-Member p start (x ∷ xs) m = ground (arith, keep-Member p start xs)

rule_priority_generator-Seen :
    (existing : List ℕ) (start_from : Option ℕ) (p : ℕ)
    → Member p existing
    → Seen (rule_priority_generator existing start_from) p
unfolding rule_priority_generator
rule_priority_generator-Seen existing start_from p m =
    let start = start_or_default start_from in
    elim (keep-Member p start existing m) [
      | inl lt ↦ inl lt
      | inr k ↦ inr (sorted-Member p (keep (λ ep. leb start (ep + 5)) existing) k)
    ]

pub candidate-rule_priority_generator :
    (existing : List ℕ) (start_from : Option ℕ)
    → (rule_priority_generator existing start_from).candidate ≡ start_or_default start_from
unfolding rule_priority_generator
candidate-rule_priority_generator existing start_from = refl

module _ (existing : List ℕ) (start_from : Option ℕ) (n : ℕ) where
  -- However many priorities are taken from the generator, the first is at least `start_from` (1000
  -- if that is `None`), each is at least 5 above the one before, and none is in use by a rule.
  pub rule_priority_generator_lem :
      AscendsFrom
        (start_or_default start_from)
        (priorities n (rule_priority_generator existing start_from))
      × All
          (λ p. All (λ v. p ≢ v) (priorities n (rule_priority_generator existing start_from)))
          existing
  rule_priority_generator_lem =
      let g = rule_priority_generator existing start_from in
      let ready = rule_priority_generator-IsReady existing start_from in
      (
        subst (λ b. AscendsFrom b (priorities n g))
            (candidate-rule_priority_generator existing start_from)
            (priorities-AscendsFrom n g ready),
        All-of_Member (λ p. All (λ v. p ≢ v) (priorities n g)) existing
            (λ p m.
              priorities-ne n g p ready (rule_priority_generator-Seen existing start_from p m)),
      )
