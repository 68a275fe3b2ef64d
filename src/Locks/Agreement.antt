-- ===== src/Locks/Agreement.antt =====
-- Threads that only get locks agree on the lock of a key.
use azure_shell.Prelude.{
  ℕ, ◌+◌, ◌≡◌, ◌≢◌, refl, sym, ◌∙◌, some-inj, Option, none, some, List, [], ◌∷◌, ◌==◌, ==_iff,
  arith, Bool-cases, inl, inr, ⊤, subst,
}
use azure_shell.Text.{Text, eq_refl, eq_sound}
use azure_shell.Locks.{
  Pc, idle, get_check, get_wait, get_recheck, get_create, get_release, get_read, got, key_error,
  State, Locks, set_lock, set_pc, branch, read, acquire, step_at, step, run,
}

abbrev IsPresent : Option ℕ → Type 0
IsPresent none = ⊥
IsPresent (some l) = ⊤

-- what holds of the dictionary and of `_lock` while thread `t` stands at a place of
-- `get_resource_lock`
abbrev pub Fits : Locks → Option ℕ → ℕ → Pc → Type 0
Fits d h t idle = ⊤
Fits d h t (get_check k) = ⊤
Fits d h t (get_wait k) = ⊤
Fits d h t (get_recheck k) = h ≡ some t
Fits d h t (get_create k) = (h ≡ some t) × (d k ≡ none)
Fits d h t (get_release k) = (h ≡ some t) × IsPresent (d k)
Fits d h t (get_read k) = IsPresent (d k)
Fits d h t (got k l) = d k ≡ some l
Fits d h t _ = ⊥

pub record IsConsistent (s : State) : Type 0 where
  pub fits : (t : ℕ) → Fits s.locks s.held t (s.pc t)

module _ (d : Locks) (t u : ℕ) (other : t ≢ u) where
  -- What thread `u` relies on survives what thread `t` does: taking the lock,
  Fits-acquire : (p : Pc) → Fits d none u p → Fits d (some t) u p
  Fits-acquire idle f = f
  Fits-acquire p f = ground arith

  -- giving it back,
  Fits-release : (p : Pc) → Fits d (some t) u p → Fits d none u p
  Fits-release idle f = f
  Fits-release p f = ground arith

  -- and adding a lock for a key that has none.
  Fits-create :
      (k : Text) (l : ℕ) (p : Pc)
      → d k ≡ none
      → Fits d (some t) u p
      → Fits (set_lock k (some l) d) (some t) u p
  Fits-create k l idle absent f = f
  Fits-create k l (get_read j) absent f = ground arith
  Fits-create k l (got j m) absent f = ground (arith, eq_sound k j)
  Fits-create k l p absent f = ground arith

Fits-self_created : (d : Locks) (k : Text) (l : ℕ) → IsPresent (set_lock k (some l) d k)
Fits-self_created d k l = rw (eq_refl k) tt

-- A step moves thread `t` to a place that fits, and leaves the others where they still fit.
module _ (t : ℕ) (p : Pc) (s : State) (d : Locks) (h : Option ℕ) (n : ℕ) where
  IsConsistent-move :
      IsConsistent s
      → Fits d h t p
      → ((u : ℕ) → t ≢ u → (q : Pc) → Fits s.locks s.held u q → Fits d h u q)
      → IsConsistent (record { locks = d; next = n; held = h; pc = set_pc t p s.pc })
  IsConsistent-move c own others = record {
    fits = λ u. elim (Bool-cases (t == u)) [
      | inl e ↦ rw (e, ← (==_iff t u).0 e) own
      | inr e ↦ rw e (others u (ground arith) (s.pc u) (c.fits u))
    ];
  }

acquire-IsConsistent :
    (t : ℕ) (p : Pc) (s : State)
    → ((d : Locks) → Fits d (some t) t p)
    → (h : Option ℕ) → s.held ≡ h
    → IsConsistent s
    → IsConsistent (acquire h t p s)
acquire-IsConsistent t p s own none free c =
    IsConsistent-move t p s s.locks (some t) s.next c (own s.locks)
      (λ u o q g. Fits-acquire s.locks t u o q (subst (λ h. Fits s.locks h u q) free g))
acquire-IsConsistent t p s own (some u) taken c = c

read-Fits :
    (d : Locks) (h : Option ℕ) (t : ℕ) (k : Text) (o : Option ℕ)
    → d k ≡ o
    → IsPresent o
    → Fits d h t (read k o)
read-Fits d h t k none e f = f
read-Fits d h t k (some l) e f = e

step_at-IsConsistent :
    (t : ℕ) (p : Pc) (s : State)
    → IsConsistent s
    → Fits s.locks s.held t p
    → IsConsistent (step_at t p s)
unfolding step_at
step_at-IsConsistent t idle s c f = c
step_at-IsConsistent t (get_check k) s c f =
    IsConsistent-move t (branch (s.locks k) (get_wait k) (get_read k)) s s.locks s.held s.next c
      (ground arith) (λ u o q g. g)
step_at-IsConsistent t (get_wait k) s c f =
    acquire-IsConsistent t (get_recheck k) s (λ d. refl) s.held refl c
step_at-IsConsistent t (get_recheck k) s c f =
    IsConsistent-move t (branch (s.locks k) (get_create k) (get_release k)) s s.locks s.held s.next
      c (ground arith) (λ u o q g. g)
step_at-IsConsistent t (get_create k) s c f =
    IsConsistent-move t (get_release k) s (set_lock k (some s.next) s.locks) s.held (s.next + 1) c
      (f.0, Fits-self_created s.locks k s.next)
      (λ u o q g.
        subst (λ h. Fits (set_lock k (some s.next) s.locks) h u q) (sym f.0)
          (Fits-create s.locks t u o k s.next q f.1 (subst (λ h. Fits s.locks h u q) f.0 g)))
step_at-IsConsistent t (get_release k) s c f =
    IsConsistent-move t (get_read k) s s.locks none s.next c f.1
      (λ u o q g. Fits-release s.locks t u o q (subst (λ h. Fits s.locks h u q) f.0 g))
step_at-IsConsistent t (get_read k) s c f =
    IsConsistent-move t (read k (s.locks k)) s s.locks s.held s.next c
      (read-Fits s.locks s.held t k (s.locks k) refl f) (λ u o q g. g)
step_at-IsConsistent t (got k l) s c f = c
step_at-IsConsistent t _ s c f = absurd f

pub run-IsConsistent :
    (schedule : List ℕ) (s : State) → IsConsistent s → IsConsistent (run schedule s)
unfolding run step
run-IsConsistent [] s c = c
run-IsConsistent (t ∷ schedule) s c =
    run-IsConsistent schedule (step t s) (step_at-IsConsistent t (s.pc t) s c (c.fits t))

module _ (schedule : List ℕ) (s : State) (c : IsConsistent s) where
  -- Threads that only get locks, from a consistent state and in any interleaving: if one has got a lock
  -- for a key, no thread has got a different lock for that key.
  pub get_resource_lock_agrees :
      (t u : ℕ) (k : Text) (l m : ℕ)
      → (run schedule s).pc t ≡ got k l
      → l ≢ m
      → (run schedule s).pc u ≢ got k m
  get_resource_lock_agrees t u k l m e differ f =
      let after = run-IsConsistent schedule s c in
      let d = (run schedule s).locks in
      let h = (run schedule s).held in
      let a : d k ≡ some l = subst (Fits d h t) e (after.fits t) in
      let b : d k ≡ some m = subst (Fits d h u) f (after.fits u) in differ (some-inj (sym a ∙ b))

  -- Threads that only get locks, from a consistent state and in any interleaving: no thread meets a `KeyError`.
  pub get_resource_lock_total : (t : ℕ) (k : Text) → (run schedule s).pc t ≢ key_error k
  get_resource_lock_total t k e =
      subst (Fits (run schedule s).locks (run schedule s).held t) e
        ((run-IsConsistent schedule s c).fits t)
