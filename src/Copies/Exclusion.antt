-- ===== src/Copies/Exclusion.antt =====
-- An image is never copied by two threads at once.
use azure_shell.Prelude.{
  ℕ, ◌≡◌, ◌≢◌, refl, sym, ap, ◌∙◌, Bool, true, false, Option, none, some, ◌==◌, ==_iff, arith,
  Bool-cases, inl, inr, ⊤, subst,
}
use azure_shell.Copies.{
  BlobCopyOperationState, copying, success, failed, Entry, Pc, checking, deciding, waiting,
  copying_blob, marking_failed, reading, raised, marking_success, storing, returned, State,
  state_of, result_of, set_pc, goto, after_check, after_decision, entry_after_decision, after_round,
  set_state, set_result, Step, check, decide, cancel, wait, copied, not_copied, mark_failed,
  mark_success, store, read, Run, done, then_step, initial, started,
}

-- the places between the decision to copy and the result
abbrev pub is_copying : Pc → Bool
is_copying copying_blob = true
is_copying marking_failed = true
is_copying (marking_success url) = true
is_copying (storing url) = true
is_copying _ = false

-- what the entry and the lock are while a thread is at such a place
abbrev pub Fits : Option Entry → Option ℕ → ℕ → Pc → Type 0
Fits entry held t copying_blob = state_of entry ≡ some copying
Fits entry held t marking_failed = state_of entry ≡ some copying
Fits entry held t (marking_success url) = state_of entry ≡ some copying
Fits entry held t (storing url) = held ≡ some t
Fits entry held t _ = ⊤

pub record IsSane (s : State) : Type 0 where
  pub fits : (t : ℕ) → Fits s.entry s.held t (s.pc t)
  pub unique : (t u : ℕ) → is_copying (s.pc t) ≡ true → is_copying (s.pc u) ≡ true → t ≡ u

-- who does not copy fits whatever the entry and the lock are
idle-Fits :
    (entry : Option Entry) (held : Option ℕ) (t : ℕ) (p : Pc)
    → is_copying p ≡ false
    → Fits entry held t p
idle-Fits entry held t checking h = tt
idle-Fits entry held t deciding h = tt
idle-Fits entry held t waiting h = tt
idle-Fits entry held t copying_blob h = cc
idle-Fits entry held t marking_failed h = cc
idle-Fits entry held t reading h = tt
idle-Fits entry held t raised h = tt
idle-Fits entry held t (marking_success url) h = cc
idle-Fits entry held t (storing url) h = cc
idle-Fits entry held t (returned url) h = tt

module _ (t : ℕ) (s : State) (x : IsSane s) where
  -- the other threads do not copy while `t` does
  others_idle :
      is_copying (s.pc t) ≡ true → (u : ℕ) → (t == u) ≡ false → is_copying (s.pc u) ≡ false
  others_idle i u e = elim (Bool-cases (is_copying (s.pc u))) [
    | inl j ↦ ground (arith, x.unique t u i j)
    | inr j ↦ j
  ]

  -- `t` goes to `p`, where it fits, and the other threads still fit
  IsSane-move :
      (p : Pc) (entry : Option Entry) (held : Option ℕ)
      → Fits entry held t p
      → ((u : ℕ) → (t == u) ≡ false → Fits entry held u (s.pc u))
      → (is_copying p ≡ true → (u : ℕ) → (t == u) ≡ false → is_copying (s.pc u) ≡ false)
      → IsSane (record { entry = entry; held = held; pc = set_pc t p s.pc })
  IsSane-move p entry held own other alone = record {
    fits = λ u. elim (Bool-cases (t == u)) [
      | inl e ↦ rw (e, ← (==_iff t u).0 e) own
      | inr e ↦ rw e (other u e)
    ];
    unique = λ u v. elim (Bool-cases (t == u)) [
      | inl e ↦ elim (Bool-cases (t == v)) [
        | inl f ↦ λ i j. sym ((==_iff t u).0 e) ∙ (==_iff t v).0 f
        | inr f ↦ rw (e, f) (λ i j. absurd (apart (alone i v f) j))
      ]
      | inr e ↦ elim (Bool-cases (t == v)) [
        | inl f ↦ rw (e, f) (λ i j. absurd (apart (alone j u e) i))
        | inr f ↦ rw (e, f) (x.unique u v)
      ]
    ];
  }
    where
      apart : {b : Bool} → b ≡ false → b ≡ true → ⊥
      apart h k = cc

  -- a step that changes neither the entry nor the lock
  IsSane-goto :
      (p : Pc)
      → Fits s.entry s.held t p
      → (is_copying p ≡ true → is_copying (s.pc t) ≡ true)
      → IsSane (goto t p s)
  IsSane-goto p own same =
      IsSane-move p s.entry s.held own (λ u e. x.fits u) (λ i u e. others_idle (same i) u e)

  -- a step of the thread that copies
  IsSane-copier :
      (p : Pc) (entry : Option Entry) (held : Option ℕ)
      → is_copying (s.pc t) ≡ true
      → Fits entry held t p
      → IsSane (record { entry = entry; held = held; pc = set_pc t p s.pc })
  IsSane-copier p entry held i own =
      IsSane-move p entry held own (λ u e. idle-Fits entry held u (s.pc u) (others_idle i u e))
        (λ j u e. others_idle i u e)

  -- nobody copies while the lock is free and the entry is not being copied
  all_idle :
      s.held ≡ none → (state_of s.entry ≡ some copying → ⊥) → (u : ℕ) → is_copying (s.pc u) ≡ false
  all_idle free not_copying u = go (s.pc u) (x.fits u)
    where
      go : (p : Pc) → Fits s.entry s.held u p → is_copying p ≡ false
      go copying_blob f = absurd (not_copying f)
      go marking_failed f = absurd (not_copying f)
      go (marking_success url) f = absurd (not_copying f)
      go (storing url) f = cc
      go checking f = refl
      go deciding f = refl
      go waiting f = refl
      go reading f = refl
      go raised f = refl
      go (returned url) f = refl

  decide-IsSane :
      (o : Option BlobCopyOperationState)
      → state_of s.entry ≡ o
      → s.held ≡ none
      → IsSane (record (goto t (after_decision o) s) { entry = entry_after_decision s.entry o })
  decide-IsSane none e free =
      IsSane-move copying_blob (some started) s.held refl
        (λ u _. idle-Fits (some started) s.held u (s.pc u) (all_idle free (λ c. cc) u))
        (λ _ u _. all_idle free (λ c. cc) u)
  decide-IsSane (some failed) e free =
      IsSane-move copying_blob (some started) s.held refl
        (λ u _. idle-Fits (some started) s.held u (s.pc u) (all_idle free (λ c. cc) u))
        (λ _ u _. all_idle free (λ c. cc) u)
  decide-IsSane (some copying) e free = IsSane-goto waiting tt (λ i. cc)
  decide-IsSane (some success) e free = IsSane-goto reading tt (λ i. cc)

  check-IsSane : (o : Option BlobCopyOperationState) → IsSane (goto t (after_check o) s)
  check-IsSane none = IsSane-goto deciding tt (λ i. cc)
  check-IsSane (some failed) = IsSane-goto deciding tt (λ i. cc)
  check-IsSane (some copying) = IsSane-goto deciding tt (λ i. cc)
  check-IsSane (some success) = IsSane-goto reading tt (λ i. cc)

  round-IsSane : (o : Option BlobCopyOperationState) → IsSane (goto t (after_round o) s)
  round-IsSane none = IsSane-goto waiting tt (λ i. cc)
  round-IsSane (some failed) = IsSane-goto raised tt (λ i. cc)
  round-IsSane (some copying) = IsSane-goto waiting tt (λ i. cc)
  round-IsSane (some success) = IsSane-goto reading tt (λ i. cc)

  -- where the thread stands, said of what it fits
  at_place : (p : Pc) → s.pc t ≡ p → Fits s.entry s.held t p
  at_place p e = subst (Fits s.entry s.held t) e (x.fits t)

Step-IsSane : (t : ℕ) (s v : State) → Step t s v → IsSane s → IsSane v
Step-IsSane t s _ (check e) x = check-IsSane t s x (state_of s.entry)
Step-IsSane t s _ (decide e free) x = decide-IsSane t s x (state_of s.entry) refl free
Step-IsSane t s _ (cancel e) x = IsSane-goto t s x raised tt (λ i. cc)
Step-IsSane t s _ (wait e) x = round-IsSane t s x (state_of s.entry)
Step-IsSane t s _ (copied url e) x =
    IsSane-goto t s x (marking_success url) (at_place t s x copying_blob e) (λ i. ap is_copying e)
Step-IsSane t s _ (not_copied e) x =
    IsSane-goto t s x marking_failed (at_place t s x copying_blob e) (λ i. ap is_copying e)
Step-IsSane t s _ (mark_failed e free) x =
    IsSane-copier t s x raised (set_state failed s.entry) s.held (ap is_copying e) tt
Step-IsSane t s _ (mark_success url e free) x =
    IsSane-copier t s x (storing url) (set_state success s.entry) (some t) (ap is_copying e) refl
Step-IsSane t s _ (store url e) x =
    IsSane-copier t s x reading (set_result url s.entry) none (ap is_copying e) tt
Step-IsSane t s _ (read e) x = IsSane-goto t s x (returned (result_of s.entry)) tt (λ i. cc)

Run-IsSane : (s v : State) → Run s v → IsSane s → IsSane v
Run-IsSane s _ done x = x
Run-IsSane s v (then_step {u} r t step) x = Step-IsSane t u v step (Run-IsSane s u r x)

pub initial-IsSane : IsSane initial
initial-IsSane = record { fits = λ t. tt; unique = λ t u i j. cc }

-- In every run of threads that ask for the same image, while one of them is between its decision to
-- copy and the end of its copy, no other is.
pub one_copies :
    (s v : State)
    → IsSane s
    → Run s v
    → (t u : ℕ) → t ≢ u
    → is_copying (v.pc t) ≡ true
    → is_copying (v.pc u) ≡ false
one_copies s v x r t u other i = elim (Bool-cases (is_copying (v.pc u))) [
  | inl j ↦ absurd (other ((Run-IsSane s v r x).unique t u i j))
  | inr j ↦ j
]
