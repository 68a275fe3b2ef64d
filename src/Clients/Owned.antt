-- ===== src/Clients/Owned.antt =====
-- Which client a thread gets: one of its own cloud provider, and the only one of its manager.
use azure_shell.Prelude.{
  ℕ, ◌+◌, ◌<◌, ◌≡◌, ◌≢◌, refl, sym, ◌∙◌, ap, some-inj, false, Option, none, some, List, [], ◌∷◌,
  ◌==◌, ==_iff, arith, Bool-cases, inl, inr, subst,
}
use azure_shell.Clients.{
  Provider, ClientKind, code, Client, construct, Pc, idle, call_wait, call_get, call_create,
  call_store, call_release, client_check, client_wait, client_recheck, client_create, client_agent,
  client_release, client_read, client_none, client_got, Clients, State, set_at, set_client, acquire,
  after_get, if_none, read, step_at, step, run,
}
use azure_shell.Clients.Kept.{
  IsOwn, Fits, IsMadeFor, IsBelow, IsConsistent, check_params_equality_sound, code_inj,
  Fits-acquire, Fits-release, Fits-manager, Fits-client,
}

-- A step moves thread `t` to a place that fits, and leaves the others where they still fit.
module _ (t : ℕ) (q : Pc) (s s' : State) (moved : s'.pc ≡ set_at t q s.pc) where
  IsConsistent-move :
      IsConsistent s
      → Fits s'.next s'.providers s'.clients s'.held t q
      → ((u : ℕ)
          → t ≢ u
          → (r : Pc) → Fits s.next s.providers s.clients s.held u r
          → Fits s'.next s'.providers s'.clients s'.held u r)
      → IsMadeFor s'.next s'.providers s'.clients
      → IsBelow s'.instance_of_cls s'.next
      → IsConsistent s'
  IsConsistent-move x own others made_for below = record {
    fits = λ u. rw moved (elim (Bool-cases (t == u)) [
      | inl e ↦ rw (e, ← (==_iff t u).0 e) own
      | inr e ↦ rw e (others u (ground arith) (s.pc u) (x.fits u))
    ]);
    made_for = made_for;
    below = below;
  }

acquire-IsConsistent :
    (t : ℕ) (q : Pc) (s : State) (h : Option ℕ)
    → s.held ≡ h
    → IsConsistent s
    → Fits s.next s.providers s.clients (some t) t q
    → IsConsistent (acquire h t q s)
acquire-IsConsistent t q s none free x own =
    IsConsistent-move t q s (acquire none t q s) refl x own
      (λ u o r f.
        Fits-acquire s.next s.providers s.clients t u o r
          (subst (λ h. Fits s.next s.providers s.clients h u r) free f))
      x.made_for x.below
acquire-IsConsistent t q s (some u) taken x own = x

-- a step that only moves a thread
goto-IsConsistent :
    (t : ℕ) (q : Pc) (s : State)
    → IsConsistent s
    → Fits s.next s.providers s.clients s.held t q
    → IsConsistent (record s { pc = set_at t q s.pc })
goto-IsConsistent t q s x own =
    IsConsistent-move t q s (record s { pc = set_at t q s.pc }) refl x own (λ u o r f. f) x.made_for
      x.below

after_get-Fits :
    (n : ℕ) (d : ℕ → Provider) (c : Clients) (t : ℕ) (p : Provider) (k : ClientKind) (i : Option ℕ)
    → IsBelow i n
    → Fits n d c (some t) t (after_get i d p k)
after_get-Fits n d c t p k none b = refl
after_get-Fits n d c t p k (some m) b = ground (arith, check_params_equality_sound p (d m))

check-Fits :
    (n : ℕ) (d : ℕ → Provider) (c : Clients) (h : Option ℕ) (t : ℕ) (p : Provider) (k : ClientKind)
    (m : ℕ)
    → IsOwn n d p m
    → Fits n d c h t (if_none (c m k) (client_wait p k m) (client_read p k m))
check-Fits n d c h t p k m own = ground arith

module _ (n : ℕ) (d : ℕ → Provider) (c : Clients) where
  IsMadeFor-manager : (p : Provider) → IsMadeFor n d c → IsMadeFor (n + 1) (set_at n p d) c
  IsMadeFor-manager p x m k y e = let old = x m k y e in (ground arith, rw (below_ne m old.0) old.1)
    where
      below_ne : (m : ℕ) → m < n → (n == m) ≡ false
      below_ne m lt = ground arith

  IsMadeFor-client :
      (m : ℕ) (k : ClientKind) (i : ℕ)
      → m < n
      → IsMadeFor n d c
      → IsMadeFor n d (set_client m k (i, construct k (d m)) c)
  IsMadeFor-client m k i lt x j l y e = elim (Bool-cases (m == j)) [
    | inl same ↦ elim (Bool-cases (code k == code l)) [
      | inl kind ↦
          let z : some (i, construct k (d m)) ≡ some y = rw (same, kind) at e in
          rw (← (==_iff m j).0 same, ← code_inj k l kind)
            (lt, sym (ap (λ (w : ℕ × Client). w.1) (some-inj z)))
      | inr kind ↦ x j l y (rw (same, kind) at e)
    ]
    | inr different ↦ x j l y (rw different at e)
  ]

IsBelow-suc : (i : Option ℕ) (n : ℕ) → IsBelow i n → IsBelow i (n + 1)
IsBelow-suc none n b = b
IsBelow-suc (some m) n b = omega arith

step_at-IsConsistent :
    (t : ℕ) (q : Pc) (s : State)
    → IsConsistent s
    → Fits s.next s.providers s.clients s.held t q
    → IsConsistent (step_at t q s)
unfolding step_at
step_at-IsConsistent t idle s x f = x
step_at-IsConsistent t (call_wait p k) s x f =
    acquire-IsConsistent t (call_get p k) s s.held refl x refl
step_at-IsConsistent t (call_get p k) s x f =
    goto-IsConsistent t (after_get s.instance_of_cls s.providers p k) s x (
      subst
        (λ h. Fits s.next s.providers s.clients h t (after_get s.instance_of_cls s.providers p k))
        (sym f) (after_get-Fits s.next s.providers s.clients t p k s.instance_of_cls x.below))
step_at-IsConsistent t (call_create p k) s x f =
    IsConsistent-move t (call_store p k s.next) s (step_at t (call_create p k) s) refl x
      (f, ground arith)
      (λ u o r g.
        subst (λ h. Fits (s.next + 1) (set_at s.next p s.providers) s.clients h u r) (sym f)
          (Fits-manager s.next s.providers s.clients t u o p r
            (subst (λ h. Fits s.next s.providers s.clients h u r) f g)))
      (IsMadeFor-manager s.next s.providers s.clients p x.made_for)
      (IsBelow-suc s.instance_of_cls s.next x.below)
step_at-IsConsistent t (call_store p k m) s x f =
    IsConsistent-move t (call_release p k m) s (step_at t (call_store p k m) s) refl x f
      (λ u o r g. g) x.made_for f.1.0
step_at-IsConsistent t (call_release p k m) s x f =
    IsConsistent-move t (client_check p k m) s (step_at t (call_release p k m) s) refl x f.1
      (λ u o r g.
        Fits-release s.next s.providers s.clients t u o r
          (subst (λ h. Fits s.next s.providers s.clients h u r) f.0 g))
      x.made_for x.below
step_at-IsConsistent t (client_check p k m) s x f =
    goto-IsConsistent t (if_none (s.clients m k) (client_wait p k m) (client_read p k m)) s x
      (check-Fits s.next s.providers s.clients s.held t p k m f)
step_at-IsConsistent t (client_wait p k m) s x f =
    acquire-IsConsistent t (client_recheck p k m) s s.held refl x (refl, f)
step_at-IsConsistent t (client_recheck p k m) s x f =
    goto-IsConsistent t (if_none (s.clients m k) (client_create p k m) (client_release p k m)) s x
      (ground arith)
step_at-IsConsistent t (client_create p k m) s x f =
    IsConsistent-move t (client_agent p k m) s (step_at t (client_create p k m) s) refl x
      (f.0, f.1, ground arith)
      (λ u o r g.
        subst
          (λ h.
            Fits s.next s.providers (set_client m k (s.made, construct k (s.providers m)) s.clients)
              h u r)
          (sym f.0)
          (Fits-client s.next s.providers s.clients t u o m k (s.made, construct k (s.providers m))
            r f.2 (subst (λ h. Fits s.next s.providers s.clients h u r) f.0 g)))
      (IsMadeFor-client s.next s.providers s.clients m k s.made f.1.0 x.made_for) x.below
step_at-IsConsistent t (client_agent p k m) s x f =
    IsConsistent-move t (client_release p k m) s (step_at t (client_agent p k m) s) refl x f
      (λ u o r g. g) x.made_for x.below
step_at-IsConsistent t (client_release p k m) s x f =
    IsConsistent-move t (client_read p k m) s (step_at t (client_release p k m) s) refl x (f.1, f.2)
      (λ u o r g.
        Fits-release s.next s.providers s.clients t u o r
          (subst (λ h. Fits s.next s.providers s.clients h u r) f.0 g))
      x.made_for x.below
step_at-IsConsistent t (client_read p k m) s x f =
    goto-IsConsistent t (read p k m (s.clients m k)) s x (ground arith)
step_at-IsConsistent t (client_none p k m) s x f = x
step_at-IsConsistent t (client_got p k m c) s x f = x

pub run-IsConsistent :
    (schedule : List ℕ) (s : State) → IsConsistent s → IsConsistent (run schedule s)
unfolding run step
run-IsConsistent [] s x = x
run-IsConsistent (t ∷ schedule) s x =
    run-IsConsistent schedule (step t s) (step_at-IsConsistent t (s.pc t) s x (x.fits t))

module _ (schedule : List ℕ) (s : State) (x : IsConsistent s) (t : ℕ) (p : Provider)
    (k : ClientKind) (m : ℕ) (c : ℕ × Client) where
  -- In any interleaving of threads that use different cloud providers, from a consistent state: a
  -- thread that has asked for a client of a provider and gets one gets a client of that kind with the
  -- identity, the key, the tenant and the subscription of that provider, never of another one.
  pub client_is_own : (run schedule s).pc t ≡ client_got p k m c → c.1 ≡ construct k p
  client_is_own e =
      let after = run schedule s in
      let y = run-IsConsistent schedule s x in
      let f = subst (Fits after.next after.providers after.clients after.held t) e (y.fits t) in
      (y.made_for m k c f.1).1 ∙ ap (construct k) f.0.1

  -- In any interleaving, from a consistent state: two threads that get a client of the same kind from
  -- the same manager get the same client.
  pub client_is_shared :
      (u : ℕ) (q : Provider) (e : ℕ × Client)
      → (run schedule s).pc t ≡ client_got p k m c
      → (run schedule s).pc u ≡ client_got q k m e
      → c ≡ e
  client_is_shared u q e at_c at_e =
      let after = run schedule s in
      let y = run-IsConsistent schedule s x in
      let f = subst (Fits after.next after.providers after.clients after.held t) at_c (y.fits t) in
      let g = subst (Fits after.next after.providers after.clients after.held u) at_e (y.fits u) in
      some-inj (sym f.1 ∙ g.1)
