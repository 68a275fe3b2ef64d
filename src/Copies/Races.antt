-- ===== src/Copies/Races.antt =====
-- What a thread may be given while another one stores the result.
use azure_shell.Prelude.{ℕ, ◌≡◌, ◌≢◌, refl, false, none, some, ◌==◌, ==_refl, arith}
use azure_shell.Text.{Text}
use azure_shell.Copies.{
  success, checking, reading, marking_success, storing, returned, Pc, State, started, set_state,
  set_pc, check, mark_success, read, Run, done, then_step,
}

module _ (pc : ℕ → Pc) (t u : ℕ) (url : Text) where
  -- a copy has just succeeded
  abbrev pub copied_image : State
  copied_image = record { entry = some started; held = none; pc = pc }

  marked : State
  marked = record {
    entry = set_state success (some started);
    held = some t;
    pc = set_pc t (storing url) pc;
  }

  apart : t ≢ u → (t == u) ≡ false
  apart other = ground arith

  -- Once a copy has succeeded, a thread that asks for the image between the two assignments of the
  -- copying thread, which sets the state before the result, returns `None` in place of the address.
  pub copy_blob_races :
      t ≢ u
      → pc t ≡ marking_success url
      → pc u ≡ checking
      → (v : State) × Run copied_image v × (v.pc u ≡ returned none)
  unfolding marked
  copy_blob_races other pt pu = (
    record marked { pc = set_pc u (returned none) (set_pc u reading (set_pc t (storing url) pc)) },
    then_step
        (then_step (then_step done t (mark_success url pt refl)) u (check (rw (apart other) pu))) u
        (read (rw (==_refl u) refl)),
    rw (==_refl u) refl,
  )
