-- ===== src/Effects.antt =====
-- Code that calls Azure: it reads and extends the history of calls, and returns or raises. The
-- logger's messages are left out.
pub mod Retry
pub mod Emits
pub mod Bounded
use azure_shell.Prelude.{⊤, Bool, true, false, Option, none, some, List, [], ◌∷◌}
use azure_shell.Text.{Text}
use azure_shell.Errors.{Error, Result, ok, err}
use azure_shell.Cloud.{Call, History}

abbrev pub M : Type 0 → Type 0
M A = History → Result A × History

abbrev pub bind_result : {A B : Type 0} → Result A × History → (A → M B) → Result B × History
bind_result (ok a, h) f = f a h
bind_result (err e, h) f = (err e, h)

infixl 5 ◌>>=◌ ◌>>◌
unfoldable pub ◌>>=◌ : {A B : Type 0} → M A → (A → M B) → M B
◌>>=◌ m f h = bind_result (m h) f

abbrev pub ◌>>◌ : {A B : Type 0} → M A → M B → M B
m >> k = m >>= λ _. k

unfoldable pub pure : {A : Type 0} → A → M A
pure a h = (ok a, h)

unfoldable pub raise : {A : Type 0} → Error → M A
raise e h = (err e, h)

unfoldable pub lift : {A : Type 0} → Result A → M A
lift r h = (r, h)

-- A call is on record before it is answered.
unfoldable pub call : {A : Type 0} → Call → (History → Result A) → M A
call c answer h = (answer (c ∷ h), c ∷ h)

-- `try: m` with a handler for what it raises; what has been called stays called
abbrev pub handle_result : {A : Type 0} → (Error → M A) → Result A × History → Result A × History
handle_result f (ok a, h) = (ok a, h)
handle_result f (err e, h) = f e h

unfoldable pub handle : {A : Type 0} → M A → (Error → M A) → M A
handle m f h = handle_result f (m h)

-- `m` and then its result, as a value: no exception leaves it
unfoldable pub attempt : {A : Type 0} → M A → M (Result A)
attempt m h = let (r, h') = m h in (ok r, h')

-- `for x in xs: f(x)`
unfoldable pub for_each : {A : Type 0} → List A → (A → M ⊤) → M ⊤
for_each [] f = pure tt
for_each (x ∷ xs) f = f x >>= λ _. for_each xs f

-- `[f(x) for x in xs]`
unfoldable pub collect : {A B : Type 0} → List A → (A → M B) → M (List B)
collect [] f = pure []
collect (x ∷ xs) f = f x >>= λ y. collect xs f >>= λ ys. pure (y ∷ ys)
