-- ===== src/Ports/Spec.antt =====
-- What the parsers accept, written independently of them: a port or a range, with or without a
-- protocol.
use azure_shell.Prelude.{
  ℕ, ◌≡◌, refl, true, false, none, some, [], ◌∷◌, ◌++◌, arith, All, subst, append-nil,
}
use azure_shell.Text.{Text, text, is_empty, eq}
use azure_shell.Ports.Match.{
  is_digit, digits, after_digits, some_digits, expect, at_end, is_protocol, match_protocol,
  from_to_protocol, from_protocol, from_to, port_only,
}

pub data PortSpec : Type 0 where
  range_protocol : Text → Text → Text → PortSpec
  port_protocol : Text → Text → PortSpec
  range : Text → Text → PortSpec
  port : Text → PortSpec

abbrev pub IsNumber : Text → Type 0
IsNumber s = All (λ c. is_digit c ≡ true) s × (is_empty s ≡ false)

-- `fold` says which letters count as the same.
abbrev pub IsValid : (ℕ → ℕ) → PortSpec → Type 0
IsValid fold (range_protocol f t p) = IsNumber f × IsNumber t × (is_protocol fold p ≡ true)
IsValid fold (port_protocol f p) = IsNumber f × (is_protocol fold p ≡ true)
IsValid fold (range f t) = IsNumber f × IsNumber t
IsValid fold (port f) = IsNumber f

abbrev pub print : PortSpec → Text
print (range_protocol f t p) = f ++ b'-' ∷ (t ++ b':' ∷ p)
print (port_protocol f p) = f ++ b':' ∷ p
print (range f t) = f ++ b'-' ∷ t
print (port f) = f

-- the text behind a number: nothing, or a character that is no digit
abbrev pub StopsDigits : Text → Type 0
StopsDigits [] = Unit
StopsDigits (c ∷ cs) = is_digit c ≡ false

digits_lem :
    (f rest : Text)
    → All (λ c. is_digit c ≡ true) f
    → StopsDigits rest
    → (digits (f ++ rest) ≡ f) × (after_digits (f ++ rest) ≡ rest)
unfolding digits after_digits
digits_lem [] [] h k = (refl, refl)
digits_lem [] (c ∷ cs) h k = rw k (refl, refl)
digits_lem (c ∷ f) rest h k = ground (arith, digits_lem f rest h.1 k)

-- a number in front is read, up to the text behind it
pub some_digits-append :
    (f rest : Text) → IsNumber f → StopsDigits rest → some_digits (f ++ rest) ≡ some (f, rest)
unfolding some_digits
some_digits-append f rest h k = ground (arith, digits_lem f rest h.0 k)

dash_stops : is_digit b'-' ≡ false
unfolding is_digit
dash_stops = refl

colon_stops : is_digit b':' ≡ false
unfolding is_digit
colon_stops = refl

match_protocol_lem :
    (fold : ℕ → ℕ) (p : Text) → is_protocol fold p ≡ true → match_protocol fold p ≡ some p
unfolding match_protocol is_protocol at_end eq text
match_protocol_lem fold [] h = cc
match_protocol_lem fold (a ∷ []) h = ground arith
match_protocol_lem fold (a ∷ b ∷ []) h = ground arith
match_protocol_lem fold (a ∷ b ∷ c ∷ []) h = rw h
match_protocol_lem fold (a ∷ b ∷ c ∷ d ∷ p) h = ground arith

some_digits_all : (f : Text) → IsNumber f → some_digits f ≡ some (f, [])
some_digits_all f h =
    subst (λ s. some_digits s ≡ some (f, [])) (append-nil f) (some_digits-append f [] h tt)

module _ (fold : ℕ → ℕ) (f t p : Text) (hf : IsNumber f) where
  pub from_to_protocol_lem :
      IsNumber t
      → is_protocol fold p ≡ true
      → from_to_protocol fold (print (range_protocol f t p)) ≡ some (f, t, p)
  unfolding from_to_protocol expect
  from_to_protocol_lem ht hp =
      rw (some_digits-append f (b'-' ∷ (t ++ b':' ∷ p)) hf dash_stops)
        (rw (some_digits-append t (b':' ∷ p) ht colon_stops) (rw (match_protocol_lem fold p hp)))

  pub from_to_protocol-port_protocol : from_to_protocol fold (print (port_protocol f p)) ≡ none
  unfolding from_to_protocol expect
  from_to_protocol-port_protocol = rw (some_digits-append f (b':' ∷ p) hf colon_stops)

  pub from_protocol_lem :
      is_protocol fold p ≡ true → from_protocol fold (print (port_protocol f p)) ≡ some (f, p)
  unfolding from_protocol expect
  from_protocol_lem hp =
      rw (some_digits-append f (b':' ∷ p) hf colon_stops) (rw (match_protocol_lem fold p hp))

  pub from_to_protocol-range : IsNumber t → from_to_protocol fold (print (range f t)) ≡ none
  unfolding from_to_protocol expect
  from_to_protocol-range ht =
      rw (some_digits-append f (b'-' ∷ t) hf dash_stops) (rw (some_digits_all t ht))

  pub from_protocol-range : from_protocol fold (print (range f t)) ≡ none
  unfolding from_protocol expect
  from_protocol-range = rw (some_digits-append f (b'-' ∷ t) hf dash_stops)

  pub from_to_protocol-port : from_to_protocol fold f ≡ none
  unfolding from_to_protocol expect
  from_to_protocol-port = rw (some_digits_all f hf)

  pub from_protocol-port : from_protocol fold f ≡ none
  unfolding from_protocol expect
  from_protocol-port = rw (some_digits_all f hf)

pub from_to_lem : (f t : Text) → IsNumber f → IsNumber t → from_to (print (range f t)) ≡ some (f, t)
unfolding from_to expect at_end
from_to_lem f t hf ht =
    rw (some_digits-append f (b'-' ∷ t) hf dash_stops) (rw (some_digits_all t ht))

pub from_to-port : (f : Text) → IsNumber f → from_to f ≡ none
unfolding from_to expect
from_to-port f hf = rw (some_digits_all f hf)

pub port_only_lem : (f : Text) → IsNumber f → port_only f ≡ some f
unfolding port_only at_end
port_only_lem f hf = rw (some_digits_all f hf)
