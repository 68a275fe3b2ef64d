-- ===== src/Ports/RoundTrip.antt =====
-- Both parsers read back what `print` writes, entry by entry and as a list.
use azure_shell.Prelude.{
  ℕ, ◌≡◌, ◌≢◌, refl, true, false, not, List, [], ◌∷◌, ◌++◌, map, arith, All, All-append, All-map_of,
  keep,
}
use azure_shell.Text.{Text, text, is_empty, eq}
use azure_shell.Text.Edit.{
  lower, lower_char, strip, split, split-append, split_none, lstrip, rstrip_by, rstrip_cons_keep,
  is_space,
}
use azure_shell.Errors.{ok, map_ok}
use azure_shell.Models.{RuleData, PortData}
use azure_shell.Ports.Match.{is_digit, is_protocol}
use azure_shell.Ports.Spec.{
  PortSpec, range_protocol, port_protocol, range, port, IsNumber, IsValid, print,
  from_to_protocol_lem, from_to_protocol-port_protocol, from_protocol_lem, from_to_protocol-range,
  from_protocol-range, from_to_protocol-port, from_protocol-port, from_to_lem, from_to-port,
  port_only_lem,
}
use azure_shell.Ports.RulesAttribute
use azure_shell.Ports.RulesAttribute.{rule_range, rule_port}
use azure_shell.Ports.PortGroup
use azure_shell.Ports.PortGroup.{port_data}

-- TCP, where no protocol is named; a protocol is kept in lower case.
abbrev pub rule_of : PortSpec → RuleData
rule_of (range_protocol f t p) = rule_range f t (lower p)
rule_of (port_protocol f p) = rule_port f (lower p)
rule_of (range f t) = rule_range f t (text "tcp")
rule_of (port f) = rule_port f (text "tcp")

-- A single port is a range of one.
abbrev pub port_data_of : Text → PortSpec → PortData
port_data_of internet (range_protocol f t p) = port_data internet f t p
port_data_of internet (port_protocol f p) = port_data internet f f p
port_data_of internet (range f t) = port_data internet f t (text "tcp")
port_data_of internet (port f) = port_data internet f f (text "tcp")

-- Every valid entry, its protocol in any case, is read as the rule that it stands for.
pub single_port_parse-print :
    (s : PortSpec)
    → IsValid lower_char s
    → RulesAttribute.single_port_parse (print s) ≡ ok (rule_of s)
unfolding RulesAttribute.single_port_parse
single_port_parse-print (range_protocol f t p) (hf, ht, hp) =
    rw (from_to_protocol_lem lower_char f t p hf ht hp)
single_port_parse-print (port_protocol f p) (hf, hp) =
    rw (
      from_to_protocol-port_protocol lower_char f [] p hf,
      from_protocol_lem lower_char f [] p hf hp,
    )
single_port_parse-print (range f t) (hf, ht) = rw (
  from_to_protocol-range lower_char f t [] hf ht,
  from_protocol-range lower_char f t [] hf,
  from_to_lem f t hf ht,
)
single_port_parse-print (port f) hf = rw (
  from_to_protocol-port lower_char f [] [] hf,
  from_protocol-port lower_char f [] [] hf,
  from_to-port f hf,
  port_only_lem f hf,
)

-- Every valid entry, its protocol in lower case, is read as the port data that it stands for.
pub port_data-print :
    (internet : Text) (s : PortSpec)
    → IsValid (λ c. c) s
    → PortGroup.single_port_parse internet (print s) ≡ ok (port_data_of internet s)
unfolding PortGroup.single_port_parse
port_data-print internet (range_protocol f t p) (hf, ht, hp) =
    rw (from_to_protocol_lem (λ c. c) f t p hf ht hp)
port_data-print internet (port_protocol f p) (hf, hp) =
    rw (from_to_protocol-port_protocol (λ c. c) f [] p hf, from_protocol_lem (λ c. c) f [] p hf hp)
port_data-print internet (range f t) (hf, ht) = rw (
  from_to_protocol-range (λ c. c) f t [] hf ht,
  from_protocol-range (λ c. c) f t [] hf,
  from_to_lem f t hf ht,
)
port_data-print internet (port f) hf = rw (
  from_to_protocol-port (λ c. c) f [] [] hf,
  from_protocol-port (λ c. c) f [] [] hf,
  from_to-port f hf,
  port_only_lem f hf,
)

abbrev IsPlain : ℕ → Type 0
IsPlain c = (c ≢ b';') × (is_space c ≡ false)

digit-IsPlain : (c : ℕ) → is_digit c ≡ true → IsPlain c
unfolding is_digit is_space
digit-IsPlain c h = ground arith

number-IsPlain : (f : Text) → IsNumber f → All IsPlain f
number-IsPlain f h = All-map_of (λ c. is_digit c ≡ true) IsPlain f digit-IsPlain h.0

dash-IsPlain : IsPlain b'-'
unfolding is_space
dash-IsPlain = (omega arith, refl)

colon-IsPlain : IsPlain b':'
unfolding is_space
colon-IsPlain = (omega arith, refl)

protocol-IsPlain : (p : Text) → is_protocol lower_char p ≡ true → All IsPlain p
unfolding is_protocol is_space lower_char eq text
protocol-IsPlain [] h = tt
protocol-IsPlain (a ∷ []) h = ground arith
protocol-IsPlain (a ∷ b ∷ []) h = ground arith
protocol-IsPlain (a ∷ b ∷ c ∷ []) h = ground arith
protocol-IsPlain (a ∷ b ∷ c ∷ d ∷ p) h = ground arith

print-All : (s : PortSpec) → IsValid lower_char s → All IsPlain (print s)
print-All (range_protocol f t p) (hf, ht, hp) =
    All-append IsPlain f (b'-' ∷ (t ++ b':' ∷ p)) (number-IsPlain f hf) (
      dash-IsPlain,
      All-append IsPlain t (b':' ∷ p) (number-IsPlain t ht) (colon-IsPlain, protocol-IsPlain p hp),
    )
print-All (port_protocol f p) (hf, hp) =
    All-append IsPlain f (b':' ∷ p) (number-IsPlain f hf) (colon-IsPlain, protocol-IsPlain p hp)
print-All (range f t) (hf, ht) =
    All-append IsPlain f (b'-' ∷ t) (number-IsPlain f hf) (dash-IsPlain, number-IsPlain t ht)
print-All (port f) hf = number-IsPlain f hf

front : (f rest : Text) → is_empty f ≡ false → is_empty (f ++ rest) ≡ false
front [] rest h = cc
front (c ∷ f) rest h = refl

print-ne_empty : (s : PortSpec) → IsValid lower_char s → is_empty (print s) ≡ false
print-ne_empty (range_protocol f t p) (hf, _, _) = front f (b'-' ∷ (t ++ b':' ∷ p)) hf.1
print-ne_empty (port_protocol f p) (hf, _) = front f (b':' ∷ p) hf.1
print-ne_empty (range f t) (hf, _) = front f (b'-' ∷ t) hf.1
print-ne_empty (port f) hf = hf.1

-- what has no white space at its ends is not changed by `strip`
lstrip_lem : (s : Text) → All (λ c. is_space c ≡ false) s → lstrip s ≡ s
unfolding lstrip
lstrip_lem [] h = refl
lstrip_lem (c ∷ cs) h = rw h.0

rstrip_lem : (s : Text) → All (λ c. is_space c ≡ false) s → rstrip_by is_space s ≡ s
unfolding rstrip_by
rstrip_lem [] h = refl
rstrip_lem (c ∷ cs) h = rw (rstrip_lem cs h.1) (rstrip_cons_keep is_space c cs h.0)

strip_lem : (s : Text) → All (λ c. is_space c ≡ false) s → strip s ≡ s
unfolding strip
strip_lem s h = rw (lstrip_lem s h, rstrip_lem s h)

-- the entries, joined by semicolons
abbrev pub print_all : List PortSpec → Text
print_all [] = []
print_all (s ∷ []) = print s
print_all (s ∷ t ∷ rest) = print s ++ b';' ∷ print_all (t ∷ rest)

pub print_all-ne_empty :
    (s : PortSpec) (l : List PortSpec) → IsValid lower_char s → is_empty (print_all (s ∷ l)) ≡ false
print_all-ne_empty s [] h = print-ne_empty s h
print_all-ne_empty s (t ∷ rest) h =
    front (print s) (b';' ∷ print_all (t ∷ rest)) (print-ne_empty s h)

semicolon_lem : is_space b';' ≡ false
unfolding is_space
semicolon_lem = refl

print_all-All :
    (l : List PortSpec) → All (IsValid lower_char) l → All (λ c. is_space c ≡ false) (print_all l)
print_all-All [] h = tt
print_all-All (s ∷ []) h =
    All-map_of IsPlain (λ c. is_space c ≡ false) (print s) (λ c k. k.1) (print-All s h.0)
print_all-All (s ∷ t ∷ rest) h =
    All-append (λ c. is_space c ≡ false) (print s) (b';' ∷ print_all (t ∷ rest))
      (All-map_of IsPlain (λ c. is_space c ≡ false) (print s) (λ c k. k.1) (print-All s h.0))
      (semicolon_lem, print_all-All (t ∷ rest) h.1)

split-print_all :
    (s : PortSpec) (l : List PortSpec)
    → All (IsValid lower_char) (s ∷ l)
    → split b';' (print_all (s ∷ l)) ≡ map print (s ∷ l)
split-print_all s [] h =
    split_none b';' (print s)
      (All-map_of IsPlain (λ c. c ≢ b';') (print s) (λ c k. k.0) (print-All s h.0))
split-print_all s (t ∷ rest) h = rw (
  split-append b';' (print s) (print_all (t ∷ rest))
      (All-map_of IsPlain (λ c. c ≢ b';') (print s) (λ c k. k.0) (print-All s h.0)),
  split-print_all t rest h.1,
)

parse_entries :
    (l : List PortSpec)
    → All (IsValid lower_char) l
    → map_ok
        (λ port. RulesAttribute.single_port_parse (strip port))
        (keep (λ port. not (is_empty port)) (map print l))
      ≡ ok (map rule_of l)
parse_entries [] h = refl
parse_entries (s ∷ l) h = rw (
  print-ne_empty s h.0,
  strip_lem (print s)
      (All-map_of IsPlain (λ c. is_space c ≡ false) (print s) (λ c k. k.1) (print-All s h.0)),
  single_port_parse-print s h.0,
  parse_entries l h.1,
)

-- Any list of valid entries, joined by semicolons, is read as the rules that they stand for, in
-- their order.
pub parse_port_group_attribute-print_all :
    (l : List PortSpec)
    → All (IsValid lower_char) l
    → RulesAttribute.parse_port_group_attribute (print_all l) ≡ ok (map rule_of l)
unfolding RulesAttribute.parse_port_group_attribute
parse_port_group_attribute-print_all [] h = unfold strip lstrip rstrip_by split in refl
parse_port_group_attribute-print_all (s ∷ l) h = rw (
  strip_lem (print_all (s ∷ l)) (print_all-All (s ∷ l) h),
  split-print_all s l h,
  parse_entries (s ∷ l) h,
)
