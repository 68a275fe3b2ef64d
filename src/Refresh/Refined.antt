-- ===== src/Refresh/Refined.antt =====
-- A refresh makes the resource agree with Azure, and calls the server no more than that needs.
use azure_shell.Prelude.{
  ◌≡◌, refl, sym, ap, ◌∙◌, true, Option, none, some, [], ◌∷◌, ◌&&◌, if◌then◌else◌, Bool-cases, inl,
  inr,
}
use mathlib.Core.Path.{fun_ext}
use azure_shell.Text.{Text, eq, eq_sound}
use azure_shell.Errors.{ok}
use azure_shell.Cloud.{Azure, Call, History, set_attribute, update_address}
use azure_shell.Effects.{◌>>=◌, pure, call}
use azure_shell.Effects.Retry.{Retrying}
use azure_shell.Refresh.{same, addresses_on_azure, update_resource, refresh_ip}

-- what the server keeps: the address of each resource by its name, and each of its attributes by its key
pub record Server : Type 0 where
  pub address : Text → Text
  pub attribute : Text → Text → Option Text

-- the server with another address of one resource, and with another value of one of its attributes
abbrev pub with_address : Text → Text → Server → Server
with_address full_name a x = record x {
  address = λ name. if eq name full_name then a else x.address name;
}

abbrev pub with_attribute : Text → Text → Option Text → Server → Server
with_attribute full_name key b x = record x {
  attribute = λ name k. if eq name full_name && eq k key then b else x.attribute name k;
}

-- what the server does for a call
abbrev pub apply : Call → Server → Server
apply (set_attribute name key value) x = with_attribute name key value x
apply (update_address name value) x = with_address name value x
apply _ x = x

-- the server after the calls of a history
abbrev pub after : History → Server → Server
after [] x = x
after (c ∷ h) x = apply c (after h x)

same_sound : (a b : Option Text) → same a b ≡ true → a ≡ b
unfolding same
same_sound none none h = refl
same_sound none (some b) h = cc
same_sound (some a) none h = cc
same_sound (some a) (some b) h = ap some (eq_sound a b h)

-- writing what is there changes nothing
with_address-same :
    (full_name a : Text) (x : Server) → x.address full_name ≡ a → with_address full_name a x ≡ x
with_address-same full_name a x h = ap (λ f. record x { address = f }) (fun_ext same_at)
  where
    same_at : (name : Text) → (if eq name full_name then a else x.address name) ≡ x.address name
    same_at name = elim (Bool-cases (eq name full_name)) [
      | inl e ↦ rw e (sym h ∙ ap x.address (sym (eq_sound name full_name e)))
      | inr e ↦ rw e refl
    ]

with_attribute-same :
    (full_name key : Text) (b : Option Text) (x : Server)
    → x.attribute full_name key ≡ b
    → with_attribute full_name key b x ≡ x
with_attribute-same full_name key b x h =
    ap (λ f. record x { attribute = f }) (fun_ext (λ name. fun_ext (λ k. same_at name k)))
  where
    same_at :
        (name k : Text)
        → (if eq name full_name && eq k key then b else x.attribute name k) ≡ x.attribute name k
    same_at name k = elim (Bool-cases (eq name full_name)) [
      | inl e ↦ elim (Bool-cases (eq k key)) [
        | inl f ↦
            rw (e, f)
              (sym h
                ∙ ap (λ w. x.attribute w key) (sym (eq_sound name full_name e))
                ∙ ap (λ w. x.attribute name w) (sym (eq_sound k key f)))
        | inr f ↦ rw (e, f) refl
      ]
      | inr e ↦ rw e refl
    ]

module _ (r : Retrying) (z : Azure) (group vm_name full_name key : Text) (private_ip : Text)
    (public_ip : Option Text) where
  -- what is written where both are always written
  abbrev pub written : Text → Option Text → Server → Server
  written a b x = with_address full_name a (with_attribute full_name key b x)

  update_lem :
      (a : Text) (b : Option Text) (h : History) (x : Server)
      → ((c : Call) (h : History) → z.done (c ∷ h) ≡ ok tt)
      → (after h x).address full_name ≡ private_ip
      → (after h x).attribute full_name key ≡ public_ip
      → after (update_resource r z group vm_name full_name key private_ip public_ip (a, b) h).1 x
        ≡ written a b (after h x)
  unfolding update_resource ◌>>=◌ pure call
  update_lem a b h x done private_before public_before =
      let y = after h x in
      let no_attribute = λ (e : same b public_ip ≡ true).
        with_attribute-same full_name key b y (public_before ∙ sym (same_sound b public_ip e)) in
      let no_address = λ (f : eq a private_ip ≡ true).
        with_address-same full_name a (with_attribute full_name key b y)
          (private_before ∙ sym (eq_sound a private_ip f)) in
      elim (Bool-cases (same b public_ip)) [
        | inl e ↦ elim (Bool-cases (eq a private_ip)) [
          | inl f ↦ rw (e, f) (sym (no_address f ∙ no_attribute e))
          | inr f ↦ rw (e, f) (ap (with_address full_name a) (sym (no_attribute e)))
        ]
        | inr e ↦ elim (Bool-cases (eq a private_ip)) [
          | inl f ↦ rw (e, f, done (set_attribute full_name key b) h) (sym (no_address f))
          | inr f ↦ rw (e, f, done (set_attribute full_name key b) h) refl
        ]
      ]

  update_returns :
      (a : Text) (b : Option Text) (h : History)
      → ((c : Call) (h : History) → z.done (c ∷ h) ≡ ok tt)
      → (update_resource r z group vm_name full_name key private_ip public_ip (a, b) h).0 ≡ ok tt
  unfolding update_resource ◌>>=◌ pure call
  update_returns a b h done = elim (Bool-cases (same b public_ip)) [
    | inl e ↦ elim (Bool-cases (eq a private_ip)) [
      | inl f ↦ rw (e, f) refl
      | inr f ↦ rw (e, f, done (update_address full_name a) h) refl
    ]
    | inr e ↦ elim (Bool-cases (eq a private_ip)) [
      | inl f ↦ rw (e, f, done (set_attribute full_name key b) h) refl
      | inr f ↦
          rw (e, f, done (set_attribute full_name key b) h)
            (done (update_address full_name a) (set_attribute full_name key b ∷ h))
    ]
  ]

  -- When the addresses on Azure are read as `a` and `b`, the resource has on the server the address and
  -- the attribute that the refresh was told, and the server accepts every update, the refresh returns.
  -- The server then keeps what it would if `a` had been written as the address of that resource and `b`
  -- as that attribute of it: all other resources and attributes are as they were.
  pub refresh_ip_refines :
      (a : Text) (b : Option Text) (h k : History) (x : Server)
      → ((c : Call) (h : History) → z.done (c ∷ h) ≡ ok tt)
      → addresses_on_azure r z group vm_name h ≡ (ok (a, b), k)
      → (after k x).address full_name ≡ private_ip
      → (after k x).attribute full_name key ≡ public_ip
      → ((refresh_ip r z group vm_name full_name key private_ip public_ip h).0 ≡ ok tt)
        × (after (refresh_ip r z group vm_name full_name key private_ip public_ip h).1 x
            ≡ written a b (after k x))
  unfolding refresh_ip ◌>>=◌
  refresh_ip_refines a b h k x done found private_before public_before = (
    rw found (update_returns a b k done),
    rw found (update_lem a b k x done private_before public_before),
  )
