-- ===== src/Domain/Security/Tokens.antt =====
-- What the signatures and the revocations of core/src/domain/security.rs guarantee.
use hypr_drive.Prelude.{
  ℕ, Bool, true, false, ◌||◌, ◌≡◌, ◌↔◌, ◌⊎◌, inl, inr, refl, sym, Option, some, none, String, List,
  [], ◌∷◌, ◌++◌, arith, ◌==◌, Bool-cases, ℕ_discrete,
}
use mathlib.Core.List.{append_assoc}
use hypr_drive.Domain.Security.{
  CapabilityToken, Crypto, permission_bytes, verify_input, verify_with, verify_signature,
  RevocationList, contains, push_new, revoke_nonce, revoke_device, is_nonce_revoked,
  is_device_revoked, is_token_revoked,
}

-- A code whose words do not run into what follows them.
abbrev pub Delimited : {A : Type 0} → (A → List ℕ) → Type 0
Delimited {A} f = (a b : A) (xs ys : List ℕ) → f a ++ xs ≡ f b ++ ys → (f a ≡ f b) × (xs ≡ ys)

-- The documented behaviour of `verify_slice`, which accepts the tag that was computed and no other,
-- and of the encodings: an identifier has 16 bytes, its text 36, and a time ends with its offset.
pub record IsCrypto (c : Crypto) : Type 0 where
  pub exact : (tag s : List ℕ) → (c.verify_slice tag s ≡ true) ↔ (tag ≡ s)
  pub nonces : Delimited c.uuid_bytes
  pub devices : Delimited c.device_text
  pub times : Delimited c.rfc3339

module _ (c : Crypto) (lawful : IsCrypto c) (t u : CapabilityToken) where
  -- Two tokens with the same bytes of every field but the permissions.
  abbrev pub SameFields : Type 0
  SameFields =
      (c.uuid_bytes u.nonce ≡ c.uuid_bytes t.nonce)
      × (c.device_text u.device_id ≡ c.device_text t.device_id)
      × (c.rfc3339 u.issued_at ≡ c.rfc3339 t.issued_at)
      × (c.rfc3339 u.expires_at ≡ c.rfc3339 t.expires_at)

  -- The fields one behind the other, grouped from the right.
  abbrev fields : CapabilityToken → List ℕ
  fields t =
      c.uuid_bytes t.nonce
      ++ (c.device_text t.device_id
          ++ (permission_bytes c t.permissions
              ++ (c.rfc3339 t.issued_at ++ c.rfc3339 t.expires_at)))

  -- The same, as they are fed.
  abbrev fed : CapabilityToken → List ℕ
  fed t =
      c.uuid_bytes t.nonce
      ++ c.device_text t.device_id
      ++ permission_bytes c t.permissions
      ++ c.rfc3339 t.issued_at
      ++ c.rfc3339 t.expires_at

module _ (c : Crypto) where
  permission_bytes-append :
      (xs ys : List String)
      → permission_bytes c (xs ++ ys) ≡ permission_bytes c xs ++ permission_bytes c ys
  unfolding permission_bytes
  permission_bytes-append [] ys = refl
  permission_bytes-append (x ∷ xs) ys =
      rw (permission_bytes-append xs ys)
        (sym (append_assoc (c.text_bytes x) (permission_bytes c xs) (permission_bytes c ys)))

  permission_bytes-joined :
      (before after : List String) (p q joined : String)
      → c.text_bytes joined ≡ c.text_bytes p ++ c.text_bytes q
      → permission_bytes c (before ++ joined ∷ after) ≡ permission_bytes c (before ++ p ∷ q ∷ after)
  unfolding permission_bytes
  permission_bytes-joined before after p q joined e = rw (
    permission_bytes-append before (joined ∷ after),
    permission_bytes-append before (p ∷ q ∷ after),
    e,
    append_assoc (c.text_bytes p) (c.text_bytes q) (permission_bytes c after),
  )

  -- A signature does not tell two permissions that stand side by side from the one permission that
  -- joins their texts: a token verifies with the one exactly if it verifies with the other.
  pub verify_signature-regrouped :
      (key : List ℕ) (t : CapabilityToken) (before after : List String) (p q joined : String)
      → c.text_bytes joined ≡ c.text_bytes p ++ c.text_bytes q
      → verify_signature c key (record t { permissions = before ++ joined ∷ after })
        ≡ verify_signature c key (record t { permissions = before ++ p ∷ q ∷ after })
  unfolding verify_signature verify_with verify_input
  verify_signature-regrouped key t before after p q joined e = by_key (c.hmac key)
    where
      same :
          permission_bytes c (before ++ joined ∷ after)
          ≡ permission_bytes c (before ++ p ∷ q ∷ after)
      same = permission_bytes-joined before after p q joined e

      by_key :
          (o : Option (List ℕ → List ℕ))
          → verify_with c o (record t { permissions = before ++ joined ∷ after })
            ≡ verify_with c o (record t { permissions = before ++ p ∷ q ∷ after })
      by_key none = refl
      by_key (some mac) = rw (verify_with, verify_input, same) refl

contains-append : (xs : List ℕ) (x y : ℕ) → contains (xs ++ x ∷ []) y ≡ (contains xs y || (x == y))
unfolding contains
contains-append [] x y = ground arith
contains-append (z ∷ xs) x y = ground (arith, contains-append xs x y)

contains-push_new :
    (xs : List ℕ) (x y : ℕ) → contains (push_new xs x) y ≡ (contains xs y || (x == y))
unfolding push_new
contains-push_new xs x y = elim (Bool-cases (contains xs x)) [
  | inl p ↦ elim (ℕ_discrete x y) [
    | yes e ↦ let q : contains xs y ≡ true = rw (← e) p in rw (p, q)
    | no n ↦ rw p (ground arith)
  ]
  | inr p ↦ rw p (contains-append xs x y)
]

or_iff : (a b : Bool) (x y : ℕ) → ((a || (x == y)) || b ≡ true) ↔ ((a || b ≡ true) ⊎ (x ≡ y))
or_iff true b x y = (λ _. inl refl, λ _. refl)
or_iff false true x y = (λ _. inl refl, λ _. ground arith)
or_iff false false x y = ground arith

or_iff_right : (a b : Bool) (x y : ℕ) → (a || (b || (x == y)) ≡ true) ↔ ((a || b ≡ true) ⊎ (x ≡ y))
or_iff_right true b x y = (λ _. inl refl, λ _. refl)
or_iff_right false true x y = (λ _. inl refl, λ _. refl)
or_iff_right false false x y = ground arith

-- A token is revoked after a revocation exactly if it was revoked before or has the revoked nonce,
-- or the revoked device.
pub is_token_revoked-revoke :
    (r : RevocationList) (x : ℕ) (t : CapabilityToken)
    → ((is_token_revoked t (revoke_nonce x r) ≡ true)
        ↔ ((is_token_revoked t r ≡ true) ⊎ (x ≡ t.nonce)))
      × ((is_token_revoked t (revoke_device x r) ≡ true)
          ↔ ((is_token_revoked t r ≡ true) ⊎ (x ≡ t.device_id)))
unfolding is_token_revoked revoke_nonce revoke_device is_nonce_revoked is_device_revoked
is_token_revoked-revoke r x t = (
  rw (contains-push_new r.revoked_nonces x t.nonce) (
      or_iff (contains r.revoked_nonces t.nonce) (contains r.revoked_devices t.device_id) x
        t.nonce),
  rw (contains-push_new r.revoked_devices x t.device_id) (
      or_iff_right (contains r.revoked_nonces t.nonce) (contains r.revoked_devices t.device_id) x
        t.device_id),
)
