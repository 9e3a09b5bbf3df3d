-- ===== src/Domain/Security.antt =====
-- core/src/domain/security.rs: capability tokens and the revocation list.
-- A byte is a number below 256; a `Uuid` and a `DeviceId` are their numbers.
pub mod Tokens
use hypr_drive.Prelude.{
  ℕ, Bool, true, false, ◌||◌, not, Option, some, none, String, List, [], ◌∷◌, ◌++◌, ◌==◌,
  if◌then◌else◌,
}
use hypr_drive.Prelude.Text.{String_discrete}
use hypr_drive.Prelude.Int.{ltb_ℤ}
use hypr_drive.Changes.{DateTime}

pub record CapabilityToken : Type 0 where
  pub nonce : ℕ
  pub device_id : ℕ
  pub permissions : List String
  pub issued_at : DateTime
  pub expires_at : DateTime
  pub signature : List ℕ

-- What comes from outside the repository: the bytes of an identifier, of a text and of a time,
-- HMAC-SHA256 under a key, if the key is accepted, and the comparison of tags.
pub record Crypto : Type 0 where
  pub uuid_bytes : ℕ → List ℕ
  pub device_text : ℕ → List ℕ
  pub text_bytes : String → List ℕ
  pub rfc3339 : DateTime → List ℕ
  pub later : DateTime → DateTime → Bool
  pub hmac : List ℕ → Option (List ℕ → List ℕ)
  pub verify_slice : List ℕ → List ℕ → Bool

pub text_eq : String → String → Bool
text_eq s t = elim (String_discrete s t) [ yes _ ↦ true | no _ ↦ false ]

-- `self.permissions.iter().any(|p| p == perm)`
pub any_text : String → List String → Bool
any_text perm [] = false
any_text perm (p ∷ ps) = text_eq p perm || any_text perm ps

pub has_permission : String → CapabilityToken → Bool
has_permission perm t = any_text perm t.permissions

module _ (c : Crypto) where
  pub is_expired : DateTime → CapabilityToken → Bool
  is_expired now t = c.later now t.expires_at

  unfoldable pub permission_bytes : List String → List ℕ
  permission_bytes [] = []
  permission_bytes (p ∷ ps) = c.text_bytes p ++ permission_bytes ps

  -- The calls of `mac.update` in `verify_signature`, one behind the other.
  unfoldable pub verify_input : CapabilityToken → List ℕ
  verify_input t =
      c.uuid_bytes t.nonce
      ++ c.device_text t.device_id
      ++ permission_bytes t.permissions
      ++ c.rfc3339 t.issued_at
      ++ c.rfc3339 t.expires_at

  pub verify_with : Option (List ℕ → List ℕ) → CapabilityToken → Bool
  verify_with none t = false
  verify_with (some mac) t = c.verify_slice (mac (verify_input t)) t.signature

  pub verify_signature : List ℕ → CapabilityToken → Bool
  verify_signature key t = verify_with (c.hmac key) t

  -- Those in `sign`.
  unfoldable pub sign_input : CapabilityToken → List ℕ
  sign_input t =
      c.uuid_bytes t.nonce
      ++ c.device_text t.device_id
      ++ permission_bytes t.permissions
      ++ c.rfc3339 t.issued_at
      ++ c.rfc3339 t.expires_at

  abbrev pub sign_with : Option (List ℕ → List ℕ) → CapabilityToken → CapabilityToken
  sign_with none t = t
  sign_with (some mac) t = record t { signature = mac (sign_input t) }

  unfoldable pub sign : List ℕ → CapabilityToken → CapabilityToken
  sign key t = sign_with (c.hmac key) t

pub record RevocationList : Type 0 where
  pub revoked_nonces : List ℕ
  pub revoked_devices : List ℕ

pub contains : List ℕ → ℕ → Bool
contains [] x = false
contains (y ∷ ys) x = (y == x) || contains ys x

pub push_new : List ℕ → ℕ → List ℕ
push_new xs x = if not (contains xs x) then xs ++ x ∷ [] else xs

pub new : RevocationList
new = record { revoked_nonces = []; revoked_devices = [] }

pub revoke_nonce : ℕ → RevocationList → RevocationList
revoke_nonce nonce r = record r { revoked_nonces = push_new r.revoked_nonces nonce }

pub revoke_device : ℕ → RevocationList → RevocationList
revoke_device device r = record r { revoked_devices = push_new r.revoked_devices device }

pub is_nonce_revoked : ℕ → RevocationList → Bool
is_nonce_revoked nonce r = contains r.revoked_nonces nonce

pub is_device_revoked : ℕ → RevocationList → Bool
is_device_revoked device r = contains r.revoked_devices device

pub is_token_revoked : CapabilityToken → RevocationList → Bool
is_token_revoked t r = is_nonce_revoked t.nonce r || is_device_revoked t.device_id r
