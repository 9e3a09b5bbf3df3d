-- ===== src/Domain/Tests.antt =====
-- Runs of core/src/domain, and its theorems at concrete values.
use hypr_drive.Prelude.{
  ℕ, ◌≡◌, ◌↔◌, ◌⊎◌, refl, Bool, true, false, Option, none, some, List, [], ◌∷◌, arith, take,
  replicate, ◌≤◌, ℕ_discrete,
}
use Prim.Native.Char.{code}
use Prim.Native.String.{String}
use mathlib.Core.List.{List-discrete}
use hypr_drive.Prelude.Int.{pos, ltb_ℤ}
use hypr_drive.Changes.{DateTime}
use hypr_drive.Domain.Undo.{max_undo_entries, UndoEntry, UndoStack, push, pop, peek, len}
use hypr_drive.Domain.Undo.Stack.{newest_first, newest_first-push, pop-newest_first}
use hypr_drive.Domain.Security.{
  CapabilityToken, Crypto, verify_signature, sign, RevocationList, revoke_nonce, revoke_device,
  is_token_revoked,
}
use hypr_drive.Domain.Security.Tokens.{verify_signature-regrouped, is_token_revoked-revoke}

abbrev noon : DateTime
noon = record { secs = pos 43200; nanos = 0 }

abbrev moved : UndoEntry
moved = record { description = "Moved"; timestamp = noon; inverse_action = "move back" }

abbrev tagged : UndoEntry
tagged = record { description = "Tagged"; timestamp = noon; inverse_action = "untag" }

abbrev full_stack : UndoStack
full_stack = record { entries = replicate 50 moved }

newest_first-push_example :
    (newest_first (push tagged full_stack)
      ≡ take max_undo_entries (tagged ∷ newest_first full_stack))
    × (len (push tagged full_stack) ≤ max_undo_entries)
unfolding len
newest_first-push_example = newest_first-push tagged full_stack (omega arith)

abbrev two : UndoStack
two = record { entries = moved ∷ tagged ∷ [] }

pop-newest_first_example :
    ((pop two).0 ≡ some tagged) × (newest_first (pop two).1 ≡ moved ∷ []) × (peek two ≡ (pop two).0)
pop-newest_first_example = pop-newest_first two

-- A key of one byte is accepted; the tag is the key and the input behind it.
abbrev tag_with : List ℕ → Option (List ℕ → List ℕ)
tag_with (k ∷ []) = some (λ bytes. k ∷ bytes)
tag_with _ = none

abbrev is_yes : {P : Type 0} → Dec P → Bool
is_yes (yes _) = true
is_yes (no _) = false

codes : String → List ℕ
codes String.[] = []
codes (String.◌∷◌ c s) = code c ∷ codes s

abbrev crypto : Crypto
crypto = record {
  uuid_bytes = λ n. n ∷ [];
  device_text = λ n. n ∷ [];
  text_bytes = codes;
  rfc3339 = λ t. t.nanos ∷ [];
  later = λ t u. ltb_ℤ u.secs t.secs;
  hmac = tag_with;
  verify_slice = λ tag s. is_yes (List-discrete ℕ_discrete tag s);
}

rest : List ℕ → List ℕ
rest [] = []
rest (y ∷ ys) = ys

abbrev token : CapabilityToken
token = record {
  nonce = 9;
  device_id = 4;
  permissions = "ab" ∷ "c" ∷ [];
  issued_at = noon;
  expires_at = noon;
  signature = [];
}

-- The token with a later expiry, which the signature does not cover.
abbrev extended : CapabilityToken
extended = record token { expires_at = record { secs = pos 43200; nanos = 500 } }

-- The permission "abc" in place of "ab" and "c".
verify_signature-regrouped_example :
    verify_signature crypto
      (3 ∷ [])
      (record (sign crypto (3 ∷ []) token) { permissions = "abc" ∷ [] })
    ≡ verify_signature crypto
        (3 ∷ [])
        (record (sign crypto (3 ∷ []) token) { permissions = "ab" ∷ "c" ∷ [] })
unfolding codes
verify_signature-regrouped_example =
    verify_signature-regrouped crypto (3 ∷ []) (sign crypto (3 ∷ []) token) [] [] "ab" "c" "abc"
      refl

abbrev revoked : RevocationList
revoked = record { revoked_nonces = 2 ∷ []; revoked_devices = [] }

is_token_revoked-revoke_example :
    ((is_token_revoked token (revoke_nonce 9 revoked) ≡ true)
      ↔ ((is_token_revoked token revoked ≡ true) ⊎ (◌≡◌ {A = ℕ} 9 9)))
    × ((is_token_revoked token (revoke_device 9 revoked) ≡ true)
        ↔ ((is_token_revoked token revoked ≡ true) ⊎ (◌≡◌ {A = ℕ} 9 4)))
is_token_revoked-revoke_example = is_token_revoked-revoke revoked 9 token
