-- ===== src/License.antt =====
-- src/license.rs: the licence key, its verification and what it grants. Base64, Ed25519 and JSON
-- are third-party code, and an argument (`Keys`); so are the clock and the environment variable.
pub mod Terms
pub mod Signed
use skialith.Common.{
  ℕ, zero, suc, ◌≡◌, String, Bool, true, false, Option, none, some, List, [], ◌∷◌, length, ◌==◌,
  if◌then◌else◌,
}
use skialith.Common.Text.{split_once_dot, trim}
use skialith.Common.Maybe.{◌>>=◌, ◌>>◌}
use skialith.Limits.{community_rate_limit}
use Terms.{License}
use Terms

pub record LicensePayload : Type 0 where
  pub customer_id : String
  pub max_events_per_second : Option ℕ
  pub allow_ha : Bool
  pub expires_at : ℕ

-- What the program calls of `base64`, `ed25519_dalek` and `serde_json`.
pub record Keys : Type 1 where
  pub Key : Type 0
  pub Signature : Type 0
  pub decode : String → Option (List ℕ)
  pub key_from_bytes : List ℕ → Option Key
  pub signature_from_bytes : List ℕ → Signature
  pub verify : Key → List ℕ → Signature → Bool
  pub from_slice : List ℕ → Option LicensePayload

abbrev zeros : ℕ → List ℕ
zeros zero = []
zeros (suc n) = 0 ∷ zeros n

-- `VERIFYING_KEY`, the placeholder in the source.
abbrev pub verifying_key : List ℕ
verifying_key = zeros 32

-- `try_into` to an array of 64 bytes.
abbrev pub sig_array : List ℕ → Option (List ℕ)
sig_array bytes = if length bytes == 64 then some bytes else none

abbrev pub check : Bool → Option (Unit {0})
check true = some tt
check false = none

abbrev pub license_of : LicensePayload → License
license_of p = record {
  customer_id = p.customer_id;
  max_events_per_second = p.max_events_per_second;
  allow_ha = p.allow_ha;
  expires_at = p.expires_at;
}

module _ (k : Keys) where
  open k use {decode, key_from_bytes, signature_from_bytes, verify, from_slice}

  unfoldable pub b64_decode : String → Option (List ℕ)
  b64_decode s = decode s

  unfoldable pub parse_and_verify : String → Option License
  unfolding b64_decode
  parse_and_verify key_str = do
    parts ← split_once_dot key_str
    payload_bytes ← b64_decode parts.0
    sig ← b64_decode parts.1
    sig_bytes ← sig_array sig
    key ← key_from_bytes verifying_key
    check (verify key payload_bytes (signature_from_bytes sig_bytes))
    p ← from_slice payload_bytes
    some (license_of p)

  -- The argument is the value of SKIALITH_LICENSE_KEY, if it is set.
  unfoldable pub load : Option String → Option License
  unfolding parse_and_verify
  load var = do raw ← var; parse_and_verify (trim raw)

unfoldable pub effective_rate_limit : ℕ → Option License → ℕ
unfolding Terms.effective_rate_limit
effective_rate_limit now none = community_rate_limit
effective_rate_limit now (some l) = Terms.effective_rate_limit now l

unfoldable pub allows_ha : ℕ → Option License → Bool
unfolding Terms.allows_ha
allows_ha now none = false
allows_ha now (some l) = Terms.allows_ha now l
