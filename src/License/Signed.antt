-- ===== src/License/Signed.antt =====
-- A licence key that is signed, and what it is worth.
use skialith.Common.{
  ◌↔◌, ap, ◌∙◌, subst, leb, ℕ, ◌≡◌, refl, ◌<◌, ◌≢◌, ◌⊎◌, inl, inr, String, Bool, true, false,
  Option, none, some, List, length, arith, Bool-cases, Option-cases, some-inj,
}
use skialith.Common.Text.{
  ◌<>◌, has_dot, split_once_dot, split_once_dot_sound, split_once_dot_complete, trim,
}
use skialith.Common.Maybe.{>>=-eq-some}
use skialith.Limits.{community_rate_limit}
use skialith.License.Terms.{License}
use skialith.License.{
  Keys, LicensePayload, verifying_key, sig_array, check, license_of, parse_and_verify, load,
  effective_rate_limit, allows_ha,
}

sig_array-some :
    (sig bytes : List ℕ) → sig_array sig ≡ some bytes → (sig ≡ bytes) × (length bytes ≡ 64)
sig_array-some sig bytes h = ground arith

check-some : (b : Bool) (u : Unit {0}) → check b ≡ some u → b ≡ true
check-some true u h = refl
check-some false u h = cc

-- More than the community terms.
abbrev pub Grants : ℕ → Option License → Type 0
Grants now o = (effective_rate_limit now o ≢ community_rate_limit) ⊎ (allows_ha now o ≡ true)

Grants-none : (now : ℕ) → ¬ Grants now none
unfolding effective_rate_limit allows_ha
Grants-none now (inl f) = f refl
Grants-none now (inr t) = cc

Grants-some : (now : ℕ) (lic : License) → Grants now (some lic) → now < lic.expires_at
unfolding effective_rate_limit allows_ha
Grants-some now lic (inl f) = elim (Bool-cases (leb lic.expires_at now)) [
  | inl expired ↦ absurd (f (rw expired))
  | inr valid ↦ ground arith
]
Grants-some now lic (inr t) = ground arith

module _ (k : Keys) where
  open k use {Key, decode, key_from_bytes, signature_from_bytes, verify, from_slice}

  -- A key in the documented format whose signature of 64 bytes is by the embedded key, and which
  -- carries the terms of `lic`.
  pub record IsSigned (key_str : String) (lic : License) : Type 0 where
    pub payload_b64 : String
    pub sig_b64 : String
    pub split_at_first_dot : key_str ≡ payload_b64 <> ("." <> sig_b64)
    pub first_dot : has_dot payload_b64 ≡ false
    pub payload_bytes : List ℕ
    pub payload_decodes : decode payload_b64 ≡ some payload_bytes
    pub sig_bytes : List ℕ
    pub sig_decodes : decode sig_b64 ≡ some sig_bytes
    pub sig_length : length sig_bytes ≡ 64
    pub key : Key
    pub key_valid : key_from_bytes verifying_key ≡ some key
    pub verified : verify key payload_bytes (signature_from_bytes sig_bytes) ≡ true
    pub payload : LicensePayload
    pub payload_parses : from_slice payload_bytes ≡ some payload
    pub terms : license_of payload ≡ lic

  parse_and_verify_complete :
      (key_str : String) (lic : License)
      → IsSigned key_str lic
      → parse_and_verify k key_str ≡ some lic
  unfolding parse_and_verify
  parse_and_verify_complete key_str lic s =
      rw (s.split_at_first_dot, split_once_dot_complete s.payload_b64 s.sig_b64 s.first_dot)
        (ground arith)

  parse_and_verify_sound :
      (key_str : String) (lic : License)
      → parse_and_verify k key_str ≡ some lic
      → IsSigned key_str lic
  unfolding parse_and_verify
  parse_and_verify_sound key_str lic h =
      let ((l, r), e1, h1) = >>=-eq-some (split_once_dot key_str) _ h in
      let (payload, e2, h2) = >>=-eq-some (decode l) _ h1 in
      let (sig, e3, h3) = >>=-eq-some (decode r) _ h2 in
      let (bytes, e4, h4) = >>=-eq-some (sig_array sig) _ h3 in
      let (key, e5, h5) = >>=-eq-some (key_from_bytes verifying_key) _ h4 in
      let (u, e6, h6) =
        >>=-eq-some (check (verify key payload (signature_from_bytes bytes))) _ h5 in
      let (p, e7, h7) = >>=-eq-some (from_slice payload) _ h6 in
      record {
        payload_b64 = l;
        sig_b64 = r;
        split_at_first_dot = (split_once_dot_sound key_str l r e1).0;
        first_dot = (split_once_dot_sound key_str l r e1).1;
        payload_bytes = payload;
        payload_decodes = e2;
        sig_bytes = bytes;
        sig_decodes = e3 ∙ ap some (sig_array-some sig bytes e4).0;
        sig_length = (sig_array-some sig bytes e4).1;
        key = key;
        key_valid = e5;
        verified = check-some _ u e6;
        payload = p;
        payload_parses = e7;
        terms = some-inj h7;
      }

  -- A key is accepted, with the terms `lic`, exactly if it is two parts around its first dot, of which
  -- the first decodes to bytes that carry the terms, and the second to a signature of these bytes, of 64
  -- bytes, by the embedded key.
  pub parse_and_verify_iff :
      (key_str : String) (lic : License)
      → (parse_and_verify k key_str ≡ some lic) ↔ IsSigned key_str lic
  parse_and_verify_iff key_str lic =
      (parse_and_verify_sound key_str lic, parse_and_verify_complete key_str lic)

  -- Whoever gets another rate limit than the community ceiling, or HA, has set a key that,
  -- once trimmed, is signed and has not expired.
  pub granted-IsSigned :
      (now : ℕ) (var : Option String)
      → Grants now (load k var)
      → (raw : String) × (lic : License) × (var ≡ some raw)
        × IsSigned (trim raw) lic
        × (now < lic.expires_at)
  unfolding load
  granted-IsSigned now none h = absurd (Grants-none now h)
  granted-IsSigned now (some raw) h = elim (Option-cases (parse_and_verify k (trim raw))) [
    | inl e ↦ absurd (Grants-none now (subst (Grants now) e h))
    | inr (lic, e) ↦ (
      raw,
      lic,
      refl,
      parse_and_verify_sound (trim raw) lic e,
      Grants-some now lic (subst (Grants now) e h),
    )
  ]
