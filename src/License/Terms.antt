-- ===== src/License/Terms.antt =====
-- `License` of src/license.rs and its methods. The clock, in seconds, is an argument.
use skialith.Common.{ℕ, String, Bool, not, ◌&&◌, Option, leb, unwrap_or, if◌then◌else◌}
use skialith.Limits.{u32_max, community_rate_limit}

pub record License : Type 0 where
  pub customer_id : String
  pub max_events_per_second : Option ℕ
  pub allow_ha : Bool
  pub expires_at : ℕ

unfoldable pub is_expired : ℕ → License → Bool
is_expired now l = leb l.expires_at now

unfoldable pub effective_rate_limit : ℕ → License → ℕ
unfolding is_expired
effective_rate_limit now l =
    if is_expired now l then community_rate_limit else unwrap_or l.max_events_per_second u32_max

unfoldable pub allows_ha : ℕ → License → Bool
unfolding is_expired
allows_ha now l = not (is_expired now l) && l.allow_ha
