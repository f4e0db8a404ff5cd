-- ===== src/Billing/Limits/Tiers.antt =====
-- The order of the tiers.
use file_cheap.Prelude.{ℕ, ◌≤◌, ◌≡◌, refl, String, Bool, true, arith}
use file_cheap.Prelude.Key.{string_key}
use file_cheap.Prelude.Int.{ℤ, ◌≤ℤ◌}
use file_cheap.Billing.Limits.{
  SubscriptionTier, free, pro, enterprise, get_tier_limits, can_use_feature, can_use_api,
  can_transform,
}

abbrev pub rank : SubscriptionTier → ℕ
rank free = 0
rank pro = 1
rank enterprise = 2

-- What one tier may do, the other may.
pub record Includes (t u : SubscriptionTier) : Type 0 where
  pub features : (f : String) → can_use_feature t f ≡ true → can_use_feature u f ≡ true
  pub api : (write : Bool) → can_use_api t write ≡ true → can_use_api u write ≡ true
  pub transforms :
      (used : ℤ)
      → can_transform used (get_tier_limits t).transformations_limit ≡ true
      → can_transform used (get_tier_limits u).transformations_limit ≡ true
  pub files : (get_tier_limits t).files_limit ≤ℤ (get_tier_limits u).files_limit
  pub file_size : (get_tier_limits t).max_file_size ≤ℤ (get_tier_limits u).max_file_size
  pub storage : (get_tier_limits t).storage_limit_bytes ≤ℤ (get_tier_limits u).storage_limit_bytes
  pub retention : (get_tier_limits t).max_retention_days ≤ℤ (get_tier_limits u).max_retention_days
  pub video_storage :
      (get_tier_limits t).video_storage_bytes ≤ℤ (get_tier_limits u).video_storage_bytes
  pub video_minutes :
      (get_tier_limits t).video_minutes_limit ≤ℤ (get_tier_limits u).video_minutes_limit
  pub video_length : (get_tier_limits t).max_video_length ≤ℤ (get_tier_limits u).max_video_length
  pub video_size : (get_tier_limits t).max_video_size ≤ℤ (get_tier_limits u).max_video_size
  pub video_resolution :
      (get_tier_limits t).max_video_resolution ≤ℤ (get_tier_limits u).max_video_resolution

included_in_itself : (t : SubscriptionTier) → Includes t t
included_in_itself t = record {
  features = λ f h. h;
  api = λ w h. h;
  transforms = λ n h. h;
  files = omega arith;
  file_size = omega arith;
  storage = omega arith;
  retention = omega arith;
  video_storage = omega arith;
  video_minutes = omega arith;
  video_length = omega arith;
  video_size = omega arith;
  video_resolution = omega arith;
}

included_via : (t u v : SubscriptionTier) → Includes t u → Includes u v → Includes t v
included_via t u v a b = record {
  features = λ f h. b.features f (a.features f h);
  api = λ w h. b.api w (a.api w h);
  transforms = λ n h. b.transforms n (a.transforms n h);
  files = ground (arith, a.files, b.files);
  file_size = ground (arith, a.file_size, b.file_size);
  storage = ground (arith, a.storage, b.storage);
  retention = ground (arith, a.retention, b.retention);
  video_storage = ground (arith, a.video_storage, b.video_storage);
  video_minutes = ground (arith, a.video_minutes, b.video_minutes);
  video_length = ground (arith, a.video_length, b.video_length);
  video_size = ground (arith, a.video_size, b.video_size);
  video_resolution = ground (arith, a.video_resolution, b.video_resolution);
}

free-pro : Includes free pro
unfolding can_use_feature can_use_api get_tier_limits
free-pro = record {
  features = λ f h. ground arith;
  api = λ w h. ground arith;
  transforms = λ n h. ground arith;
  files = omega arith;
  file_size = omega arith;
  storage = omega arith;
  retention = omega arith;
  video_storage = omega arith;
  video_minutes = omega arith;
  video_length = omega arith;
  video_size = omega arith;
  video_resolution = omega arith;
}

pro-enterprise : Includes pro enterprise
unfolding can_use_feature can_use_api get_tier_limits
pro-enterprise = record {
  features = λ f h. h;
  api = λ w h. h;
  transforms = λ n h. refl;
  files = omega arith;
  file_size = omega arith;
  storage = omega arith;
  retention = omega arith;
  video_storage = omega arith;
  video_minutes = omega arith;
  video_length = omega arith;
  video_size = omega arith;
  video_resolution = omega arith;
}

-- A higher tier may do all that a lower tier may: each kind of processing, each use of the API, each
-- transformation; and none of its limits is lower.
pub get_tier_limits-Includes : (t u : SubscriptionTier) → rank t ≤ rank u → Includes t u
get_tier_limits-Includes free free h = included_in_itself free
get_tier_limits-Includes free pro h = free-pro
get_tier_limits-Includes free enterprise h =
    included_via free pro enterprise free-pro pro-enterprise
get_tier_limits-Includes pro free h = absurd (omega arith)
get_tier_limits-Includes pro pro h = included_in_itself pro
get_tier_limits-Includes pro enterprise h = pro-enterprise
get_tier_limits-Includes enterprise free h = absurd (omega arith)
get_tier_limits-Includes enterprise pro h = absurd (omega arith)
get_tier_limits-Includes enterprise enterprise h = included_in_itself enterprise
