-- ===== src/Billing/Limits.antt =====
-- internal/billing/limits.go: the tiers, the subscription and the tests on both. An int and an
-- int64 is an integer with its wrap-around written out. Not here: the two methods that count days,
-- by way of floating-point hours.
pub mod Tiers
pub mod Usage
pub mod Units
use file_cheap.Prelude.{
  ℕ, zero, suc, ◌*◌, ◌/◌, ◌^◌, ◌+◌, String, Bool, true, false, not, ◌&&◌, ◌||◌, Option, none, some,
  List, [], ◌∷◌, ltb, if◌then◌else◌,
}
use file_cheap.Prelude.Key.{◌==◌, string_key}
use file_cheap.Prelude.Int.{
  ℤ, pos, negsuc, sub_ℕ, ◌+ℤ◌, ◌-ℤ◌, ◌*ℤ◌, ltb_ℤ, leb_ℤ, eq_ℤ, wrap64, quot_ℤ,
}

-- `db.SubscriptionTier`.
pub data SubscriptionTier : Type 0 where
  free pro enterprise : SubscriptionTier

-- `db.SubscriptionStatus`; `without` is the status "none".
pub data SubscriptionStatus : Type 0 where
  without trialing active past_due canceled unpaid : SubscriptionStatus

pub data ApiAccessLevel : Type 0 where
  no_access read_only full_access : ApiAccessLevel

pub record TierLimits : Type 0 where
  pub files_limit : ℤ
  pub max_file_size : ℤ
  pub storage_limit_bytes : ℤ
  pub max_retention_days : ℤ
  pub transformations_limit : ℤ
  pub allowed_processing : List String
  pub api_access : ApiAccessLevel
  pub priority_queue : Bool
  pub custom_watermark : Bool
  pub video_storage_bytes : ℤ
  pub video_minutes_limit : ℤ
  pub max_video_length : ℤ
  pub max_video_size : ℤ
  pub max_video_resolution : ℤ
  pub adaptive_bitrate : Bool
  pub video_watermark : Bool

abbrev mib : ℕ
mib = 1024 * 1024

-- The processing of the paid tiers.
abbrev paid_processing : List String
paid_processing =
    "thumbnail" ∷ "sm" ∷ "md" ∷ "lg" ∷ "xl" ∷ "og" ∷ "twitter" ∷ "instagram_square"
    ∷ "instagram_portrait" ∷ "instagram_story" ∷ "webp" ∷ "watermark" ∷ "video_thumbnail"
    ∷ "video_transcode" ∷ "video_watermark" ∷ []

unfoldable pub get_tier_limits : SubscriptionTier → TierLimits
get_tier_limits enterprise = record {
  files_limit = pos 2000;
  max_file_size = pos (100 * mib);
  storage_limit_bytes = pos (1024 * 1024 * mib);
  max_retention_days = pos 365;
  transformations_limit = negsuc 0;
  allowed_processing = paid_processing;
  api_access = full_access;
  priority_queue = true;
  custom_watermark = true;
  video_storage_bytes = pos (25 * 1024 * mib);
  video_minutes_limit = pos 300;
  max_video_length = pos (10 * 60);
  max_video_size = pos (500 * mib);
  max_video_resolution = pos 2160;
  adaptive_bitrate = true;
  video_watermark = true;
}
get_tier_limits pro = record {
  files_limit = pos 2000;
  max_file_size = pos (100 * mib);
  storage_limit_bytes = pos (100 * 1024 * mib);
  max_retention_days = pos 365;
  transformations_limit = pos 10000;
  allowed_processing = paid_processing;
  api_access = full_access;
  priority_queue = true;
  custom_watermark = true;
  video_storage_bytes = pos (5 * 1024 * mib);
  video_minutes_limit = pos 120;
  max_video_length = pos (10 * 60);
  max_video_size = pos (200 * mib);
  max_video_resolution = pos 1080;
  adaptive_bitrate = true;
  video_watermark = true;
}
get_tier_limits free = record {
  files_limit = pos 100;
  max_file_size = pos (10 * mib);
  storage_limit_bytes = pos (1024 * mib);
  max_retention_days = pos 7;
  transformations_limit = pos 100;
  allowed_processing = "thumbnail" ∷ "sm" ∷ "video_thumbnail" ∷ [];
  api_access = read_only;
  priority_queue = false;
  custom_watermark = false;
  video_storage_bytes = pos (200 * mib);
  video_minutes_limit = pos 5;
  max_video_length = pos 60;
  max_video_size = pos (25 * mib);
  max_video_resolution = pos 480;
  adaptive_bitrate = false;
  video_watermark = false;
}

-- Times are nanoseconds.
pub record SubscriptionInfo : Type 0 where
  pub tier : SubscriptionTier
  pub status : SubscriptionStatus
  pub period_end : Option ℕ
  pub files_limit : ℤ
  pub max_file_size : ℤ
  pub files_used : ℤ
  pub storage_limit_bytes : ℤ
  pub storage_used_bytes : ℤ
  pub transformations_limit : ℤ
  pub transformations_used : ℤ

abbrev pub grace_period : ℕ
grace_period = 3 * 24 * 60 * 60 * 1_000_000_000

-- `IsActive`, at the time `now`.
unfoldable pub is_active : ℕ → SubscriptionInfo → Bool
is_active now s = elim s.status [
  | active ↦ true
  | trialing ↦ true
  | past_due ↦ elim s.period_end [ none ↦ false | some t ↦ ltb_ℤ (sub_ℕ now t) (pos grace_period) ]
  | _ ↦ false
]

unfoldable pub is_pro : ℕ → SubscriptionInfo → Bool
unfolding is_active
is_pro now s = elim s.tier [ free ↦ false | pro ↦ is_active now s | enterprise ↦ is_active now s ]

abbrev pub at_least_zero : ℤ → ℤ
at_least_zero n = if ltb_ℤ n (pos 0) then pos 0 else n

abbrev pub can_upload : SubscriptionInfo → Bool
can_upload s = ltb_ℤ s.files_used s.files_limit

abbrev pub can_upload_size : ℤ → SubscriptionInfo → Bool
can_upload_size size s = leb_ℤ size s.max_file_size

abbrev pub remaining_files : SubscriptionInfo → ℤ
remaining_files s = at_least_zero (wrap64 (s.files_limit -ℤ s.files_used))

-- A share in percent; `UsagePercent` and its two relatives differ in the limits they rule out.
abbrev percent : ℤ → ℤ → ℤ
percent used limit = wrap64 (quot_ℤ (wrap64 (used *ℤ pos 100)) limit)

abbrev pub usage_percent : SubscriptionInfo → ℤ
usage_percent s = if eq_ℤ s.files_limit (pos 0) then pos 100 else percent s.files_used s.files_limit

-- `CanUseFeature`.
unfoldable pub is_listed : String → List String → Bool
is_listed feature [] = false
is_listed feature (f ∷ fs) = f == feature || is_listed feature fs

unfoldable pub can_use_feature : SubscriptionTier → String → Bool
unfolding is_listed get_tier_limits
can_use_feature tier feature = is_listed feature (get_tier_limits tier).allowed_processing

unfoldable pub can_use_api : SubscriptionTier → Bool → Bool
unfolding get_tier_limits
can_use_api tier write = elim (get_tier_limits tier).api_access [
  | full_access ↦ true
  | read_only ↦ not write
  | no_access ↦ false
]

abbrev pub can_transform : ℤ → ℤ → Bool
can_transform current limit = if eq_ℤ limit (negsuc 0) then true else ltb_ℤ current limit

abbrev pub remaining_transformations : SubscriptionInfo → ℤ
remaining_transformations s =
    if eq_ℤ s.transformations_limit (negsuc 0)
    then negsuc 0
    else at_least_zero (wrap64 (s.transformations_limit -ℤ s.transformations_used))

abbrev pub transformations_usage_percent : SubscriptionInfo → ℤ
transformations_usage_percent s =
    if leb_ℤ s.transformations_limit (pos 0)
    then pos 0
    else percent s.transformations_used s.transformations_limit

abbrev pub can_upload_storage : ℤ → SubscriptionInfo → Bool
can_upload_storage size s = leb_ℤ (wrap64 (s.storage_used_bytes +ℤ size)) s.storage_limit_bytes

abbrev pub remaining_storage : SubscriptionInfo → ℤ
remaining_storage s = at_least_zero (wrap64 (s.storage_limit_bytes -ℤ s.storage_used_bytes))

abbrev pub storage_usage_percent : SubscriptionInfo → ℤ
storage_usage_percent s =
    if eq_ℤ s.storage_limit_bytes (pos 0)
    then pos 100
    else percent s.storage_used_bytes s.storage_limit_bytes

-- The arguments of the `Sprintf` of `FormatBytes`: a number of bytes as it is, or one to be divided
-- and the place of its letter in "KMGTPE".
pub data Formatted : Type 0 where
  plain : ℤ → Formatted
  scaled : ℤ → ℤ → ℕ → Formatted

-- The loop, on fuel; `div` is an int64.
unfoldable pub scale : ℕ → ℕ → ℤ → ℕ → Option (ℤ × ℕ)
scale zero n div exp = none
scale (suc fuel) n div exp =
    let rest = scale fuel (n / 1024) (wrap64 (div *ℤ pos 1024)) (exp + 1) in
    if ltb n 1024 then some (div, exp) else rest

-- `FormatBytes`; a negative number is less than the unit.
unfoldable pub format_bytes : ℤ → Option Formatted
unfolding scale
format_bytes (negsuc n) = some (plain (negsuc n))
format_bytes (pos n) =
    if ltb n 1024 then some (plain (pos n)) else (elim (scale 6 (n / 1024) (pos 1024) 0) [
      | none ↦ none
      | some (div, exp) ↦ some (scaled (pos n) div exp)
    ])
