-- ===== src/Tests/Billing.antt =====
-- Runs of the limits of an account.
use file_cheap.Prelude.{ℕ, ◌+◌, ◌-◌, ◌^◌, ◌≡◌, ◌≢◌, refl, ◌↔◌, ◌⊎◌, true, false, none, some, arith}
use file_cheap.Prelude.Int.{pos, negsuc, ◌≤ℤ◌, ◌+ℤ◌}
use file_cheap.Billing.Limits.{
  free, pro, enterprise, trialing, SubscriptionInfo, get_tier_limits, can_use_feature, can_upload,
  remaining_files, can_transform, remaining_transformations, can_upload_storage, remaining_storage,
  usage_percent, plain, scaled, format_bytes, is_active,
}
use file_cheap.Billing.Limits.Tiers.{Includes, get_tier_limits-Includes}
use file_cheap.Billing.Limits.Usage.{IsInRange, can_upload-remaining, can_upload_storage-remaining}
use file_cheap.Billing.Limits.Units.{IsUnit, format_bytes_lem}

limits_run : Unit {0}
unfolding get_tier_limits can_use_feature format_bytes is_active
limits_run = tt

webp_is_paid : (can_use_feature free "webp" ≡ false) × (can_use_feature pro "webp" ≡ true)
unfolding limits_run
webp_is_paid = (refl, refl)

abbrev info : SubscriptionInfo
info = record {
  tier = pro;
  status = trialing;
  period_end = none;
  files_limit = pos 2000;
  max_file_size = pos 5000;
  files_used = pos 500;
  storage_limit_bytes = pos 900;
  storage_used_bytes = pos 850;
  transformations_limit = negsuc 0;
  transformations_used = pos 12;
}

a_quarter : usage_percent info ≡ pos 25
a_quarter = refl

large_sizes :
    (format_bytes (pos 1023) ≡ some (plain (pos 1023)))
    × (format_bytes (pos (2 ^ 63 - 1)) ≡ some (scaled (pos (2 ^ 63 - 1)) (pos (2 ^ 60)) 5))
unfolding limits_run
large_sizes = (refl, refl)

get_tier_limits-Includes_example : Includes free enterprise
get_tier_limits-Includes_example = get_tier_limits-Includes free enterprise (omega arith)

in_range : IsInRange info
in_range = record {
  files = (omega arith, omega arith);
  files_limit = (omega arith, omega arith);
  used = (omega arith, omega arith);
  limit = (omega arith, omega arith);
  bytes = (omega arith, omega arith);
  bytes_limit = (omega arith, omega arith);
}

can_upload-remaining_example :
    ((can_upload info ≡ true) ↔ (remaining_files info ≢ pos 0))
    × ((can_transform info.transformations_used info.transformations_limit ≡ true)
        ↔ (remaining_transformations info ≢ pos 0))
can_upload-remaining_example = can_upload-remaining info in_range

can_upload_storage-remaining_example :
    (can_upload_storage (pos 51) info ≡ true)
    ↔ ((pos 51 ≤ℤ remaining_storage info) ⊎ (pos (2 ^ 63) ≤ℤ info.storage_used_bytes +ℤ pos 51))
can_upload_storage-remaining_example =
    can_upload_storage-remaining info 51 in_range (omega arith) (omega arith)

format_bytes_lem_example :
    (e : ℕ) × IsUnit e 5_000_000
    × (format_bytes (pos 5_000_000) ≡ some (scaled (pos 5_000_000) (pos (1024 ^ (e + 1))) e))
format_bytes_lem_example = format_bytes_lem 5_000_000 (omega arith) (omega arith)
