-- ===== src/Billing/Limits/Usage.antt =====
-- The tests on the usage of a subscription agree with what it has left.
use file_cheap.Prelude.{
  ℕ, ◌<◌, ◌^◌, ◌≡◌, ◌≢◌, ◌↔◌, ◌⊎◌, inl, inr, refl, if◌then◌else◌, Bool-cases, true, arith,
}
use file_cheap.Prelude.Int.{ℤ, pos, negsuc, ◌≤ℤ◌, ◌<ℤ◌, ◌+ℤ◌, ◌-ℤ◌, ltb_ℤ, leb_ℤ, eq_ℤ, wrap64}
use file_cheap.Billing.Limits.{
  SubscriptionInfo, at_least_zero, can_upload, remaining_files, can_transform,
  remaining_transformations, can_upload_storage, remaining_storage,
}

-- The counters are numbers of an int64, and a limit is one or -1.
pub record IsInRange (s : SubscriptionInfo) : Type 0 where
  pub files : (pos 0 ≤ℤ s.files_used) × (s.files_used <ℤ pos (2 ^ 63))
  pub files_limit : (negsuc 0 ≤ℤ s.files_limit) × (s.files_limit <ℤ pos (2 ^ 63))
  pub used : (pos 0 ≤ℤ s.transformations_used) × (s.transformations_used <ℤ pos (2 ^ 63))
  pub limit : (negsuc 0 ≤ℤ s.transformations_limit) × (s.transformations_limit <ℤ pos (2 ^ 63))
  pub bytes : (pos 0 ≤ℤ s.storage_used_bytes) × (s.storage_used_bytes <ℤ pos (2 ^ 63))
  pub bytes_limit : (pos 0 ≤ℤ s.storage_limit_bytes) × (s.storage_limit_bytes <ℤ pos (2 ^ 63))

room :
    (used limit : ℤ)
    → pos 0 ≤ℤ used
    → used <ℤ pos (2 ^ 63)
    → negsuc 0 ≤ℤ limit
    → limit <ℤ pos (2 ^ 63)
    → (ltb_ℤ used limit ≡ true) ↔ (at_least_zero (wrap64 (limit -ℤ used)) ≢ pos 0)
room (pos u) (pos l) a b c d = ground arith
room (pos u) (negsuc l) a b c d = ground arith
room (negsuc u) limit a b c d = absurd (omega arith)

quota :
    (used limit : ℤ)
    → pos 0 ≤ℤ used
    → used <ℤ pos (2 ^ 63)
    → negsuc 0 ≤ℤ limit
    → limit <ℤ pos (2 ^ 63)
    → (can_transform used limit ≡ true) ↔ (
        (if eq_ℤ limit (negsuc 0) then negsuc 0 else at_least_zero (wrap64 (limit -ℤ used)))
        ≢ pos 0)
quota used limit a b c d = elim (Bool-cases (eq_ℤ limit (negsuc 0))) [
  | inl same ↦ rw same (λ h e. cc, λ h. refl)
  | inr other ↦ rw other (room used limit a b c d)
]

space :
    (used limit : ℤ) (size : ℕ)
    → pos 0 ≤ℤ used
    → used <ℤ pos (2 ^ 63)
    → pos 0 ≤ℤ limit
    → limit <ℤ pos (2 ^ 63)
    → 0 < size
    → size < 2 ^ 63
    → (leb_ℤ (wrap64 (used +ℤ pos size)) limit ≡ true)
      ↔ ((pos size ≤ℤ at_least_zero (wrap64 (limit -ℤ used))) ⊎ (pos (2 ^ 63) ≤ℤ used +ℤ pos size))
space (pos u) (pos l) size a b c d positive small = ground arith
space (pos u) (negsuc l) size a b c d positive small = absurd (omega arith)
space (negsuc u) limit size a b c d positive small = absurd (omega arith)

-- With counters that are not negative and limits of at least -1, a subscription may upload exactly
-- if it has files left, and transform exactly if it has transformations left (-1 stands for any
-- number of them).
pub can_upload-remaining :
    (s : SubscriptionInfo)
    → IsInRange s
    → ((can_upload s ≡ true) ↔ (remaining_files s ≢ pos 0))
      × ((can_transform s.transformations_used s.transformations_limit ≡ true)
          ↔ (remaining_transformations s ≢ pos 0))
can_upload-remaining s r = (
  room s.files_used s.files_limit r.files.0 r.files.1 r.files_limit.0 r.files_limit.1,
  quota s.transformations_used s.transformations_limit r.used.0 r.used.1 r.limit.0 r.limit.1,
)

-- The storage test, for a size that is positive: it holds exactly if the bytes left are enough, up
-- to sums below 2^63; from there on the sum wraps around and the test holds for each size.
pub can_upload_storage-remaining :
    (s : SubscriptionInfo) (size : ℕ)
    → IsInRange s
    → 0 < size
    → size < 2 ^ 63
    → (can_upload_storage (pos size) s ≡ true)
      ↔ ((pos size ≤ℤ remaining_storage s) ⊎ (pos (2 ^ 63) ≤ℤ s.storage_used_bytes +ℤ pos size))
can_upload_storage-remaining s size r positive small =
    space s.storage_used_bytes s.storage_limit_bytes size r.bytes.0 r.bytes.1 r.bytes_limit.0
      r.bytes_limit.1 positive small
