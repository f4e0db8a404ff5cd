-- ===== src/Billing/Limits/Units.antt =====
-- The unit that a number of bytes is printed in.
use file_cheap.Prelude.{ℕ, ◌+◌, ◌^◌, ◌≤◌, ◌<◌, ◌≡◌, some, ltb, arith, inl, inr, Bool-cases}
use file_cheap.Prelude.Int.{pos}
use file_cheap.Billing.Limits.{scaled, format_bytes}

-- The unit number `e` of "KMGTPE" that is right for a number of bytes.
abbrev pub IsUnit : ℕ → ℕ → Type 0
IsUnit e bytes = (e < 6) × (1024 ^ (e + 1) ≤ bytes) × (bytes < 1024 ^ (e + 2))

-- From 1024 bytes up to the largest int64, the loop ends, its divisor has not wrapped around, and
-- it and the letter are those of the largest unit that the number reaches.
pub format_bytes_lem :
    (bytes : ℕ)
    → 1024 ≤ bytes
    → bytes < 2 ^ 63
    → (e : ℕ) × IsUnit e bytes
      × (format_bytes (pos bytes) ≡ some (scaled (pos bytes) (pos (1024 ^ (e + 1))) e))
unfolding format_bytes
format_bytes_lem bytes large small = elim (Bool-cases (ltb bytes (1024 ^ 2))) [
  | inl h ↦ (0, (omega arith, large, ground arith), ground arith)
  | inr h2 ↦ elim (Bool-cases (ltb bytes (1024 ^ 3))) [
    | inl h ↦ (1, (omega arith, ground arith, ground arith), ground arith)
    | inr h3 ↦ elim (Bool-cases (ltb bytes (1024 ^ 4))) [
      | inl h ↦ (2, (omega arith, ground arith, ground arith), ground arith)
      | inr h4 ↦ elim (Bool-cases (ltb bytes (1024 ^ 5))) [
        | inl h ↦ (3, (omega arith, ground arith, ground arith), ground arith)
        | inr h5 ↦ elim (Bool-cases (ltb bytes (1024 ^ 6))) [
          | inl h ↦ (4, (omega arith, ground arith, ground arith), ground arith)
          | inr h6 ↦ (5, (omega arith, ground arith, ground arith), ground arith)
        ]
      ]
    ]
  ]
]
