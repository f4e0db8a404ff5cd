-- ===== src/Api/Transforms.antt =====
-- The transforms of an image's URL: internal/api/transforms.go.
pub mod Text
pub mod Bounds
use file_cheap.Prelude.{
  ℕ, ◌+◌, ◌-◌, ◌*◌, ◌^◌, Bool, true, false, ◌&&◌, ◌||◌, Option, none, some, List, [], ◌∷◌, ◌++◌,
  if◌then◌else◌, ltb, leb, length, nat_beq, not, take,
}
use file_cheap.Prelude.Bytes.{Bytes, bytes, bytes_key}
use file_cheap.Prelude.Int.{ℤ, ltb_ℤ, wrap64}
use file_cheap.Prelude.Key.{◌==◌}
use file_cheap.Prelude.Decimal.{decimal}
use file_cheap.Encoding.{hex}
use file_cheap.Api.Transforms.Text.{
  split, split_once, trim_space, to_lower, digits_value, unsigned, after_plus, positive_up_to,
  is_named,
}
use file_cheap.Worker.FileJob.{Options}

pub record TransformOptions : Type 0 where
  pub width : ℕ
  pub height : ℕ
  pub quality : ℕ
  pub format : Bytes
  pub crop : Bytes
  pub watermark : Bytes
  pub page : ℕ
  pub position : Bytes

abbrev pub no_transforms : TransformOptions
no_transforms = record {
  width = 0;
  height = 0;
  quality = 0;
  format = [];
  crop = [];
  watermark = [];
  page = 0;
  position = [];
}

abbrev pub formats : List Bytes
formats = bytes "webp" ∷ bytes "jpg" ∷ bytes "jpeg" ∷ bytes "png" ∷ bytes "gif" ∷ []

abbrev pub crops : List Bytes
crops = bytes "thumb" ∷ bytes "fit" ∷ bytes "fill" ∷ bytes "cover" ∷ bytes "contain" ∷ []

abbrev pub positions : List Bytes
positions =
    bytes "center"
    ∷ bytes "north"
    ∷ bytes "south"
    ∷ bytes "east"
    ∷ bytes "west"
    ∷ bytes "north-west"
    ∷ bytes "north-east"
    ∷ bytes "south-west"
    ∷ bytes "south-east"
    ∷ bytes "top"
    ∷ bytes "bottom"
    ∷ bytes "left"
    ∷ bytes "right"
    ∷ bytes "top-left"
    ∷ bytes "top-right"
    ∷ bytes "bottom-left"
    ∷ bytes "bottom-right"
    ∷ []

abbrev pub with_number : ℕ → Bytes → (ℕ → TransformOptions) → Option TransformOptions
with_number limit value set = elim (positive_up_to limit value) [
  | none ↦ none
  | some n ↦ some (set n)
]

abbrev pub with_name : List Bytes → Bytes → (Bytes → TransformOptions) → Option TransformOptions
with_name names value set =
    if is_named (to_lower value) names then some (set (to_lower value)) else none

-- One option of the list; `none` is an error.
unfoldable pub set_option : Bytes → Bytes → TransformOptions → Option TransformOptions
set_option key value opts =
    if key == bytes "w"
    then with_number 10000 value (λ n. record opts { width = n })
    else if key == bytes "h"
    then with_number 10000 value (λ n. record opts { height = n })
    else if key == bytes "q"
    then with_number 100 value (λ n. record opts { quality = n })
    else if key == bytes "f"
    then with_name formats value (λ s. record opts { format = s })
    else if key == bytes "c"
    then with_name crops value (λ s. record opts { crop = s })
    else if key == bytes "wm"
    then (if ltb 100 (length value) then none else some (record opts { watermark = value }))
    else if key == bytes "p"
    then with_number 9999 value (λ n. record opts { page = n })
    else if key == bytes "pos"
    then with_name positions value (λ s. record opts { position = s })
    else none

-- One part of the list.
unfoldable pub read_part : Bytes → TransformOptions → Option TransformOptions
unfolding set_option
read_part [] opts = some opts
read_part (c ∷ s) opts = elim (split_once b'_' (c ∷ s)) [
  | none ↦ none
  | some (key, value) ↦ set_option key value opts
]

unfoldable pub read_parts : List Bytes → TransformOptions → Option TransformOptions
unfolding read_part
read_parts [] opts = some opts
read_parts (part ∷ parts) opts = elim (read_part (trim_space part) opts) [
  | none ↦ none
  | some opts' ↦ read_parts parts opts'
]

-- `ParseTransforms`.
unfoldable pub parse_transforms : Bytes → Option TransformOptions
unfolding read_parts
parse_transforms s =
    if s == [] || s == bytes "_" || s == bytes "original"
    then some no_transforms
    else read_parts (split b',' s) no_transforms

-- The product as an int.
abbrev pub int_product : ℕ → ℕ → ℤ
int_product a b = wrap64 (ℤ.pos (a * b))

-- `ValidateTransforms`: `true` is a nil error.
unfoldable pub validate_transforms : TransformOptions → Bool
validate_transforms opts =
    if ltb 0 opts.width
      && ltb 0 opts.height
      && ltb_ℤ (ℤ.pos 25000000) (int_product opts.width opts.height)
    then false
    else if opts.crop == bytes "thumb" && (nat_beq opts.width 0 || nat_beq opts.height 0)
    then false
    else true

-- `RequiresProcessing`.
abbrev pub requires_processing : TransformOptions → Bool
requires_processing opts =
    ltb 0 opts.width
    || ltb 0 opts.height
    || ltb 0 opts.quality
    || not (opts.format == [])
    || not (opts.crop == [])
    || not (opts.watermark == [])
    || ltb 0 opts.page
    || not (opts.position == [])

-- `ProcessorName` and `ProcessorNameForContentType`.
unfoldable pub processor_name : TransformOptions → Bytes
processor_name opts =
    if opts.format == bytes "webp"
    then bytes "webp"
    else if not (opts.watermark == [])
    then bytes "watermark"
    else if ltb 0 opts.width && ltb 0 opts.height && leb opts.width 200 && leb opts.height 200
    then bytes "thumbnail"
    else if ltb 0 opts.width || ltb 0 opts.height
    then bytes "resize"
    else []

abbrev pub processor_name_for_content_type : TransformOptions → Bytes → Bytes
processor_name_for_content_type opts content_type =
    if content_type == bytes "application/pdf" then bytes "pdf_thumbnail" else processor_name opts

-- `ToProcessorOptions`.
abbrev pub to_processor_options : TransformOptions → Options
to_processor_options opts = record {
  width = ℤ.pos opts.width;
  height = ℤ.pos opts.height;
  quality = ℤ.pos opts.quality;
  fit = opts.crop;
  format = opts.format;
  variant_type = opts.watermark;
  page = ℤ.pos opts.page;
  position = opts.position;
}

-- `CacheKey`, with SHA-256 as an argument.
unfoldable pub cache_key : (Bytes → Bytes) → TransformOptions → Bytes
unfolding decimal hex
cache_key sha256 opts = take 16 (
    hex (
      sha256 (
        bytes "w="
        ++ decimal opts.width
        ++ bytes ",h="
        ++ decimal opts.height
        ++ bytes ",q="
        ++ decimal opts.quality
        ++ bytes ",f="
        ++ opts.format
        ++ bytes ",c="
        ++ opts.crop
        ++ bytes ",wm="
        ++ opts.watermark
        ++ bytes ",p="
        ++ decimal opts.page
        ++ bytes ",pos="
        ++ opts.position)))
