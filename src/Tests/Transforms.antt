-- ===== src/Tests/Transforms.antt =====
-- The transforms of an image's URL.
use file_cheap.Prelude.{◌≡◌, refl, ◌*◌, ◌&&◌, ◌||◌, not, none, some, ltb, leb}
use file_cheap.Prelude.Bytes.{bytes, bytes_key}
use file_cheap.Prelude.Key.{◌==◌}
use file_cheap.Api.Transforms.Text.{
  trim_space, split, split_once, to_lower, digits_value, unsigned, after_plus, positive_up_to,
  is_named,
}
use file_cheap.Api.Transforms.{
  TransformOptions, no_transforms, set_option, read_part, read_parts, parse_transforms,
  validate_transforms, processor_name,
}
use file_cheap.Api.Transforms.Bounds.{IsBounded, parse_transforms-IsBounded}

abbrev a_thumbnail : TransformOptions
a_thumbnail = record no_transforms { width = 150; crop = bytes "thumb"; format = bytes "webp" }

reads_options : parse_transforms (bytes "w_150, c_Thumb,,f_WEBP") ≡ some a_thumbnail
unfolding parse_transforms read_parts read_part set_option split split_once trim_space to_lower
    digits_value unsigned after_plus positive_up_to is_named
reads_options = refl

refuses_zero : parse_transforms (bytes "w_0") ≡ none
unfolding parse_transforms read_parts read_part set_option split split_once trim_space to_lower
    digits_value unsigned after_plus positive_up_to is_named
refuses_zero = refl

-- Although the options require processing.
quality_only_unnamed : processor_name (record no_transforms { quality = 80 }) ≡ bytes ""
unfolding processor_name
quality_only_unnamed = refl

-- A crop to a thumbnail with one side is read, and refused by ValidateTransforms.
parse_transforms-IsBounded_example :
    IsBounded a_thumbnail
    × (validate_transforms a_thumbnail ≡ (
        leb (a_thumbnail.width * a_thumbnail.height) 25000000
        && (not (a_thumbnail.crop == bytes "thumb")
            || (ltb 0 a_thumbnail.width && ltb 0 a_thumbnail.height))))
parse_transforms-IsBounded_example =
    parse_transforms-IsBounded (bytes "w_150, c_Thumb,,f_WEBP") a_thumbnail reads_options
