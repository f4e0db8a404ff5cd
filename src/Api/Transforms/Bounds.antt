-- ===== src/Api/Transforms/Bounds.antt =====
-- The options that the parser of transforms can give (internal/api/transforms.go).
use file_cheap.Prelude.{
  ◌≡◌, refl, sym, ap, ◌∙◌, subst, ℕ, ◌*◌, ◌≤◌, Bool, true, false, ◌&&◌, ◌||◌, not, Option, none,
  some, List, [], ◌∷◌, if◌then◌else◌, ltb, leb, length, nat_beq, Bool-cases, Option-cases, inl, inr,
  arith,
}
use native.Mathlib.Nat.{mul-le-mul}
use file_cheap.Prelude.Bytes.{Bytes, bytes, bytes_key}
use file_cheap.Prelude.Int.{ℤ, ltb_ℤ, wrap64_small}
use file_cheap.Prelude.Key.{◌==◌}
use file_cheap.Api.Transforms.Text.{
  split, split_once, trim_space, to_lower, positive_up_to, is_named,
}
use file_cheap.Api.Transforms.{
  TransformOptions, no_transforms, formats, crops, positions, with_number, with_name, set_option,
  read_part, read_parts, parse_transforms, int_product, validate_transforms,
}

-- No name, or one of the list.
abbrev pub is_known : Bytes → List Bytes → Bool
is_known s names = s == [] || is_named s names

pub record IsBounded (opts : TransformOptions) : Type 0 where
  pub width : opts.width ≤ 10000
  pub height : opts.height ≤ 10000
  pub quality : opts.quality ≤ 100
  pub page : opts.page ≤ 9999
  pub watermark : length opts.watermark ≤ 100
  pub format : is_known opts.format formats ≡ true
  pub crop : is_known opts.crop crops ≡ true
  pub position : is_known opts.position positions ≡ true

positive_up_to_le :
    (limit : ℕ) (value : Bytes) (n : ℕ) → positive_up_to limit value ≡ some n → n ≤ limit
unfolding positive_up_to
positive_up_to_le limit value n h = ground (arith, h)

named_known : (s : Bytes) (names : List Bytes) → is_named s names ≡ true → is_known s names ≡ true
named_known s names h = ground (arith, h)

abbrev Gives : Option TransformOptions → Type 0
Gives o = (opts : TransformOptions) → o ≡ some opts → IsBounded opts

some-Gives : (opts : TransformOptions) → IsBounded opts → Gives (some opts)
some-Gives opts b opts' h =
    let value : Option TransformOptions → TransformOptions =
      λ o. elim o [ none ↦ opts | some x ↦ x ] in
    subst IsBounded (ap value h) b

none-Gives : Gives none
none-Gives opts h = ground (arith, h)

if-Gives :
    (c : Bool) (o o' : Option TransformOptions) → Gives o → Gives o' → Gives (if c then o else o')
if-Gives true o o' g g' = g
if-Gives false o o' g g' = g'

with_number-Gives :
    (limit : ℕ) (value : Bytes) (set : ℕ → TransformOptions)
    → ((n : ℕ) → n ≤ limit → IsBounded (set n))
    → Gives (with_number limit value set)
with_number-Gives limit value set g opts h =
    let after : Option ℕ → Option TransformOptions =
      λ o. elim o [ none ↦ none | some n ↦ some (set n) ] in
    elim (Option-cases (positive_up_to limit value)) [
      | inl e ↦ none-Gives opts (sym (ap after e) ∙ h)
      | inr (n, e) ↦
          some-Gives (set n) (g n (positive_up_to_le limit value n e)) opts (sym (ap after e) ∙ h)
    ]

with_name-Gives :
    (names : List Bytes) (value : Bytes) (set : Bytes → TransformOptions)
    → ((s : Bytes) → is_known s names ≡ true → IsBounded (set s))
    → Gives (with_name names value set)
with_name-Gives names value set g opts h =
    let after : Bool → Option TransformOptions =
      λ c. if c then some (set (to_lower value)) else none in
    elim (Bool-cases (is_named (to_lower value) names)) [
      | inl e ↦
          some-Gives (set (to_lower value))
            (g (to_lower value) (named_known (to_lower value) names e)) opts (sym (ap after e) ∙ h)
      | inr e ↦ none-Gives opts (sym (ap after e) ∙ h)
    ]

watermark-Gives :
    (value : Bytes) (o : TransformOptions)
    → (length value ≤ 100 → IsBounded o)
    → Gives (if ltb 100 (length value) then none else some o)
watermark-Gives value o g opts h =
    let after : Bool → Option TransformOptions = λ c. if c then none else some o in
    elim (Bool-cases (ltb 100 (length value))) [
      | inl e ↦ none-Gives opts (sym (ap after e) ∙ h)
      | inr e ↦ some-Gives o (g (ground (arith, e))) opts (sym (ap after e) ∙ h)
    ]

bounded :
    {opts : TransformOptions}
    → opts.width ≤ 10000
    → opts.height ≤ 10000
    → opts.quality ≤ 100
    → opts.page ≤ 9999
    → length opts.watermark ≤ 100
    → is_known opts.format formats ≡ true
    → is_known opts.crop crops ≡ true
    → is_known opts.position positions ≡ true
    → IsBounded opts
bounded w h q p wm f c pos = record {
  width = w;
  height = h;
  quality = q;
  page = p;
  watermark = wm;
  format = f;
  crop = c;
  position = pos;
}

set_option-Gives :
    (key value : Bytes) (opts : TransformOptions)
    → IsBounded opts
    → Gives (set_option key value opts)
unfolding set_option
set_option-Gives key value opts b =
    if-Gives (key == bytes "w") _ _
      (with_number-Gives 10000 value (λ n. record opts { width = n })
        (λ n le. bounded le b.height b.quality b.page b.watermark b.format b.crop b.position))
      (if-Gives (key == bytes "h") _ _
        (with_number-Gives 10000 value (λ n. record opts { height = n })
          (λ n le. bounded b.width le b.quality b.page b.watermark b.format b.crop b.position))
        (if-Gives (key == bytes "q") _ _
          (with_number-Gives 100 value (λ n. record opts { quality = n })
            (λ n le. bounded b.width b.height le b.page b.watermark b.format b.crop b.position))
          (if-Gives (key == bytes "f") _ _
            (with_name-Gives formats value (λ s. record opts { format = s })
              (λ s known.
                bounded b.width b.height b.quality b.page b.watermark known b.crop b.position))
            (if-Gives (key == bytes "c") _ _
              (with_name-Gives crops value (λ s. record opts { crop = s })
                (λ s known.
                  bounded b.width b.height b.quality b.page b.watermark b.format known b.position))
              (if-Gives (key == bytes "wm") _ _
                (watermark-Gives value (record opts { watermark = value })
                  (λ le. bounded b.width b.height b.quality b.page le b.format b.crop b.position))
                (if-Gives (key == bytes "p") _ _
                  (with_number-Gives 9999 value (λ n. record opts { page = n })
                    (λ n le.
                      bounded b.width b.height b.quality le b.watermark b.format b.crop b.position))
                  (if-Gives (key == bytes "pos") _ _
                    (with_name-Gives positions value (λ s. record opts { position = s })
                      (λ s known.
                        bounded b.width b.height b.quality b.page b.watermark b.format b.crop
                          known))
                    none-Gives)))))))

read_part-Gives :
    (part : Bytes) (opts : TransformOptions) → IsBounded opts → Gives (read_part part opts)
unfolding read_part
read_part-Gives [] opts b opts' h = some-Gives opts b opts' h
read_part-Gives (c ∷ s) opts b opts' h =
    let after : Option (Bytes × Bytes) → Option TransformOptions =
      λ o. elim o [ none ↦ none | some (key, value) ↦ set_option key value opts ] in
    elim (Option-cases (split_once b'_' (c ∷ s))) [
      | inl e ↦ none-Gives opts' (sym (ap after e) ∙ h)
      | inr ((key, value), e) ↦ set_option-Gives key value opts b opts' (sym (ap after e) ∙ h)
    ]

read_parts-Gives :
    (parts : List Bytes) (opts : TransformOptions) → IsBounded opts → Gives (read_parts parts opts)
unfolding read_parts
read_parts-Gives [] opts b opts' h = some-Gives opts b opts' h
read_parts-Gives (part ∷ parts) opts b opts' h =
    let after : Option TransformOptions → Option TransformOptions =
      λ o. elim o [ none ↦ none | some x ↦ read_parts parts x ] in
    elim (Option-cases (read_part (trim_space part) opts)) [
      | inl e ↦ none-Gives opts' (sym (ap after e) ∙ h)
      | inr (x, e) ↦
          read_parts-Gives parts x (read_part-Gives (trim_space part) opts b x e) opts'
            (sym (ap after e) ∙ h)
    ]

no_transforms-IsBounded : IsBounded no_transforms
no_transforms-IsBounded =
    bounded (omega arith) (omega arith) (omega arith) (omega arith) (omega arith) refl refl refl

-- The product of two bounded sides does not wrap.
int_product_small : (w h : ℕ) → w ≤ 10000 → h ≤ 10000 → int_product w h ≡ ℤ.pos (w * h)
int_product_small w h p q =
    let small : w * h ≤ 10000 * 10000 = mul-le-mul p q in wrap64_small (w * h) (omega arith)

area_iff :
    (w h : ℕ) (thumb : Bool)
    → (if ltb 0 w && ltb 0 h && ltb_ℤ (ℤ.pos 25000000) (ℤ.pos (w * h))
        then false
        else if thumb && (nat_beq w 0 || nat_beq h 0)
        then false
        else true)
      ≡ (leb (w * h) 25000000 && (not thumb || (ltb 0 w && ltb 0 h)))
area_iff w h thumb = ground arith

validate_transforms_lem :
    (opts : TransformOptions)
    → IsBounded opts
    → validate_transforms opts ≡ (
        leb (opts.width * opts.height) 25000000
        && (not (opts.crop == bytes "thumb") || (ltb 0 opts.width && ltb 0 opts.height)))
unfolding validate_transforms
validate_transforms_lem opts b =
    let opened : ℤ → Bool = λ n.
      if ltb 0 opts.width && ltb 0 opts.height && ltb_ℤ (ℤ.pos 25000000) n
      then false
      else if opts.crop == bytes "thumb" && (nat_beq opts.width 0 || nat_beq opts.height 0)
      then false
      else true in
    ap opened (int_product_small opts.width opts.height b.width b.height)
    ∙ area_iff opts.width opts.height (opts.crop == bytes "thumb")

-- Whatever the text, the options that ParseTransforms gives are bounded: width and height are at
-- most 10000, quality at most 100, the page at most 9999 and the watermark at most 100 bytes, and
-- format, crop and position are unset or one of their names, in lower case. ValidateTransforms
-- accepts these options exactly if width times height, as numbers without bound, is at most
-- 25000000, and a crop to a thumbnail has both sides: the product that it computes as an int does
-- not wrap.
pub parse_transforms-IsBounded :
    (s : Bytes) (opts : TransformOptions)
    → parse_transforms s ≡ some opts
    → IsBounded opts
      × (validate_transforms opts ≡ (
          leb (opts.width * opts.height) 25000000
          && (not (opts.crop == bytes "thumb") || (ltb 0 opts.width && ltb 0 opts.height))))
unfolding parse_transforms
parse_transforms-IsBounded s opts h =
    let b =
      if-Gives (s == [] || s == bytes "_" || s == bytes "original") _ _
        (some-Gives no_transforms no_transforms-IsBounded)
        (read_parts-Gives (split b',' s) no_transforms no_transforms-IsBounded) opts h in
    (b, validate_transforms_lem opts b)
