-- ===== src/Worker/FileJob/UnknownType.antt =====
-- The types of variants that the database does not know (internal/worker/handlers.go,
-- internal/worker/handlers_v2.go, sql/schema.sql).
use file_cheap.Prelude.{◌≡◌, ◌≢◌, refl, ℕ, true, false, ◌||◌, not, Option, some, arith}
use file_cheap.Prelude.Bytes.{Bytes, bytes}
use file_cheap.Worker.FileJob.{Failure, not_recorded, World, Processed, Env, create_variant_query}
use file_cheap.Worker.FileJob.Action.{
  Stop, retryable, Reply, ok, refused, Action, ◌>>=◌, go_on, answer, refuse, or_stop,
}
use file_cheap.Worker.FileJob.Payloads.{ResizePayload, ConvertPayload}
use file_cheap.Worker.FileJob.Steps.{is_among, is_variant_type, create_variant}
use file_cheap.Worker.FileJob.Handlers.{unmarshal, resize_handler, convert_handler}
use file_cheap.Worker.FileJob.Builder.{build}
use file_cheap.Worker.FileJob.Configs.{resize_handler_v2, convert_handler_v2}

-- No run of `m` ends without an error.
record NeverDone {S A : Type 0} (m : Action S A) : Type 0 where
  at : (w : World S) (a : A) → (m w).0 ≢ ok a

module _ {S : Type 0} where
  NeverDone-bind :
      {A B : Type 0} (m : Action S A) (f : A → Action S B)
      → ((a : A) → NeverDone (f a))
      → NeverDone (m >>= f)
  unfolding ◌>>=◌
  NeverDone-bind {A} m f k = record { at = λ w. let (r, w') = m w in resumed r w' }
    where
      resumed : (r : Reply Stop A) (w : World S) (b : _) → (go_on r f w).0 ≢ ok b
      resumed (ok a) w b = (k a).at w b
      resumed (refused s) w b = λ h. cc

  NeverDone-head :
      {A B : Type 0} (m : Action S A) (f : A → Action S B) → NeverDone m → NeverDone (m >>= f)
  unfolding ◌>>=◌
  NeverDone-head {A} m f k = record { at = λ w b. let (r, w') = m w in stays r w' b (k.at w) }
    where
      stays :
          (r : Reply Stop A) (w : World S) (b : _) → ((a : A) → r ≢ ok a) → (go_on r f w).0 ≢ ok b
      stays (ok a) w b k h = k a refl
      stays (refused s) w b k h = cc

  NeverDone-refuse : {A : Type 0} (s : Stop) → NeverDone (refuse {W = World S} {E = Stop} {A = A} s)
  unfolding refuse
  NeverDone-refuse s = record { at = λ w a h. cc }

  NeverDone-create_variant :
      (env : Env S) (clean : Failure → Action S (Unit {0})) (file_id : ℕ) (variant_type key : Bytes)
      (result : Processed)
      → is_variant_type variant_type ≡ false
      → NeverDone (create_variant env clean file_id variant_type key result)
  unfolding create_variant or_stop
  NeverDone-create_variant env clean file_id variant_type key result h = record {
    at = λ w.
        let e : (env.fails create_variant_query || not (is_variant_type variant_type)) ≡ true =
          ground (arith, h) in
        rw e (
          (NeverDone-bind (clean not_recorded) (λ _. refuse (retryable not_recorded))
              (λ _. NeverDone-refuse (retryable not_recorded))).at
            w);
  }

  NeverDone-unmarshal :
      {P A : Type 0} (p : P) (f : P → Action S A)
      → NeverDone (f p)
      → NeverDone (unmarshal (some p) >>= f)
  unfolding ◌>>=◌ or_stop answer
  NeverDone-unmarshal p f k = record { at = λ w. k.at w }

ruleset never_rules =
    (NeverDone-unmarshal, NeverDone-bind, NeverDone-head, NeverDone-create_variant)

dynamic_unknown : is_variant_type (bytes "dynamic") ≡ false
unfolding is_variant_type is_among
dynamic_unknown = refl

converted_unknown : is_variant_type (bytes "converted") ≡ false
unfolding is_variant_type is_among
converted_unknown = refl

module _ {S : Type 0} (show_id : ℕ → Bytes) (env : Env S) where
  convert_fails :
      (payload : ConvertPayload)
      → is_variant_type payload.format ≡ false
      → NeverDone (convert_handler show_id env (some payload))
  unfolding convert_handler
  convert_fails payload h = search never_rules depth 40

  resize_fails :
      (payload : ResizePayload)
      → is_variant_type payload.variant_type ≡ false
      → NeverDone (resize_handler show_id env (some payload))
  unfolding resize_handler
  resize_fails payload h = search never_rules depth 40

  convert_v2_fails :
      (decoded : Option ConvertPayload) → NeverDone (convert_handler_v2 show_id env decoded)
  unfolding convert_handler_v2 build
  convert_v2_fails decoded = search (converted_unknown, never_rules) depth 40

  resize_v2_fails :
      (decoded : Option ResizePayload) → NeverDone (resize_handler_v2 show_id env decoded)
  unfolding resize_handler_v2 build
  resize_v2_fails decoded = search (dynamic_unknown, never_rules) depth 40

  -- A job that converts into a format, or resizes into a type, whose name is not in the database's
  -- list of types of variants never ends without an error, whatever the world, the queries that
  -- fail, the storage and the processors. Built by the one flow, a job that resizes or converts
  -- never does, whatever its payload: `dynamic` and `converted` are not in that list.
  pub unknown_type_fails :
      (conversion : ConvertPayload) (resizing : ResizePayload)
      → is_variant_type conversion.format ≡ false
      → is_variant_type resizing.variant_type ≡ false
      → (c : Option ConvertPayload) (r : Option ResizePayload) (w : World S)
      → ((convert_handler show_id env (some conversion) w).0 ≢ ok tt)
        × ((resize_handler show_id env (some resizing) w).0 ≢ ok tt)
        × ((convert_handler_v2 show_id env c w).0 ≢ ok tt)
        × ((resize_handler_v2 show_id env r w).0 ≢ ok tt)
  unknown_type_fails conversion resizing h₁ h₂ c r w = (
    (convert_fails conversion h₁).at w tt,
    (resize_fails resizing h₂).at w tt,
    (convert_v2_fails c).at w tt,
    (resize_v2_fails r).at w tt,
  )
