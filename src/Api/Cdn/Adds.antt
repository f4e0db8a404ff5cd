-- ===== src/Api/Cdn/Adds.antt =====
-- The tasks that the handler of the CDN adds for a share (internal/api/cdn.go).
use file_cheap.Prelude.{
  ◌≡◌, refl, sym, ap, subst, ◌∙◌, ℕ, ◌+◌, ◌≤◌, Bool, true, false, Option, none, some, List, [], ◌∷◌,
  ◌++◌, if◌then◌else◌, arith,
}
use file_cheap.Prelude.Key.{◌==◌, nat_key, test_refl}
use file_cheap.Prelude.Bytes.{Bytes}
use file_cheap.Prelude.Action.{
  Reply, ok, refused, Step, go_on, ◌>>=◌, ◌>>◌, answer, or_refuse, require, modify, look, act,
  >>=-ok, >>=-eq-ok,
}
use file_cheap.Api.Transforms.{TransformOptions}
use file_cheap.Api.Cdn.{
  SharedFile, Share, CacheRow, Task, count_access, count_download, count_cached, Cdn, CdnEnv,
  TransformResult,
}
use file_cheap.Api.Cdn.Access.{open_share-same}
use file_cheap.Api.Cdn.Handler.{
  CdnError, Answer, CdnRequest, start, allowed_options, serve_original, serve_cached, cache_result,
  serve_result, serve_processed, serve_row, serve_transform, serve, open_share, cdn_handler,
}

-- The share whose downloads a task counts.
abbrev pub counts_for : ℕ → Task → ℕ
counts_for id (count_access j) = 0
counts_for id (count_download j) = if j == id then 1 else 0
counts_for id (count_cached file_id key j) = if j == id then 1 else 0

-- The downloads of a share that are still to be counted.
unfoldable pub pending : ℕ → List Task → ℕ
pending id [] = 0
pending id (task ∷ tasks) = counts_for id task + pending id tasks

pub pending-append :
    (id : ℕ) (tasks : List Task) (task : Task)
    → pending id (tasks ++ task ∷ []) ≡ pending id tasks + counts_for id task
unfolding pending
pending-append id [] task = omega arith
pending-append id (t ∷ tasks) task = omega (arith, pending-append id tasks task)

abbrev credit : {E A : Type 0} → Reply E A → ℕ → ℕ
credit (ok a) n = n
credit (refused e) n = 0

-- The step leaves the shares, and takes away no task for `id`; where it succeeds it adds `n` of them.
pub record Adds {S A : Type 0} (id n : ℕ) (m : Step (Cdn S) CdnError A) : Type 0 where
  pub shares : (s : Cdn S) → (m s).1.shares ≡ s.shares
  pub tasks : (s : Cdn S) → pending id s.tasks + credit (m s).0 n ≤ pending id (m s).1.tasks

module _ {S : Type 0} {id n : ℕ} where
  Adds-go_on :
      {A B : Type 0} (r : Reply CdnError A) (f : A → Step (Cdn S) CdnError B)
      → ((a : A) → Adds id n (f a))
      → Adds id n (go_on r f)
  Adds-go_on (ok a) f k = k a
  Adds-go_on (refused e) f k = record { shares = λ s. refl; tasks = λ s. omega arith }

  Adds-bind :
      {A B : Type 0} (m : Step (Cdn S) CdnError A) (f : A → Step (Cdn S) CdnError B)
      → Adds id 0 m
      → ((a : A) → Adds id n (f a))
      → Adds id n (m >>= f)
  unfolding ◌>>=◌
  Adds-bind m f k l = record {
    shares = λ s. let (r, s') = m s in (Adds-go_on r f l).shares s' ∙ k.shares s;
    tasks = λ s.
        let (r, s') = m s in
        let later = (Adds-go_on r f l).tasks s' in let earlier = k.tasks s in omega arith;
  }

module _ {S : Type 0} {id : ℕ} where
  Adds-answer : {A : Type 0} (a : A) → Adds {S = S} id 0 (answer a)
  unfolding answer
  Adds-answer a = record { shares = λ s. refl; tasks = λ s. omega arith }

  Adds-or_refuse : {A : Type 0} (o : Option A) (e : CdnError) → Adds {S = S} id 0 (or_refuse o e)
  unfolding or_refuse
  Adds-or_refuse none e = record { shares = λ s. refl; tasks = λ s. omega arith }
  Adds-or_refuse (some a) e = record { shares = λ s. refl; tasks = λ s. omega arith }

  Adds-require : (b : Bool) (e : CdnError) → Adds {S = S} id 0 (require b e)
  unfolding require
  Adds-require true e = record { shares = λ s. refl; tasks = λ s. omega arith }
  Adds-require false e = record { shares = λ s. refl; tasks = λ s. omega arith }

  Adds-look : {A : Type 0} (f : Cdn S → A) → Adds id 0 (look f)
  unfolding look
  Adds-look f = record { shares = λ s. refl; tasks = λ s. omega arith }

  -- A goroutine is started, and the rest of the step adds nothing for sure.
  Adds-start :
      {n : ℕ} {A : Type 0} (env : CdnEnv S) (task : Task) (m : Step (Cdn S) CdnError A)
      → n ≤ counts_for id task
      → Adds id 0 m
      → Adds id n (start env task >> m)
  unfolding start modify ◌>>=◌
  Adds-start env task m le k = record {
    shares = λ s. k.shares (record s { tasks = s.tasks ++ task ∷ [] });
    tasks = λ s.
        let s' : Cdn S = record s { tasks = s.tasks ++ task ∷ [] } in
        let later = k.tasks s' in ground (arith, pending-append id s.tasks task);
  }

  only_start-Adds : (env : CdnEnv S) (task : Task) → Adds id 0 (start env {E = CdnError} task)
  unfolding start modify
  only_start-Adds env task = record {
    shares = λ s. refl;
    tasks = λ s. ground (arith, pending-append id s.tasks task);
  }

  Adds-if :
      {n : ℕ} {A : Type 0} (b : Bool) (m m' : Step (Cdn S) CdnError A)
      → Adds id n m
      → Adds id n m'
      → Adds id n (if b then m else m')
  Adds-if true m m' k k' = k
  Adds-if false m m' k k' = k'

  ruleset adds_rules =
      (Adds-bind, Adds-answer, Adds-or_refuse, Adds-require, Adds-look, Adds-start, Adds-if)

  allowed_options-Adds :
      (env : CdnEnv S) (req : CdnRequest) (share : Share)
      → Adds id 0 (allowed_options env req share)
  unfolding allowed_options
  allowed_options-Adds env req share = search adds_rules depth 20

  serve_result-Adds :
      (env : CdnEnv S) (req : CdnRequest) (result : TransformResult) (etag : Bytes)
      → Adds id 0 (serve_result env req result etag)
  unfolding serve_result
  serve_result-Adds env req result etag = search adds_rules depth 20

  serve_original-Adds :
      (env : CdnEnv S) (req : CdnRequest) (key content_type : Bytes)
      → Adds id 0 (serve_original env req key content_type)
  unfolding serve_original
  serve_original-Adds env req key content_type = search adds_rules depth 20

  serve_cached-Adds :
      (env : CdnEnv S) (req : CdnRequest) (row : CacheRow) (etag : Bytes)
      → Adds id 0 (serve_cached env req row etag)
  unfolding serve_cached
  serve_cached-Adds env req row etag = search adds_rules depth 20

  cache_result-Adds :
      (env : CdnEnv S) (req : CdnRequest) (file_id : ℕ) (key : Bytes) (result : TransformResult)
      (b : Bool)
      → Adds id 0
          (act (λ cdn. if b then cache_result env req file_id key result cdn else (result, cdn)))
  unfolding act cache_result
  cache_result-Adds env req file_id key result b = record {
    shares = λ s. ground arith;
    tasks = λ s. ground arith;
  }

-- Past the checks of a share, a download that succeeds adds a task for the share.
module _ {S : Type 0} (env : CdnEnv S) (req : CdnRequest) (id : ℕ) (share : Share)
    (file : SharedFile) (opts : TransformOptions) where
  serve_processed-Adds :
      {j n : ℕ} (key : Bytes)
      → n ≤ counts_for j (count_download id)
      → Adds j n (serve_processed env req id share file opts key)
  unfolding serve_processed
  serve_processed-Adds key le = search (adds_rules, cache_result-Adds, serve_result-Adds) depth 30

  serve_row-Adds :
      {j n : ℕ} (key : Bytes) (cached : Option CacheRow)
      → n ≤ counts_for j (count_download id)
      → Adds j n (serve_row env req id share file opts key cached)
  unfolding serve_row
  serve_row-Adds key none le = serve_processed-Adds key le
  serve_row-Adds key (some row) le = Adds-start env _ _ le (serve_cached-Adds env req row _)

  serve_transform-Adds :
      {j n : ℕ}
      → n ≤ counts_for j (count_download id)
      → Adds j n (serve_transform env req id share file opts)
  unfolding serve_transform
  serve_transform-Adds le = Adds-bind _ _ (Adds-look _) (λ cached. serve_row-Adds _ cached le)

pub serve-Adds :
    {S : Type 0} (env : CdnEnv S) (req : CdnRequest) (id : ℕ) (share : Share) (file : SharedFile)
    {j n : ℕ}
    → n ≤ counts_for j (count_download id)
    → Adds j n (serve env req (id, share, file))
unfolding serve
serve-Adds env req id share file le = Adds-bind _ _ (only_start-Adds env (count_access id)) (λ _.
    Adds-bind _ _ (allowed_options-Adds env req share) (λ opts.
      Adds-if _ _ _ (serve_transform-Adds env req id share file opts le)
        (Adds-start env _ _ le (serve_original-Adds env req _ _))))

module _ {S : Type 0} (env : CdnEnv S) (req : CdnRequest) where
  open_share-Adds : {id : ℕ} → Adds id 0 (open_share env req)
  unfolding open_share
  open_share-Adds = search adds_rules depth 30

  pub cdn_handler-Adds : {id : ℕ} → Adds id 0 (cdn_handler env req)
  unfolding cdn_handler
  cdn_handler-Adds =
      Adds-bind _ _ open_share-Adds (λ (found : ℕ × Share × SharedFile).
        serve-Adds env req found.0 found.1 found.2 (omega arith))

  -- A download adds a task for its share.
  pub served-pending :
      (id : ℕ) (share : Share) (file : SharedFile) (s : Cdn S) {a : Answer}
      → (open_share env req s).0 ≡ ok (id, share, file)
      → (cdn_handler env req s).0 ≡ ok a
      → pending id s.tasks + 1 ≤ pending id (cdn_handler env req s).1.tasks
  unfolding cdn_handler
  served-pending id share file s e h =
      let whole = >>=-ok (open_share env req) (serve env req) s e in
      let same = whole ∙ ap (serve env req (id, share, file)) (open_share-same env req s) in
      let added =
        (serve-Adds env req id share file {j = id} {n = 1}
            (ground (arith, test_refl {K = ℕ} id))).tasks
          s in
      let added' : pending id s.tasks + credit (cdn_handler env req s).0 1
          ≤ pending id (cdn_handler env req s).1.tasks =
        subst
          (λ (r : Reply CdnError Answer × Cdn S).
            pending id s.tasks + credit r.0 1 ≤ pending id r.1.tasks)
          (sym same) added in
      rw h at added'

  pub found_share :
      (s : Cdn S) {a : Answer}
      → (cdn_handler env req s).0 ≡ ok a
      → (found : ℕ × Share × SharedFile) × ((open_share env req s).0 ≡ ok found)
  unfolding cdn_handler
  found_share s h =
      let (found, opened, _) = >>=-eq-ok (open_share env req) (serve env req) s h in (found, opened)
