-- ===== src/Api/Cdn/Downloads.antt =====
-- The limit of downloads of a share, when requests and goroutines come in any order
-- (internal/api/cdn.go).
use file_cheap.Prelude.{
  ◌≡◌, sym, ap, subst, ◌∙◌, ℕ, ◌+◌, ◌≤◌, ◌<◌, Bool, false, none, some, List, [], ◌∷◌, arith,
  if◌then◌else◌, Bool-cases, Option-cases, inl, inr, ◌⊎◌,
}
use file_cheap.Prelude.Int.{ℤ}
use file_cheap.Prelude.Key.{◌==◌, nat_key}
use file_cheap.Prelude.Map.{lookup}
use file_cheap.Prelude.Map.Retain.{HasUniqueKeys}
use file_cheap.Prelude.Action.{ok, refused, Reply-cases}
use file_cheap.Api.Cdn.{Share, Cdn, CdnEnv, limit_query, max_integer, get_file_share_by_token}
use file_cheap.Api.Cdn.Handler.{CdnRequest, cdn_handler}
use file_cheap.Api.Cdn.Tasks.{pick, CdnEvent, request, finish, finish_task, step}
use file_cheap.Api.Cdn.Adds.{pending, cdn_handler-Adds, served-pending, found_share}
use file_cheap.Api.Cdn.Access.{get_file_share_by_token-IsFound, open_share_found}
use file_cheap.Api.Cdn.Shown.{limit_below}
use file_cheap.Api.Cdn.Counts.{pending-pick, run_task-Counts, run_task-tasks}

module _ {S : Type 0} (env : CdnEnv S) where
  -- Whether the request is answered by a download of the share.
  abbrev pub downloads_now : ℕ → CdnRequest → Cdn S → ℕ
  downloads_now id req s = elim (cdn_handler env req s).0 [
    | refused e ↦ 0
    | ok a ↦ elim (get_file_share_by_token req.now req.token s.files s.shares) [
      | none ↦ 0
      | some (j, share, file) ↦ if j == id then 1 else 0
    ]
  ]

  -- The downloads of a share in a run.
  unfoldable pub downloads : ℕ → List CdnEvent → Cdn S → ℕ
  downloads id [] s = 0
  downloads id (request req ∷ es) s =
      downloads_now id req s + downloads id es (step env (request req) s)
  downloads id (finish i c d ∷ es) s = downloads id es (step env (finish i c d) s)

  -- Whenever a request comes, at most `k` downloads of the share wait to be counted.
  unfoldable pub MostWaiting : ℕ → ℕ → List CdnEvent → Cdn S → Type 0
  MostWaiting k id [] s = Unit
  MostWaiting k id (request req ∷ es) s =
      (pending id s.tasks ≤ k) × MostWaiting k id es (step env (request req) s)
  MostWaiting k id (finish i c d ∷ es) s = MostWaiting k id es (step env (finish i c d) s)

-- The queries of a run that fail: those for the limit, and the updates of a count.
unfoldable pub faults : List CdnEvent → ℕ
faults [] = 0
faults (request req ∷ es) = (if req.fails limit_query then 1 else 0) + faults es
faults (finish i c d ∷ es) = (if d then 1 else 0) + faults es

-- After `d` downloads and `f` faults: a count below the limit `m` has all downloads that are not lost
-- or waiting, and the downloads are few.
record Within {S : Type 0} (id m k d f : ℕ) (s : Cdn S) : Type 0 where
  unique : HasUniqueKeys s.shares
  share : Share
  row : lookup id s.shares ≡ some share
  limited : share.max_downloads ≡ some (ℤ.pos m)
  counted : share.download_count < m → d ≤ share.download_count + pending id s.tasks + f
  bound : d ≤ m + k + f

-- A request either is no download of the share, or it adds one that waits; then the count was below
-- the limit, unless the query for the limit failed.
record Waits {S : Type 0} (env : CdnEnv S) (id m : ℕ) (req : CdnRequest) (s : Cdn S) (share : Share)
    : Type 0 where
  one : downloads_now env id req s ≡ 1
  waiting : pending id s.tasks + 1 ≤ pending id (cdn_handler env req s).1.tasks
  below : req.fails limit_query ≡ false → share.download_count < m

downloads_now-Waits :
    {S : Type 0} (env : CdnEnv S) (id m : ℕ) (req : CdnRequest) (s : Cdn S) (share : Share)
    → HasUniqueKeys s.shares
    → lookup id s.shares ≡ some share
    → share.max_downloads ≡ some (ℤ.pos m)
    → (downloads_now env id req s ≡ 0) ⊎ Waits env id m req s share
downloads_now-Waits env id m req s share u row limited =
    elim (Reply-cases (cdn_handler env req s).0) [
      | inl (e, h) ↦ inl (ground (arith, h))
      | inr (a, h) ↦
          let ((j, other, file), opened) = found_share env req s h in
          let (token, _, unreached) = open_share_found env req s j other file opened in
          let found = get_file_share_by_token-IsFound _ _ _ _ j other file u token in
          elim (Bool-cases (j == id)) [
            | inl e ↦
                let q = (nat_key.test_iff j id).0 e in
                let same : some other ≡ some share =
                  sym found.row ∙ ap (λ i. lookup i s.shares) q ∙ row in
                inr (record {
                  one = ground (arith, h, token, e);
                  waiting =
                      subst (λ i. pending i s.tasks + 1 ≤ pending i (cdn_handler env req s).1.tasks)
                        q (served-pending env req j other file s opened h);
                  below = λ f.
                      let limit : other.max_downloads ≡ some (ℤ.pos m) =
                        ground (arith, same, limited) in
                      let under =
                        limit_below env req s j other (ℤ.pos m) found.row limit
                          (unreached (ℤ.pos m) limit f) in
                      ground (arith, same, under);
                })
            | inr e ↦ inl (ground (arith, h, token, e))
          ]
    ]

module _ {S : Type 0} (env : CdnEnv S) (id m k : ℕ) (small : m ≤ max_integer) where
  request-Within :
      (req : CdnRequest) (d f : ℕ) (s : Cdn S)
      → Within id m k d f s
      → pending id s.tasks ≤ k
      → Within id m k
          (d + downloads_now env id req s)
          (f + (if req.fails limit_query then 1 else 0))
          (step env (request req) s)
  unfolding step
  request-Within req d f s w few = record {
    unique = subst HasUniqueKeys (sym same) w.unique;
    share = w.share;
    row = ap (lookup id) same ∙ w.row;
    limited = w.limited;
    counted = λ below. elim waits [
      | inl e ↦ ground (arith, e, w.counted below, kept)
      | inr u ↦ ground (arith, u.one, u.waiting, w.counted below)
    ];
    bound = elim waits [
      | inl e ↦ ground (arith, e, w.bound)
      | inr u ↦ elim (Bool-cases (req.fails limit_query)) [
        | inl e ↦ ground (arith, e, u.one, w.bound)
        | inr e ↦ ground (arith, e, u.one, u.below e, w.counted (u.below e), few)
      ]
    ];
  }
    where
      same : (cdn_handler env req s).1.shares ≡ s.shares
      same = (cdn_handler-Adds env req {id = id}).shares s

      kept : pending id s.tasks ≤ pending id (cdn_handler env req s).1.tasks
      kept = omega (arith, (cdn_handler-Adds env req {id = id}).tasks s)

      waits : (downloads_now env id req s ≡ 0) ⊎ Waits env id m req s w.share
      waits = downloads_now-Waits env id m req s w.share w.unique w.row w.limited

  finish-Within :
      (i : ℕ) (c lost : Bool) (d f : ℕ) (s : Cdn S)
      → Within id m k d f s
      → Within id m k d (f + (if lost then 1 else 0)) (step env (finish i c lost) s)
  unfolding step finish_task
  finish-Within i c lost d f s w = elim (Option-cases (pick i s.tasks)) [
    | inl e ↦
        rw (e, finish_task)
          (record {
            unique = w.unique;
            share = w.share;
            row = w.row;
            limited = w.limited;
            counted = λ below. omega (arith, w.counted below);
            bound = omega arith;
          })
    | inr ((task, rest), e) ↦
        let s' : Cdn S = record s { tasks = rest } in
        let count = run_task-Counts id m task c lost s' w.share w.unique w.row small in
        rw (e, finish_task)
          (record {
            unique = count.unique;
            share = count.share';
            row = count.row;
            limited = count.limited ∙ w.limited;
            counted = λ below. ground (
              arith,
              count.counted below,
              count.grows,
              w.counted,
              run_task-tasks task c lost s',
              pending-pick id i s.tasks task rest e,
            );
            bound = omega arith;
          })
  ]

  Within-downloads :
      (es : List CdnEvent) (d f : ℕ) (s : Cdn S)
      → Within id m k d f s
      → MostWaiting env k id es s
      → d + downloads env id es s ≤ m + k + f + faults es
  unfolding downloads MostWaiting faults
  Within-downloads [] d f s w few = omega (arith, w.bound)
  Within-downloads (request req ∷ es) d f s w (now, later) =
      let ih = Within-downloads es _ _ _ (request-Within req d f s w now) later in omega arith
  Within-downloads (finish i c lost ∷ es) d f s w few =
      let ih = Within-downloads es _ _ _ (finish-Within i c lost d f s w) few in omega arith

-- A share is downloaded at most as often as its limit allows, and at most once more for each download that
-- waits to be counted when a request comes, and for each query that fails: from any state in which
-- the count of the share is at most its limit `m` (a number of the column), for any order of
-- requests and goroutines with at most `k` downloads that wait, the count and the downloads
-- after it are at most m + k + the number of these faults. So the limit holds if each request comes
-- after the goroutines of the earlier ones, and nothing fails.
pub downloads_bounded :
    {S : Type 0} (env : CdnEnv S) (id m k : ℕ) (share : Share) (es : List CdnEvent) (s : Cdn S)
    → m ≤ max_integer
    → HasUniqueKeys s.shares
    → lookup id s.shares ≡ some share
    → share.max_downloads ≡ some (ℤ.pos m)
    → share.download_count ≤ m
    → MostWaiting env k id es s
    → share.download_count + downloads env id es s ≤ m + k + faults es
downloads_bounded env id m k share es s small u row limited le few =
    let start : Within id m k share.download_count 0 s = record {
      unique = u;
      share = share;
      row = row;
      limited = limited;
      counted = λ below. omega arith;
      bound = omega arith;
    } in
    omega (arith, Within-downloads env id m k small es share.download_count 0 s start few)
