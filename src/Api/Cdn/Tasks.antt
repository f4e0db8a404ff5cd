-- ===== src/Api/Cdn/Tasks.antt =====
-- The goroutines of internal/api/cdn.go and the requests between them, in any order. A request is one
-- step, at the time at which it looks at the limit of downloads; its tasks wait from then on.
use file_cheap.Prelude.{ℕ, zero, suc, Bool, Option, none, some, List, [], ◌∷◌, if◌then◌else◌}
use file_cheap.Prelude.Key.{nat_key}
use file_cheap.Api.Cdn.{
  Task, count_access, count_download, count_cached, Cdn, CdnEnv, increment_share_access_count,
  increment_share_download_count, increment_transform_cache_count,
}
use file_cheap.Api.Cdn.Handler.{CdnRequest, cdn_handler}

-- A goroutine: whether the update of the cache and that of the share fail, whose errors are passed over.
unfoldable pub run_task : {S : Type 0} → Task → Bool → Bool → Cdn S → Cdn S
run_task (count_access id) cache_fails share_fails cdn =
    if share_fails then cdn else record cdn { shares = increment_share_access_count id cdn.shares }
run_task (count_download id) cache_fails share_fails cdn =
    if share_fails
    then cdn
    else record cdn { shares = increment_share_download_count id cdn.shares }
run_task (count_cached file_id key id) cache_fails share_fails cdn =
    let cache =
      if cache_fails then cdn.cache else increment_transform_cache_count file_id key cdn.cache in
    let shares = if share_fails then cdn.shares else increment_share_download_count id cdn.shares in
    record cdn { cache = cache; shares = shares }

-- The task at a place of the list, and the others.
unfoldable pub pick : ℕ → List Task → Option (Task × List Task)
pick i [] = none
pick zero (task ∷ tasks) = some (task, tasks)
pick (suc i) (task ∷ tasks) = elim (pick i tasks) [
  | none ↦ none
  | some (other, rest) ↦ some (other, task ∷ rest)
]

-- A request, or the run of one of the goroutines that wait.
pub data CdnEvent : Type 0 where
  request : CdnRequest → CdnEvent
  finish : ℕ → Bool → Bool → CdnEvent

unfoldable pub finish_task : {S : Type 0} → ℕ → Bool → Bool → Cdn S → Cdn S
finish_task i cache_fails share_fails cdn = elim (pick i cdn.tasks) [
  | none ↦ cdn
  | some (task, rest) ↦ run_task task cache_fails share_fails (record cdn { tasks = rest })
]

unfoldable pub step : {S : Type 0} → CdnEnv S → CdnEvent → Cdn S → Cdn S
step env (request req) cdn = (cdn_handler env req cdn).1
step env (finish i cache_fails share_fails) cdn = finish_task i cache_fails share_fails cdn

unfoldable pub run : {S : Type 0} → CdnEnv S → List CdnEvent → Cdn S → Cdn S
run env [] cdn = cdn
run env (e ∷ es) cdn = run env es (step env e cdn)
