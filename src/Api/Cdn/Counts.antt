-- ===== src/Api/Cdn/Counts.antt =====
-- What a goroutine does to the count of downloads of a share (internal/api/cdn.go).
use file_cheap.Prelude.{
  ◌≡◌, ◌≢◌, refl, sym, ap, ◌∙◌, ℕ, zero, suc, ◌+◌, ◌≤◌, ◌<◌, Bool, true, false, Option, none, some,
  List, [], ◌∷◌, arith, if◌then◌else◌, Bool-cases, Option-cases, inl, inr,
}
use file_cheap.Prelude.Key.{◌==◌, nat_key}
use file_cheap.Prelude.Map.{Map, lookup, insert, lookup-insert}
use file_cheap.Prelude.Map.Retain.{HasUniqueKeys, insert-HasUniqueKeys}
use file_cheap.Api.Cdn.{
  Share, Task, count_access, count_download, count_cached, Cdn, max_integer, increment,
  increment_share_access_count, increment_share_download_count,
}
use file_cheap.Api.Cdn.Tasks.{run_task, pick}
use file_cheap.Api.Cdn.Adds.{counts_for, pending}

pub pending-pick :
    (id i : ℕ) (tasks : List Task) (task : Task) (rest : List Task)
    → pick i tasks ≡ some (task, rest)
    → pending id tasks ≡ counts_for id task + pending id rest
unfolding pick pending
pending-pick id i [] task rest h = cc
pending-pick id zero (t ∷ tasks) task rest h = ground (arith, h)
pending-pick id (suc i) (t ∷ tasks) task rest h = elim (Option-cases (pick i tasks)) [
  | inl e ↦ absurd (ground (arith, h, e))
  | inr ((other, more), e) ↦ ground (arith, h, e, pending-pick id i tasks other more e)
]

-- What an update of a share does to the row of `id`: the limit stays and the count does not fall; below
-- the limit, it counts the download of a task.
pub record Counts (id m n : ℕ) (shares shares' : Map ℕ Share) (share : Share) : Type 0 where
  pub unique : HasUniqueKeys shares'
  pub share' : Share
  pub row : lookup id shares' ≡ some share'
  pub limited : share'.max_downloads ≡ share.max_downloads
  pub grows : share.download_count ≤ share'.download_count
  pub counted : share'.download_count < m → share.download_count + n ≤ share'.download_count

module _ (id m : ℕ) (shares : Map ℕ Share) (share : Share) (u : HasUniqueKeys shares)
    (row : lookup id shares ≡ some share) (small : m ≤ max_integer) where
  stays-Counts : Counts id m 0 shares shares share
  stays-Counts = record {
    unique = u;
    share' = share;
    row = row;
    limited = refl;
    grows = omega arith;
    counted = λ l. omega arith;
  }

  insert-Counts :
      (j n : ℕ) (new : Share)
      → (j ≡ id
          → (new.max_downloads ≡ share.max_downloads)
            × (share.download_count ≤ new.download_count)
            × (new.download_count < m → share.download_count + n ≤ new.download_count))
      → (j ≢ id → n ≡ 0)
      → Counts id m n shares (insert j new shares) share
  insert-Counts j n new same other = elim (Bool-cases (j == id)) [
    | inl e ↦
        let (limited, grows, counted) = same ((nat_key.test_iff j id).0 e) in
        record {
          unique = insert-HasUniqueKeys j new shares u;
          share' = new;
          row = lookup-insert j id new shares ∙ rw e refl;
          limited = limited;
          grows = grows;
          counted = counted;
        }
    | inr e ↦
        let none_counted : n ≡ 0 = other (λ q. ground (arith, e, nat_key.test_iff j id, q)) in
        record {
          unique = insert-HasUniqueKeys j new shares u;
          share' = share;
          row = lookup-insert j id new shares ∙ rw e row;
          limited = refl;
          grows = omega arith;
          counted = λ l. omega arith;
        }
  ]

  at_id : (j : ℕ) (o : Option Share) → lookup j shares ≡ o → j ≡ id → o ≡ some share
  at_id j o e q = sym e ∙ ap (λ i. lookup i shares) q ∙ row

  access-Counts : (j : ℕ) → Counts id m 0 shares (increment_share_access_count j shares) share
  unfolding increment_share_access_count
  access-Counts j = elim (Option-cases (lookup j shares)) [
    | inl e ↦ rw (e, increment_share_access_count) stays-Counts
    | inr (old, e) ↦
        rw (e, increment_share_access_count)
          (insert-Counts j 0 (record old { access_count = increment old.access_count })
            (λ q. let same = at_id j (some old) e q in ground (arith, same)) (λ _. refl))
  ]

  download-Counts :
      (j : ℕ)
      → Counts id m
          (counts_for id (count_download j))
          shares
          (increment_share_download_count j shares)
          share
  unfolding increment_share_download_count increment
  download-Counts j = elim (Option-cases (lookup j shares)) [
    | inl e ↦ elim (Bool-cases (j == id)) [
      | inl q ↦ absurd (ground (arith, at_id j none e ((nat_key.test_iff j id).0 q)))
      | inr q ↦ rw (e, increment_share_download_count, q) stays-Counts
    ]
    | inr (old, e) ↦
        rw (e, increment_share_download_count)
          (insert-Counts j _ (record old { download_count = increment old.download_count })
            (λ q. let same = at_id j (some old) e q in ground (arith, same, small))
            (λ q. ground (arith, q)))
  ]

pub run_task-Counts :
    {S : Type 0} (id m : ℕ) (task : Task) (c d : Bool) (s : Cdn S) (share : Share)
    → HasUniqueKeys s.shares
    → lookup id s.shares ≡ some share
    → m ≤ max_integer
    → Counts id m (if d then 0 else counts_for id task) s.shares (run_task task c d s).shares share
unfolding run_task
run_task-Counts id m (count_access j) c true s share u row small =
    stays-Counts id m s.shares share u row small
run_task-Counts id m (count_access j) c false s share u row small =
    access-Counts id m s.shares share u row small j
run_task-Counts id m (count_download j) c true s share u row small =
    stays-Counts id m s.shares share u row small
run_task-Counts id m (count_download j) c false s share u row small =
    download-Counts id m s.shares share u row small j
run_task-Counts id m (count_cached file_id key j) c true s share u row small =
    stays-Counts id m s.shares share u row small
run_task-Counts id m (count_cached file_id key j) c false s share u row small =
    download-Counts id m s.shares share u row small j

pub run_task-tasks :
    {S : Type 0} (task : Task) (c d : Bool) (s : Cdn S) → (run_task task c d s).tasks ≡ s.tasks
unfolding run_task
run_task-tasks task c d s = ground arith
