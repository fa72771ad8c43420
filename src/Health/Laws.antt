-- ===== src/Health/Laws.antt =====
-- What the probes answer when an indicator fails.
use openapi_nestjs_auth_mong.Prelude.{
  ◌≡◌, true, false, Option, none, some, String, List, [], ◌∷◌, arith,
}
use openapi_nestjs_auth_mong.Http.{Exception}
use openapi_nestjs_auth_mong.Handler.{Outcome, returns, throws}
use openapi_nestjs_auth_mong.Aws.{Client}
use openapi_nestjs_auth_mong.Health.{
  Status, Indicated, result, health_check_error, fails, promise, Terminus, is_healthy, check_aws,
  check_database, check_memory_heap, check_memory_rss, check_storage,
}

-- What terminus documents of `check` with one indicator: it gives a promise, which is kept with a
-- report of what is up, refused with the status 503 for a HealthCheckError, and with the error itself
-- for another.
pub record Reports {R : Type 0} (terminus : Terminus R) (ok : Status → R)
    (unavailable : Status → Exception) : Type 0 where
  pub when_up : (s : Status) → terminus.check (result s ∷ []) ≡ promise (returns (ok s))
  pub when_down :
      (message : String) (s : Status)
      → terminus.check (health_check_error message s ∷ []) ≡ promise (throws (unavailable s))
  pub when_failing : (e : Exception) → terminus.check (fails e ∷ []) ≡ promise (throws e)

-- how an answered indicator is reported
abbrev pub report : {R : Type 0} → (Status → R) → (Status → Exception) → Indicated → Outcome R
report ok unavailable (result s) = returns (ok s)
report ok unavailable (health_check_error message s) = throws (unavailable s)
report ok unavailable (fails e) = throws e

-- how the bucket is reported, by what S3 answers to the list of buckets
abbrev pub bucket_report :
    {R : Type 0} → (Status → R) → (Status → Exception) → Option (List String) → Outcome R
bucket_report ok unavailable none = throws (unavailable (record { key = "awsBucket"; up = false }))
bucket_report ok unavailable (some buckets) = returns (ok (record { key = "awsBucket"; up = true }))

module _ {R : Type 0} (terminus : Terminus R) (ok : Status → R) (unavailable : Status → Exception)
    (reports : Reports terminus ok unavailable) where
  reported : (i : Indicated) → terminus.check (i ∷ []) ≡ promise (report ok unavailable i)
  reported (result s) = reports.when_up s
  reported (health_check_error message s) = reports.when_down message s
  reported (fails e) = reports.when_failing e

  answers :
      {S C : Type 0} (client : Client S C) (s : S)
      → report ok unavailable (is_healthy client "awsBucket" s)
        ≡ bucket_report ok unavailable (client.list_buckets s)
  unfolding is_healthy
  answers client s = ground arith

  -- Where terminus reports as documented: the probe of the S3 bucket answers that it is up exactly
  -- while S3 lists its buckets, and otherwise that it is unavailable. Every other probe answers what
  -- its indicator reports. An indicator that fails never becomes the unknown error of the handlers.
  pub probes :
      {S C : Type 0} (client : Client S C) (s : S)
      → (check_aws client terminus s ≡ bucket_report ok unavailable (client.list_buckets s))
        × (check_database terminus ≡ report ok unavailable (terminus.ping_check "database"))
        × (check_memory_heap terminus
            ≡ report ok unavailable (terminus.check_heap "memoryHeap" 314572800))
        × (check_memory_rss terminus
            ≡ report ok unavailable (terminus.check_rss "memoryRss" 314572800))
        × (check_storage terminus
            ≡ report ok unavailable (terminus.check_storage "diskHealth" 75 "/"))
  unfolding check_aws check_database check_memory_heap check_memory_rss check_storage
  probes client s = (
    ground (arith, answers client s, reported (is_healthy client "awsBucket" s)),
    ground (arith, reported (terminus.ping_check "database")),
    ground (arith, reported (terminus.check_heap "memoryHeap" 314572800)),
    ground (arith, reported (terminus.check_rss "memoryRss" 314572800)),
    ground (arith, reported (terminus.check_storage "diskHealth" 75 "/")),
  )
