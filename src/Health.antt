-- ===== src/Health.antt =====
-- health: the probes of health.common.controller.ts and the indicator of health.aws.indicator.ts.
-- The services of `@nestjs/terminus` are parameters.
pub mod Laws
use openapi_nestjs_auth_mong.Prelude.{ℕ, ◌*◌, String, Bool, true, false, List, [], ◌∷◌}
use openapi_nestjs_auth_mong.Http.{Exception}
use openapi_nestjs_auth_mong.Handler.{Outcome, returns, throws, unknown}
use openapi_nestjs_auth_mong.Aws.{Client, list_bucket}

-- HealthIndicatorResult: the status of a key
pub record Status : Type 0 where
  pub key : String
  pub up : Bool

-- What an indicator answers: a result, a HealthCheckError with its causes, or another error.
pub data Indicated : Type 0 where
  result : Status → Indicated
  health_check_error : String → Status → Indicated
  fails : Exception → Indicated

-- The call of an asynchronous function: it throws at once, or it gives a promise that is settled by
-- an outcome.
pub data Call (A : Type 0) : Type 0 where
  raised : Exception → Call A
  promise : Outcome A → Call A

-- HealthCheckService and the indicators; R is what `check` answers.
pub record Terminus (R : Type 0) : Type 0 where
  pub check : List Indicated → Call R
  pub ping_check : String → Indicated
  pub check_heap : String → ℕ → Indicated
  pub check_rss : String → ℕ → Indicated
  -- the threshold in hundredths, and the path
  pub check_storage : String → ℕ → String → Indicated

-- `try { return call; } catch (e) { throw error; }` with no `await`: only what the call throws at once
-- is caught.
abbrev pub return_in_try : {A : Type 0} → Call A → Exception → Outcome A
return_in_try (raised _) error = throws error
return_in_try (promise outcome) error = outcome

module _ {S C : Type 0} (client : Client S C) where
  abbrev pub status : String → Bool → Status
  status key up = record { key = key; up = up }

  abbrev indicated : String → Outcome (List String) → Indicated
  indicated key (returns buckets) = result (status key true)
  indicated key (throws error) = health_check_error "AwsHealthIndicator failed" (status key false)

  -- AwsHealthIndicator.isHealthy
  unfoldable pub is_healthy : String → S → Indicated
  unfolding list_bucket
  is_healthy key s = indicated key (list_bucket client s)

module _ {R S C : Type 0} (client : Client S C) (terminus : Terminus R) where
  unfoldable pub check_aws : S → Outcome R
  unfolding is_healthy
  check_aws s = return_in_try (terminus.check (is_healthy client "awsBucket" s ∷ [])) unknown

module _ {R : Type 0} (terminus : Terminus R) where
  unfoldable pub check_database : Outcome R
  check_database = return_in_try (terminus.check (terminus.ping_check "database" ∷ [])) unknown

  unfoldable pub check_memory_heap : Outcome R
  check_memory_heap =
      return_in_try (terminus.check (terminus.check_heap "memoryHeap" (300 * 1024 * 1024) ∷ []))
        unknown

  unfoldable pub check_memory_rss : Outcome R
  check_memory_rss =
      return_in_try (terminus.check (terminus.check_rss "memoryRss" (300 * 1024 * 1024) ∷ []))
        unknown

  unfoldable pub check_storage : Outcome R
  check_storage =
      return_in_try (terminus.check (terminus.check_storage "diskHealth" 75 "/" ∷ [])) unknown
