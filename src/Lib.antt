-- ===== src/Lib.antt =====
-- RouterBot, a proxy in front of providers of language models, written in Python: this library
-- models the parts that decide where a request goes, how often, and when it is refused.
--
-- The parts, and how they interact. A request passes the rate limiter of the middleware
-- (src/routerbot/proxy/middleware/rate_limit_mw.py, rate_limit.py), then the router
-- (src/routerbot/router/router.py): this walks the chain of the requested model and its fallbacks
-- (fallback.py), retries each model (retry.py), and for every attempt selects a deployment that is
-- not cooling (cooldown.py) by a strategy (strategies.py), makes its provider and reports the
-- outcome to the cooldown, as the health checks do (health.py). Who may do what is decided before, by
-- the address filter of the middleware (ip_filter.py) and by roles and permission sets
-- (src/routerbot/auth), and what may pass by the guardrails (src/routerbot/proxy/guardrails). Beside
-- the router stand the response cache and its manager (src/routerbot/cache), the circuit
-- breakers, the bulkheads, the queues of waiting requests, the levels of degradation and the regions
-- (src/routerbot/core/resilience), the budgets of providers (src/routerbot/router/budget.py), the queue
-- of asynchronous jobs with its workers, and batches (src/routerbot/core/batch), and the registry
-- of plugins (src/routerbot/core/plugins).
--
-- The files, with the source of each:
--   Errors                        core/exceptions.py: exceptions, their classes, outcomes of calls
--   Router/Cooldown               router/cooldown.py: CooldownManager
--   Router/Deployment             router/router.py: Deployment, record_latency
--   Router/Strategies             router/strategies.py: the select methods, get_strategy
--   Router/Retry                  router/retry.py: RetryPolicy, with_retry
--   Router/Fallback               router/fallback.py: execute_with_fallbacks
--   Router/Dispatch               router/router.py: Router, from get_deployments to chat_completion
--   Router/Dispatch/Stream        router/router.py: chat_completion_stream, _stream_completion
--   Router/Dispatch/Endpoints     router/router.py: the other endpoints, list_models, aclose
--   Router/Registry               router/router.py: build_router, Router.__init__, _build_registry;
--                                 core/config_models.py
--   Router/Health                 router/health.py: HealthChecker
--   Router/Budget                 router/budget.py: ProviderBudgetManager
--   Resilience/Breaker            core/resilience/circuit_breaker.py: CircuitBreaker
--   Resilience/Registry           core/resilience/circuit_breaker.py: CircuitBreakerRegistry
--   Resilience/Region             core/resilience/region.py: RegionRouter
--   Resilience/Bulkhead           core/resilience/bulkhead.py: Bulkhead; below it its manager
--   Resilience/RequestQueue       core/resilience/request_queue.py: RequestQueue; below it its
--                                 manager
--   Resilience/Degradation        core/resilience/degradation.py: DegradationManager
--   Cache/Memory                  cache/memory.py: InMemoryCacheBackend; cache/base.py: CacheEntry
--   Cache/Backend                 cache/base.py: CacheBackend as an interface with laws, the key
--   Cache/Manager                 cache/manager.py: ResponseCacheManager, over any lawful backend
--   Proxy/RateScope               proxy/middleware/rate_limit.py: windows, one scope
--   Proxy/RateLimit               proxy/middleware/rate_limit.py: InMemoryRateLimiter
--   Proxy/RateLimit/Admission     proxy/middleware/rate_limit_mw.py: RateLimitMiddleware
--   Proxy/Guardrails              proxy/guardrails/manager.py, base.py: GuardrailManager
--   Proxy/IpFilter                proxy/middleware/ip_filter.py: IPFilterMiddleware
--   Batch/JobQueue                core/batch/job_queue.py, models.py: JobQueue
--   Batch/WorkerPool              core/batch/worker_pool.py: the rounds of WorkerPool._worker_loop
--   Batch/BatchManager            core/batch/batch_manager.py, models.py: BatchManager
--   Auth/Rbac                     auth/rbac.py: Role, AuthContext, the require functions
--   Auth/Permissions              auth/advanced/permissions.py: PermissionManager
--   Plugins/Registry              core/plugins/registry.py, models.py: PluginRegistry
-- The paths are those under src/routerbot. A method is a function of its object that returns the
-- answer and the object afterwards, named as in the source without a leading underscore. The
-- modules below a component's module prove its theorems; its module Examples applies them. Base has
-- the shared helpers: Boolean tests, lists, dictionaries in insertion order, integers.
--
-- How the program is rendered. A reading of a clock is an argument, a natural number of some unit;
-- where one method reads the clock more than once, the readings are one. Methods that hold their
-- lock, or await nothing, are single steps, and a run is a list of them in any order; a bulkhead,
-- whose requests wait in between, is a step relation. In the router, which shares its state between
-- requests, an awaited call of a provider or of asyncio.sleep is a function of the whole world that
-- may change all of it; providers are parameters, and what a theorem needs of them is among its
-- hypotheses. Floats are used where they are exact: the average of latencies is kept in powers of
-- five, delays and costs are whole numbers of one unit. Draws of random numbers, and new
-- identifiers, are arguments. What is computed outside, a digest, the parsing of addresses or of
-- JSON, the distance of two places, is a parameter. Loops are recursions on lists or on the number of
-- attempts left. Two have fuel: the resolution of permission sets, one step more than there are sets,
-- which resolve_total shows to be enough, and a worker's rounds, for which work-drains says how many
-- empty a queue.
--
-- Not modelled: HTTP and its handlers, the providers themselves, logging, text of messages and
-- headers, statistics, the Redis cache and the database, configuration files, keys, tokens and
-- sessions, the checks of the guardrails themselves, the loading of plugins, autoscaling,
-- observability and the user interface, because they call other services or libraries, or only read
-- and write text; the endless loop of health checks; a cancellation while a retry sleeps; of the
-- workers, starting and stopping, several at once, and callbacks.
mod Base
pub mod Errors
pub mod Router
pub mod Resilience
pub mod Cache
pub mod Proxy
pub mod Batch
pub mod Auth
pub mod Plugins
