-- ===== src/Lib.antt =====
-- The CELINE nudging tool: the service that turns events into notifications.
--
-- An event comes in through api/routes/admin/ingest.py or through a row of `scheduled_events`, which
-- the scheduler takes when it is due. The engine checks the facts of the event, infers its time
-- scope, finds the rules of its scenario, evaluates each, and logs the outcome; a rule that triggers
-- makes a nudge and a pending notification, once for each dedup key. The orchestrator turns a nudge
-- into delivery jobs, unless its user has switched its kind off or was told enough today, and hands
-- them to the publishers of web push and e-mail, which log each delivery. The user reads, clicks and
-- deletes notifications, edits preferences and subscribes browsers through the routes under
-- api/routes. All of the code is under src/celine/nudging.
--
-- Which file models which part:
--   Prelude        names of the libraries, Boolean tests, lists of rows
--   Text           the methods of `str` and the patterns of `re` that the code uses
--   Json           `dict`, `list` and `Any` values; Json/Merge is `_deep_merge`
--   Db             db/models.py: one record for each table, and the rows of all tables
--   Session        the session of SQLAlchemy and exceptions: an action takes a session, that is what is
--                  committed and what the transaction holds, and gives a result or an exception and
--                  a session; Session/Hoare has the rules by which actions are proved correct
--   Env            what comes from outside: settings, clock, uuid4, Unicode's case table, and the
--                  packages and the `LIKE` that are called, all parameters
--   Tracking       notifications_tracking.py: the signed tokens of clicks
--   Engine         engine/engine_service.py, function by function: TimeScope (`_infer_time_scope`,
--                  `_normalize_time_fields`), Facts, Resolve, Keys (`compute_dedup_key`, `_dedup_scope`),
--                  Log (`_log_status`), Load (`_load_rule_and_template`, `_apply_rule_override`),
--                  Evaluate (engine/rules/evaluators/registry.py), Run (`_run_single_rule`), Batch
--                  (`run_engine_batch`)
--   Delivery       orchestrator/models.py and publishers/base.py
--   Publishers     publishers/web/worker.py and publishers/email/worker.py
--   Orchestrator   orchestrator/: Kinds (preferences.py), Recipients and Jobs (`_build_delivery_jobs`),
--                  Limit (the daily limit), Run (`orchestrate`)
--   Scheduler      scheduler.py: one call of `process_due_scheduled_events`
--   Api            api/routes: Notifications, Ingest, Preferences and Catalog, Subscriptions,
--                  ScheduledEvents, SendTest
--   Security       security/auth.py (Auth) and security/policies.py (Policies)
--   Seed           db/seed_db.py, db/auto_seed.py, api/routes/admin/seed.py: Table is what the four
--                  upserts share, with the laws that they need; Items are the four; Apply is what
--                  applies a seed. seed/loader.py and seed/schema.py: Files is a directory with
--                  what parsing its files gives, Collect the items of the files, Kinds the active
--                  kinds and `load_seed_dir`, Definition and Validate the validation
--   Cli            cli/vapid.py: the keys of web push in an environment file; Lines is about the
--                  lines of a text, Keys about the keys that it sets
--   Samples        a small world for the tests, which stand in the modules Tests
--
-- No definition needs fuel: every loop of the code runs over a list. Numbers of the code are not
-- bounded in Python, and are natural numbers here; a time is a number of microseconds.
--
-- Not modelled: cli/main.py and cli/seed.py, a client of the seed route, and the wiring of FastAPI,
-- which are input and output for the most part; the content of a message to a push or mail service;
-- the cache of evaluators, which changes no result; the state in which SQLAlchemy refuses statements
-- after a failed commit; concurrent sessions, whose effect on one session is only through the unique
-- constraints that its commits meet.
mod Prelude
pub mod Text
pub mod Json
pub mod Db
pub mod Session
pub mod Env
mod Samples
pub mod Tracking
pub mod Delivery
pub mod Publishers
pub mod Orchestrator
pub mod Engine
pub mod Scheduler
pub mod Security
pub mod Seed
pub mod Api
pub mod Cli
