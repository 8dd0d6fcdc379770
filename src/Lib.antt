-- ===== src/Lib.antt =====
-- Verification of the chatbot's decision core (app/): what it plans for a classified message, which
-- tools it may then run, and what a run leaves behind.
--
-- A turn (app/orchestrator) reads the session, extracts facts from the message, and classifies it into
-- an intent (app/router), unless a wizard in progress owns it. When the confidence is low it asks a
-- question (app/clarification); otherwise the planner turns the intent, the facts
-- and the state of the session and the tenant's flags into a list of steps. The executor runs the
-- steps in order: each step names a tool, which the registry finds and the flags may switch off, and
-- which runs only if its security policy allows it. Redis counts the calls for the rate limits;
-- Postgres takes the audit rows.
--
-- Files:
--   * Prelude: shared names and lemmas (tests on numbers, lists, dictionaries, subsequences, texts).
--   * Shared: app/shared/intent_context.py and the taxonomy of app/config.py.
--   * Flags: Flags/Schemas for app/flags/schemas.py, Flags/Service for app/flags/service.py;
--     Resolution has the proofs.
--   * Session: Session/Schemas for the read models of app/session/schemas.py, Session/Updates for its
--     partial updates and app/session/repository.py, Session/Caching and Session/Service for
--     app/session/service.py. Coherence, Reading, Clarifying and Keeping have the proofs.
--   * Planner: app/planner/planner.py; Planner/Rules: app/planner/rules.py. RuleLaws, Plans and Menus
--     have the proofs.
--   * Tools: Tools/Schemas, Tools/RateLimit and Tools/Policy, Tools/Registry, Tools/Executor for the
--     files of app/tools of those names; Tools/Catalog for security_policies/*.yaml and the
--     registrations of tools. Clauses, Limits, Steps, Effects, Runs, Gates and Planned have the proofs.
--   * Clarification: app/clarification/flow.py and template_lookup.py, over the session service.
--     Clarification/Laws has the proofs.
--   * Llm: Llm/Context for app/llm/context.py and the check of messages in app/llm/_shared.py; Budget
--     and Requests have the proofs.
--   * Turns: app/turns/service.py, repository.py and schemas.py; Laws, Once and Numbering have the
--     proofs.
--   * Router: Router/Rules for app/router/rules.py, Router/Classifier for classifier.py and router.py,
--     Router/Facts for facts_extractor.py; Laws and Grounding have the proofs.
--   * Language: app/language/detection_service.py and translation_service.py.
--   * Orchestrator: app/orchestrator/orchestrator.py. Replies has its helpers, Turn the state and the
--     settings of a turn, Actions its reads and writes, Control the flow of on_turn;
--     Outcomes, Laws, Leaving, Traces and Turns have the proofs.
--   * Quotes: app/quotes/builder.py with its rows; Crm: the retry queue of app/crm/repository.py and
--     app/crm/worker.py, and Crm/Leads the capture of app/crm/service.py; Handoff:
--     app/handoff/handoff_service.py. Laws in each, and Crm/Outbox, have the proofs.
--   * Availability: app/availability; Laws has the proofs.
--   * Rag: app/rag/retrieval_service.py, the narrowing of a search for products; Relaxation has the
--     proofs.
--   * SolutionBuilder: SolutionBuilder/Bom for app/solution_builder/bom_service.py,
--     SolutionBuilder/Wizard for wizard_service.py, the wizard's rows of repository.py and the
--     wizard's tool of __init__.py. Quantities, Bills and Progress have the proofs.
--
-- Conventions. A coroutine is a function of the state it changes that returns the new state with its
-- result; an exception is a value (`Attempt`, `Option`). A dictionary is an association list in
-- insertion order (Prelude/Mapping). Numbers are natural numbers; Python's do not overflow. The loops
-- of the modelled code run over a list, or over the three attempts to record a turn, or once per
-- constraint of a search, so the model recurses on the list or on the number of rounds left and needs
-- no other fuel.
--
-- The session service runs over a store of rows (Postgres) and copies (Redis). Its calls are numbered
-- and a function says which of them raise, so that a theorem for every such function covers every
-- pattern of failures.
--
-- Parameters: the tools (functions that may change a world of any type and may raise), Redis
-- (`incr` and `expire`, which may raise), whether the audit table accepts a row, and the texts of
-- exceptions. For the solution builder: the catalogue's queries, the lead of a large project, the
-- narration of a solution and the capacity stated in the conversation. For the clarification: the
-- templates, the model's reply, and the test of the options that a rewrite lost. For the router:
-- the searches of regular expressions, and the model's replies. For the turn: the detector of
-- languages, the model's translation, and whether the commit succeeds. For requests to a model: the
-- JSON texts of values. For flags: the cache and the rows of overrides. For the log of turns: the
-- rows that other transactions commit. For quotes: prices, names and the PDF. For searches: the
-- rows that a query finds. For leads: the new identifiers, the time, whether the commit succeeds
-- and the answers of the CRM. For handoffs: the date and its texts, the references of other tenants
-- and whether a write fails. For availability: the texts of numbers.
--
-- Not modelled: the work of the other tools (product intelligence, the queries and vectors of
-- retrieval), the LLM clients, the HTTP layer, the rollback of database transactions but for those
-- of a lead, a request for a human and a turn of the wizard, notifications, the front end. Logging
-- is left out of every definition.
pub mod Prelude
pub mod Shared
pub mod Session
pub mod Flags
pub mod Planner
pub mod Tools
pub mod SolutionBuilder
pub mod Availability
pub mod Clarification
pub mod Llm
pub mod Turns
pub mod Language
pub mod Orchestrator
pub mod Router
pub mod Quotes
pub mod Rag
pub mod Handoff
pub mod Crm
