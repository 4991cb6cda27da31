-- ===== src/Lib.antt =====
-- Mail-Otter reads the mail of connected accounts, summarizes it, and proposes actions such as a
-- draft or a calendar event, which a user confirms, snoozes or schedules. This library models the
-- core of the server: what happens to a message from its fetching to its end, and to an action
-- from its creation to its execution.
--
-- State. The program keeps its state in the tables of one SQL database, and access tokens in a
-- key-value namespace; its workers share nothing else. A table is a list of rows, in the order in
-- which the database visits them; a method of a DAO is a function from tables to tables, with the
-- number of changed rows that the database reports (Base.Table has the statements, Base.Sort
-- those that order rows, with what a query for the first ones is to answer; Base.Tests and
-- Base.Lists have the tests and lists they share). A row is a record with the columns of the
-- table; the columns of an encrypted value are one record, whose encryption is a parameter. A
-- method that reads the clock takes the reading, in seconds, as an argument.
--
-- Workers. A statement is atomic, and a service is a sequence of statements between which other
-- workers run. A model of a service therefore takes `others k`, the statements that other workers
-- send before its access number k; they are any list of the statements that change the table, for
-- messages save the deletion of an application. Where a theorem is about a run without
-- interference, a condition says that these lists are empty. The orchestration (Summary), the
-- records of background tasks (TaskRun) and the operations on the tokens of an application
-- (Token.Worker) are modelled without other workers; a callback takes the statements that others
-- send to the sessions. The key-value namespace is consistent only in the end: a read of the
-- token cache sees what a parameter makes of it.
--
-- The files:
--   UserScope: packages/backend-data/src/dao/userScope.ts, the predicate that scopes rows to a
--     user.
--   Action: packages/shared/src/model/EmailAction.ts and the types of
--     packages/shared/src/constants/Providers.ts.
--   Action.Store: packages/backend-data/src/dao/EmailActionDAO.ts and EmailActionQueries.ts;
--     Action.Store.Statements lists every statement that changes the two tables, as data, with
--     the deletions that cascade.
--   Action.Execution: executeAction of
--     packages/backend-services/src/action/ActionExecutionService.ts, with recordExecution; the
--     accesses are numbered in the order of the code.
--   Action.Scheduling: packages/backend-services/src/action/ActionSchedulingService.ts, with
--     EmailActionDAO.listPendingScheduledActions.
--   Action.Execution.Entry: executeActionWithToken and executeActionForUser of
--     packages/backend-services/src/action/ActionExecutionService.ts.
--   Action.Creation: packages/backend-services/src/action/ActionCreationService.ts: the addresses
--     of a body, the normalizing of proposals, and the insertion of actions by Action.Store.
--   Action.Listing: listActionsForUser of EmailActionDAO.ts.
--   Message: packages/backend-data/src/dao/ProcessedMessageDAO.ts, with the unique indexes of the
--     table.
--   Pipeline: packages/backend-services/src/email/EmailPipeline.ts, which takes a message up by
--     Message.try_start and ends it by the marks of Message.
--   Sender: packages/backend-services/src/email/SenderFilterUtil.ts; a text is a list of UTF-16
--     code units.
--   Rule: packages/backend-services/src/email/EmailRulesUtil.ts and
--     packages/shared/src/model/EmailRule.ts, which use Sender.
--   Token: OAuth2AccessTokenRefreshStatusDAO.ts and the OAuth2 methods of
--     ConnectedApplicationDAO.ts in packages/backend-data/src/dao; Token.Cache is
--     OAuth2AccessTokenCacheDAO.ts there; Token.Worker and Token.Exclusive are
--     apps/background/src/OAuth2TokenRefreshWorker.ts, an object for each application, which
--     chains its operations on tokens.
--   Token.Session: packages/backend-data/src/dao/OAuth2AuthorizationSessionDAO.ts, and
--     completeCallback of packages/backend-services/src/oauth2/OAuth2AuthorizationService.ts,
--     which calls Token.Worker.
--   Token.Session.Creation: createAuthorization of the same file, with the address that
--     packages/provider-clients/src/OAuth2ProviderUtil.ts builds from OAuth2Strategy.ts and
--     packages/shared/src/constants/OAuth2Scopes.ts; Token.Session.Opened is the session that it
--     leaves for the callback.
--   Token.Service: packages/backend-services/src/oauth2/OAuth2AccessTokenService.ts.
--   Usage: packages/backend-services/src/email/AiUsageUtil.ts; Usage.Daily is
--     packages/backend-data/src/dao/AiDailyUsageDAO.ts.
--   Summary: summarize and resolveSummaryModel of
--     packages/backend-services/src/email/EmailSummaryOrchestrator.ts, which add to the table of
--     Usage.Daily what Usage estimates; Summary.Orchestrator is orchestrate, which runs Sender,
--     Rule, Summary and Action.Creation, and is what Pipeline takes as its `summarize`.
--   TaskRun: packages/backend-data/src/dao/BackgroundTaskRunDAO.ts; TaskRun.Task is the loop
--     pruneInBatches of packages/backend-data/src/utils/RepositoryHelper.ts and, of
--     apps/background/src/scheduled, the handling of a task in IScheduledTask.ts and the pruning
--     of the records themselves.
--   Workflow: apps/background/src/EmailProcessingWorkflow.ts, which runs the pipeline of each
--     message in a step of the platform; Workflow.Steps has the contract of a step,
--     Workflow.Dispatch is apps/background/src/EmailEventsDispatcherWorker.ts, which starts the
--     workflows.
--   Tests: concrete runs.
--
-- Bounds. Two functions run on fuel: the loop of batches, for which one batch more than there are
-- old rows is enough, and the following of pages, for which one page more than there are rows is.
-- Every other loop of the modelled code walks a list. Times and counts are natural numbers; the
-- sums and differences the code forms of them are far from the limits of its doubles, and its
-- differences are taken only where they are not negative (`claimRetry` subtracts its fifteen
-- minutes from a reading of the clock, which the model adds to the other side).
--
-- Not modelled: the providers of mail, the handlers of actions, the language models, encryption,
-- hashes, toLowerCase and the clock, which are parameters; the logs and the audit log; foreign
-- keys on an insertion of an action, whose message and application its caller has just read; the
-- other listings for the user interface; an update in `claimRetry` that would break the unique
-- index on fingerprints, which throws; and the parts of the program outside the files above.
pub mod Base
pub mod UserScope
pub mod Action
pub mod Message
pub mod Pipeline
pub mod Sender
pub mod Rule
pub mod Usage
pub mod Token
pub mod Summary
pub mod TaskRun
pub mod Workflow
pub mod Tests
