-- ===== src/Lib.antt =====
-- The lead management service (app/). Prospects submit a form with a resume; attorneys log in, read
-- leads and mark them as reached out to; administrators manage accounts and read the audit trail.
--
-- The parts and how they interact. A request to a handler of app/api/routes is authenticated by a
-- dependency (app/core/dependencies.py) that reads a token (app/core/security.py) and the account
-- from the database. The handler calls one service of app/services and returns, with its answer, the
-- background tasks that it queues: audit entries, and the notification of a new lead. A task runs
-- after the answer, with a session of its own.
--
-- What models which code, with the functions under their own names:
--   Common, Results     lists, texts and tests on native numbers; exceptions as values
--   Models              app/models: users, leads and audit logs as records
--   Database            one table as the services use it through SQLAlchemy: an interface (Table) and
--                       its laws (IsTable), an instance in memory (Memory), and pages (Paging)
--   Engine              the three tables together, their unique columns and foreign keys
--   Audit.Tracker       _AuditFailureTracker of app/services/audit_service.py
--   Audit.Sanitize      _sanitize of the same file
--   Audit.Log           record_action, record_state_change and the listings of the same file
--   Security            app/core/security.py
--   Auth                app/services/auth_service.py
--   Dependencies        app/core/dependencies.py
--   Schemas             app/schemas
--   Leads               app/services/lead_service.py
--   Leads.Racing, Auth.Racing, Routes.Admin.Interleaving
--                       two requests at once: what one reads before the other commits
--   Effects             the services' committed transactions as a step relation, and sequences of
--                       calls (Running)
--   Storage             app/services/storage.py; Storage.Paths is what it uses of pathlib
--   Files               app/services/file_service.py
--   Notifications       app/services/notification_service.py and app/services/channels; what the
--                       channels send is in Transports
--   Sql, Migrations     alembic/versions: the operations of the six revisions on the catalog
--   Application         app/core/config.py (Settings for the fields) and app/main.py: secret, origins,
--                       request size, health, and the answer to an exceeded rate limit
--   Context             app/main.py (set_rls_context) and app/db/session.py
--   Rls                 the policies of the migrations under the settings of a connection (Views), and
--                       the pooled connections of app/db/session.py (Pool)
--   Seed                app/db/seed.py and the start in app/main.py
--   Routes              app/api/routes: Admin, Leads and Auth
--
-- State and errors. A service function is an action on the database: it returns a value or an
-- exception, and the database after its last commit. A handler also returns its queued tasks, and a
-- handler that raises queues none. The keys of new rows, the times, the bcrypt salt and the text of
-- a fresh UUID are arguments. A UUID is a number, its text is given by the interface Crypto; times
-- are whole seconds; a str is the list of its code points, and bytes are a list of numbers.
--
-- Termination. Every loop of the modelled code runs over a list but one: the loop that reads an
-- upload goes on as long as the client sends. Files models it over the list of what the reads
-- return, and Files.Looping over an endless stream with fuel, of which one unit more than the limit
-- on the size, and one for the last read, is enough.
--
-- What is not under app/ is a parameter. PostgreSQL behind SQLAlchemy is Engine with the laws
-- IsEngine; bcrypt, python-jose and uuid are Crypto with the laws IsCrypto; both have instances
-- (Engine.Memory, Security.Memory), on which the theorems are tried in the modules Tests. The
-- validator of email addresses is a function, and so is what a mail server does with a message.
--
-- SQL is a language of the source. The migrations act on the part of PostgreSQL's catalog that they
-- touch: tables, columns, indexes, enumeration types, policies and privileges. A policy's condition has
-- one of three values or ends the statement with an error, and where PostgreSQL is free to choose
-- the order of evaluation an error of either side counts. The policies are permissive, an UPDATE
-- also needs what a SELECT needs, and a query of users inside a policy on users is an error. `SET`
-- lasts beyond a commit; a rollback undoes it, to the empty text where there was NULL. The role alma_app
-- and its privileges by default come from docker/init-db.sql and are part of the catalog at the start.
-- Rows with equal sort keys stand in no promised order, so pages are windows of one listing only
-- where there are none. SQLAlchemy's UPDATE holds the columns that differ from what was read. The services act on a database that shows all
-- rows; Rls.Views puts what they read behind the policies: get_current_user, reached_out_by, the leads,
-- and all that an administrator reads.
--
-- Not modelled: writes behind the policies beyond the verdicts of Rls.Rows, whether slowapi lets a
-- request through, the contents of log lines other than the tracker's, the environment of Alembic
-- (alembic/env.py), and the frontend. What a refused write leaves in the upload directory, and what
-- smtplib, httpx and the servers behind them answer, is an argument.
pub mod Common
pub mod Models
pub mod Results
pub mod Database
pub mod Engine
pub mod Audit
pub mod Security
pub mod Auth
pub mod Dependencies
pub mod Schemas
pub mod Leads
pub mod Effects
pub mod Storage
pub mod Files
pub mod Notifications
pub mod Sql
pub mod Migrations
pub mod Application
pub mod Context
pub mod Rls
pub mod Seed
pub mod Routes
