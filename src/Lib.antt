-- ===== src/Lib.antt =====
-- A model of the backend of a community site (FastAPI, SQLAlchemy over MySQL, Redis): its menus,
-- posts, likes, comments, reports and sign-in, with what each of them keeps true.
--
-- The parts. A request handler opens a database session (app/infrastructure/database/session.py)
-- and hands it, with the Redis connection, to a service; a service checks, calls its
-- repository, and commits. A repository queries and flushes. The services of reports and
-- comments use the repositories of posts and comments; posts keep likes in Redis, which a
-- scheduled job (app/modules/posts/post_like_sync.py) writes to the database. The routers
-- (app/api/v1/router.py) find the current user, call a service and wrap what it returns; an
-- exception is turned into a response by app/core/exception_handlers.py.
--
--   Prelude          lists, tests on numbers and texts, and their lemmas
--   Core/Errors      app/core/exceptions.py: an exception class is a constructor of Error, without
--                    its text; Python's ValueError and SQLAlchemy's IntegrityError beside them
--   Core/Action      a call that may raise: a function of the state into a result and the state it
--                    leaves, also when it raises
--   Core/Session     the database session, an interface: `live` is what the session's queries see,
--                    `saved` what is committed; flush may be refused with an integrity error
--   Core/Redis       the Redis server, an interface; laws of the commands are named hypotheses
--   Core/Storage     app/infrastructure/storage: the object storage, an interface with a named law,
--                    and the choice of one
--   Core/World       a session and a Redis store; Core/Site has the bucket of the storage too
--   Core/Keeps       calls that keep a property of their state
--   Core/Pagination  app/common/pagination.py
--   Models           the tables, from the *_model.py files
--   Users            app/modules/users: Repository and Service
--   Menus            app/modules/menus: Repository and Service, get_tree in Tree; the loop of
--                    _ensure_not_own_descendant is `climb`
--   Posts            app/modules/posts: Repository and Service, scan_like_to_db in Repository/Sync,
--                    the images in Images and Keys, the job post_like_sync in SyncJob
--   Comments         app/modules/comments: Repository and Service, _validate_mentions in Mentions
--   Reports          app/modules/reports: Repository and Service, with
--                    app/modules/users/user_sanctions_repository.py
--   Auth             app/core/security.py (Security), app/modules/auth/token_store.py (TokenStore),
--                    app/common/rate_limit.py (RateLimit), app/modules/auth/service.py and
--                    app/common/dependencies.py (Service)
--   Config           app/core/config.py, with the functions of Python on texts that it calls
--   Schema           app/infrastructure/database/synchronize.py, over Alembic as a parameter
--   Migrations       alembic/versions, a list of operations for each `upgrade` and `downgrade`
--                    (Versions), and the order in which they may run (Revisions); Alembic and
--                    MySQL are a parameter, and what MySQL makes of an operation (Ddl) is the named
--                    hypothesis on it, for a MySQL that drops the index it made for a foreign
--                    key once another serves, as the manual says that it might; the tables that
--                    the models declare (Declared)
--   Logging          the masking of app/core/logging_config.py
--   Api              the routers, each in the module of its name; app/api/v1/router.py and the close of
--                    get_db (Application), app/core/exception_handlers.py and ErrorResponse of
--                    app/common/schemas.py (Failures), app/api/health.py (Health),
--                    app/core/middleware.py (Middleware), app/main.py (Main) and the
--                    checks of bodies in the *_schemas.py files (Bodies). The handler of a
--                    route is `handle_` and its name; what it runs on is a Platform
--   Examples         a concrete database, cache, storage and signing library, and every theorem at
--                    an input
--
-- Correspondence. A method of a service or a repository is the function of its name, less the
-- leading underscore; `refresh` is `refresh_tokens`. Each takes the session (or the world) last
-- and gives it back. A column or field keeps its name. Rows stand in the order of the primary
-- key; the key of a new row is the database's choice, above all in use. `None` is `none`; a field
-- of a PATCH body that was not sent is an outer `none`. The time, the ids drawn from uuid4,
-- Python's str.lower, pydantic's strip_whitespace, PyJWT, bcrypt, SHA-256, the collation of the
-- database (`text_equal`) and LIKE (`text_contains`) are parameters. Times of tokens and lifetimes of
-- keys are whole seconds.
--
-- Bounds and fuel. The loop that climbs the parents of a menu takes fuel. A valid set of menus
-- has a rank of every menu above its parent's, and fuel above the rank of the new parent is
-- enough. The loop over the operations of a schema change takes their number as fuel. Every
-- other loop is recursion on a list or on a text. The orders of the migrations are enumerated up
-- to eleven, which is how many there are. Numbers are unbounded, as in Python.
--
-- The files named Frame, Keeps, Sound and the like are about what a call leaves alone.
--
-- Not modelled: URLs, status codes of successful responses and the checks of the bodies of
-- comments and reports; the setup of logging and the log lines; the calls of Pillow,
-- boto3 and the Redis client, which are parameters; a null for a field of PostUpdate, UserUpdate or
-- MenuUpdate whose column is NOT NULL; scripts/seed.py; alembic/env.py; what other
-- sessions commit while a request runs (the requests of a run come one after the other), and a
-- commit that fails; the texts of errors; timestamps that no code reads back.
pub mod Prelude
pub mod Core
pub mod Models
pub mod Users
pub mod Menus
pub mod Posts
pub mod Comments
pub mod Reports
pub mod Auth
pub mod Config
pub mod Logging
pub mod Schema
pub mod Migrations
pub mod Api
pub mod Examples
