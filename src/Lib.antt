-- ===== src/Lib.antt =====
-- The services of rolling-api, a backend for blind-date rooms: a host opens a room, guests apply
-- and are confirmed, the room becomes viable and goes to a planner, the planner confirms it, checks
-- the guests in and runs the rotation, and the guests choose each other and are matched.
--
-- How the model is made. The database is the record `Db` of Model.antt: one list of rows for each
-- table, in the order of creation. A service call is a function from the database, the caller and
-- the request to a `Result`: the returned value with the new database, or the `ApiError` that the
-- code raises, after which the transaction is rolled back and the old database stands. What a call
-- draws (uuid4, the clock, a random code) is an argument, in the order in which the code draws it.
-- A UUID is a number, a time is the number of microseconds from the start of the year 1,
-- NULL is `none`. A query by key is `get`,
-- by a condition `find`, `select` or `count`, and the write of a changed object is `save`.
--
-- The parts and their files:
--   Prelude: Boolean tests on numbers, integers, lists, tables (`Row`, `get`, `save`) and
--     app/core/exceptions.py (`Result`, `ApiError`).
--   Model: the enumerations of app/models/_enums.py, the rows of app/models, and `Db`.
--   Credit: app/services/credit_service.py. Viability: the capacity and the promotion of
--     app/services/host_service.py. Host: its operations on rooms, with the bodies of
--     app/schemas/room.py. Application: app/services/application_service.py and the host's
--     decisions; marking an application as paid calls the promotion, which issues the host's bonus,
--     and then the referral's bonus.
--   Planner: app/services/planner_service.py. Admin: the writes of app/services/admin_service.py
--     with the audit rows of audit_service.py. Rotation: the writes of
--     app/services/rotation_service.py. Lifecycle: all operations that write a room, as the steps
--     of one relation, and their histories. Lifecycle/Machine is the specification of a room's life
--     as a state machine that knows nothing of the operations; Lifecycle/Runs and
--     Api/Requests/Histories relate the two.
--   Choice: app/services/choice_service.py. The session does not flush by itself, so the model
--     keeps the added rows apart from those that a query sees (`Work`) until the flush.
--   Auth: app/services/auth_service.py, app/core/security.py and `get_current_user` of
--     app/api/deps.py; passlib, jose, hashlib and uuid are the record `Crypto`, a parameter, and
--     what a theorem needs of them is among its hypotheses.
--   RateLimit: the limiter of app/core/middleware.py.
--   Checkin: app/services/checkin_service.py. Guest: feedback_service.py, report_service.py and
--     profile_service.py of the same folder.
--   Listing: app/services/room_service.py. Readings: the lists that the other services send.
--     Choice/Targets, Rotation/Views, Admin/Lists and Admin/Queue: what those services show.
--   Headers: the headers that the routes read. Api: the routes of app/api/v1, one file for each
--     kind of caller, with the guards of app/api/deps.py; Api/Requests has the requests of all
--     routes as data, and serves them one after the other.
--   Tests: a run on small data for each theorem.
--
-- A request is a transaction (`Tx` of Api.antt) on the database that is committed and on what the
-- session sees. A service works on what the session sees, `commit` stands where the route commits,
-- and what is not committed when the request ends is lost, as app/core/database.py closes the
-- session. A query that orders its rows keeps the order of creation among equals, except for the
-- public list of rooms: the order in which each of its queries finds rooms that start together is an
-- argument (`rank`). The collation of names in the database is the parameter `name_le`.
--
-- Loops are recursions on the list or on the counter of the loop; the eight attempts at a referral
-- code are counted down, and running out of them is the code's own error. No other fuel is used.
-- Numbers are natural: amounts, capacities and times are not negative in the code, and the three
-- subtractions (a wait, the start of a day, a round of negative duration) stop at 0 or cannot go
-- below it. The duration of a round is an integer (`ℤ`), since the body of the request takes a
-- negative one. A start fails on one that its column cannot hold or that takes a round out of the
-- years 1 to 9999.
--
-- These constraints of the tables are modelled, and a broken one is the error 500 at the flush: the
-- columns and the unique hash of refresh tokens, the column of a session's duration, the reported
-- user of a report, the unique choices, and the codes of check-ins.
--
-- Not modelled: a clock at which the end of a further round passes the year 9999, the 100 characters
-- that an audit row has for an address (a longer X-Forwarded-For fails at the commit, which then
-- stores nothing), created_at and updated_at, payments with their list and count, the count of
-- recently completed rooms, the texts of errors, the health check, configuration and logging (with
-- the middleware that numbers requests), the migrations and the script of demonstration data, and
-- what the framework does: the bounds of queries and bodies (except for the validators of a room's
-- body) and the choice of columns by the classes of answers. Two requests that run at the same time
-- are not interleaved: each is one step.
pub mod Prelude
pub mod Model
pub mod Credit
pub mod Rotation
pub mod Viability
pub mod Host
pub mod Listing
pub mod Application
pub mod Planner
pub mod Admin
pub mod Lifecycle
pub mod RateLimit
pub mod Auth
pub mod Choice
pub mod Guest
pub mod Checkin
pub mod Headers
pub mod Readings
pub mod Api
pub mod Tests
