-- ===== src/Lib.antt =====
-- Academia: a course registration server in C++17 (backend/), SQLite below it and HTTP routes above,
-- and an older server in C (server/, academia/) with the same purpose over plain files.
--
-- A student registers for a course and drops it, faculty members and admins manage courses, admins
-- manage accounts; every request carries a bearer token. One Database object, one SQLite connection,
-- is shared by three repositories (one SQL statement a method), which three services use; the HTTP
-- controllers call the services.
--
-- What models what:
-- - Models: backend/include/models/*.hpp and the row types of the schema
--   (backend/src/database/Database.cpp, initialize_schema). Ids and instants are numbers; role and
--   status, which the schema's CHECK limits to a few texts, are data types.
-- - Database: backend/include/database/Database.hpp. A `Connection` is the tables, the copy that an open
--   transaction would restore, sqlite3_changes and sqlite3_last_insert_rowid. An operation is a
--   function from the connection to its answer and the connection after it; one that may throw
--   answers a `Result`. What SQLite decides on its own (BEGIN, COMMIT or a statement fails because
--   the disk is full or the file is locked) is an argument of each operation, `Answers`; a theorem
--   holds for every value of it unless it has a hypothesis on it.
-- - RegistrationRepository, CourseRepository, UserRepository: backend/include/repositories/*.hpp. A WHERE
--   clause is a test on rows, a SELECT a function of the tables; INSERT, UPDATE and DELETE change
--   the tables as the schema lets them: unique keys, CHECKs, foreign keys and their ON DELETE
--   actions. SQLite's own behaviour on them is the documented one.
-- - RegistrationService, CourseService, AuthService: backend/include/services/*.hpp, each method as a
--   function over the connection, every early return and every ignored result as it stands. The
--   header check of backend/include/middleware/AuthMiddleware.hpp is in AuthService.
-- - Sha256: the hash function that AuthService carries. Words are numbers below 2 ^ 32 with the
--   reduction written out; loops over the input run on fuel, its length, which each step shortens.
-- - Text: what the services use of std::string.
-- - System: histories of requests to the services over the one connection, from a new database.
-- - Controllers: backend/include/controllers, the routes that change the tables, from the
--   Authorization header to the status.
-- - ThreadPool: backend/include/concurrency/ThreadPool.hpp as a step relation, a step for what a
--   thread does while it holds the queue's mutex.
-- - ProducerConsumer: systems/producer_consumer/ProducerConsumer.cpp, the same way, where a thread whose
--   wait may end is free to step; ProducerConsumer.Waiting adds the condition variables, with the
--   threads asleep and the notifications that wake them.
-- - Framing: the length-prefixed messages of systems/tcp/TcpServer.cpp and TcpClient.cpp, and the server's
--   loop over one client.
-- - FileOps: academia/file_ops.c and academia/academia.h, the older C server's store: users, students,
--   faculty and courses as lists of fixed records in four files. An operation is a function of which
--   files can be opened (`Opens`) and of the files to its return value and the files after it; one that
--   could leave an array answers an `Outcome`. FileOps.Agreement relates courses.dat to students.dat,
--   FileOps.History runs calls from the first start on.
-- - Server: server/server.c, the login and the three menus of a session, as a function from what the
--   client sends to the messages and the files.
-- - Client: the messages with a length that client/client.c reads from server/server.c, over a network
--   that may cut them.
-- - Integrity: the invariants of the database. Prelude: helpers shared by all.
--
-- int is an unbounded integer here, except for the seats reported after a drop, which are reduced to
-- 32 bits as they are returned; so are the counts and the AUTOINCREMENT keys: a database that holds
-- 2 ^ 31 rows is out of scope. Reads are taken to succeed. The services are run one call at a
-- time: two calls for different courses, which the per-course mutex of
-- RegistrationService::get_course_mutex lets interleave on the one connection, are not modelled.
--
-- In the older server a char array is the text up to its first NUL. strncpy of a text that is as long as
-- its array or longer leaves no NUL, so that C reads on into the next field; the model keeps the cut
-- text there, and the theorems about ids ask for at most 9 characters of 10. A call is one step, as
-- file_sem is held over its reads and writes; unenroll_course and remove_course free it between two
-- parts, and FileOps.History has these parts as steps of their own beside the whole. Sessions that run
-- at once are, to the files, one sequence of these steps.
--
-- Not modelled: logging, the HTTP routing library and the JSON of requests and answers, the random
-- bits of AuthService::generate_token (the token is an argument), the search with LIKE, the
-- course statistics (floating point), the demo data of Database::seed_data, what the client under
-- client/ asks of its user and writes, the exercises under basic_requirements/, and the browser client under
-- frontend/. Of the older server: its sockets and its log, and clients that leave in the middle of a
-- login.
pub mod AuthService
pub mod Client
pub mod Controllers
pub mod CourseRepository
pub mod CourseService
pub mod Database
pub mod FileOps
pub mod Framing
pub mod Integrity
pub mod Models
pub mod Prelude
pub mod ProducerConsumer
pub mod RegistrationRepository
pub mod RegistrationService
pub mod Server
pub mod Sha256
pub mod System
pub mod Tests
pub mod Text
pub mod ThreadPool
pub mod UserRepository
