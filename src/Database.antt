-- ===== src/Database.antt =====
-- backend/include/database/Database.hpp and backend/src/database/Database.cpp: the tables of the
-- schema, the one connection that all repositories share, exceptions, and transactions.
-- What SQLite itself decides (a busy or full disk) is given to each operation as `Answers`.
pub mod Transaction
use academia_cr.Prelude.{
  ℕ, String, str_append, Bool, Option, none, some, List, [], if◌then◌else◌, has_value,
}
use academia_cr.Models.{User, CourseRow, Registration, Session}

-- The tables of initialize_schema, with the counters of their AUTOINCREMENT keys.
pub record Tables : Type 0 where
  pub users : List User
  pub courses : List CourseRow
  pub registrations : List Registration
  pub sessions : List Session
  pub user_seq : ℕ
  pub course_seq : ℕ
  pub registration_seq : ℕ

abbrev pub empty_tables : Tables
empty_tables = record {
  users = [];
  courses = [];
  registrations = [];
  sessions = [];
  user_seq = 0;
  course_seq = 0;
  registration_seq = 0;
}

-- The sqlite3 connection: `backup` is what ROLLBACK restores while a transaction is open,
-- `changed_rows` is sqlite3_changes and `last_rowid` is sqlite3_last_insert_rowid.
pub record Connection : Type 0 where
  pub tables : Tables
  pub backup : Option Tables
  pub changed_rows : ℕ
  pub last_rowid : ℕ

-- A call returns, or throws a std::exception with this what().
pub data Result {ℓ} (A : Type ℓ) : Type ℓ where
  ok : A → Result A
  throw : String → Result A

-- The answers of SQLite that its tables do not determine: the error messages of BEGIN and COMMIT,
-- and whether an UPDATE, an INSERT or a DELETE is carried out.
pub record Answers : Type 0 where
  pub begin_error : Option String
  pub commit_error : Option String
  pub update_done : Bool
  pub insert_done : Bool
  pub delete_done : Bool

-- Database::execute throws with this text.
unfoldable pub execute_error : String → String → String
execute_error message sql =
    str_append "SQL execution failed: " (str_append message (str_append " SQL: " sql))

-- Database::begin_transaction: BEGIN IMMEDIATE, which fails inside a transaction.
unfoldable pub begin_transaction : Answers → Connection → Result (Unit {0}) × Connection
begin_transaction e c =
    if has_value c.backup
    then (
      throw (execute_error "cannot start a transaction within a transaction" "BEGIN IMMEDIATE"),
      c,
    )
    else elim e.begin_error [
      | none ↦ (ok tt, record c { backup = some c.tables })
      | some message ↦ (throw (execute_error message "BEGIN IMMEDIATE"), c)
    ]

-- Database::commit: COMMIT
unfoldable pub commit : Answers → Connection → Result (Unit {0}) × Connection
commit e c = elim e.commit_error [
  | none ↦ (ok tt, record c { backup = none })
  | some message ↦ (throw (execute_error message "COMMIT"), c)
]

-- Database::rollback: ROLLBACK, whose own error is only logged
unfoldable pub rollback : Connection → Connection
rollback c = elim c.backup [ none ↦ c | some before ↦ record c { tables = before; backup = none } ]

module _ {A : Type 0} where
  -- the `catch (...)` around commit
  commit_result : A → Result (Unit {0}) × Connection → Result A × Connection
  commit_result a (ok _, c) = (ok a, c)
  commit_result a (throw message, c) = (throw message, rollback c)

  -- the `try` block of Database::transaction, after func()
  end_transaction : Answers → Result A × Connection → Result A × Connection
  end_transaction e (ok a, c) = commit_result a (commit e c)
  end_transaction e (throw message, c) = (throw message, rollback c)

  within :
      Answers
      → (Connection → Result A × Connection)
      → Result (Unit {0}) × Connection
      → Result A × Connection
  within e func (ok _, c) = end_transaction e (func c)
  within e func (throw message, c) = (throw message, c)

  -- Database::transaction
  unfoldable pub transaction :
      Answers → (Connection → Result A × Connection) → Connection → Result A × Connection
  unfolding within end_transaction commit_result begin_transaction commit rollback
  transaction e func c = within e func (begin_transaction e c)
