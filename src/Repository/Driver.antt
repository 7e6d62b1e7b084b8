-- ===== src/Repository/Driver.antt =====
-- internal/repository/postgres.go: what all statements share, and transactions.
-- A driver of any type `D` stands for the connection and the server: it says which statements fail
-- and with what error, and gives the time of the server and new identifiers.
pub mod Outcomes
use ufo_observation_command.Base.{
  ℤ, String, Bool, true, false, Option, none, some, if◌then◌else◌, Error, sentinel, wrap, wrap_two,
  conflict, Result, ok, err, Method,
}
use ufo_observation_command.Base.Methods.{◌>>=◌, return, fail, map_error}
use ufo_observation_command.Repository.Tables.{Tables}

pub record Driver (D : Type 0) : Type 0 where
  -- the error of the next statement, BEGIN or COMMIT, if it fails
  pub answer : D → Option Error × D
  -- whether a COMMIT that has just failed was applied all the same, as when the connection was lost
  -- before the server's answer came
  pub applied : D → Bool
  -- the error of a primary key that is taken
  pub taken : Error
  -- `errors.As` with a `PgError` that has one of the codes of `wrapWrite`
  pub is_constraint : Error → Bool
  -- `uuid.NewString`
  pub new_id : D → String × D
  -- `now()` in SQL
  pub server_now : D → ℤ
  -- `json.Valid`
  pub is_json : String → Bool

pub record World (D : Type 0) : Type 0 where
  pub tables : Tables
  pub driver : D

module _ {D : Type 0} (sql : Driver D) where
  -- A statement that reads and writes the tables, once the driver lets it.
  unfoldable pub run_statement :
      {A : Type 0} → Option Error × D → Tables → (Tables → A × Tables) → Result A × World D
  run_statement (some e, d) t f = (err e, record { tables = t; driver = d })
  run_statement (none, d) t f = (ok (f t).0, record { tables = (f t).1; driver = d })

  unfoldable pub statement : {A : Type 0} → (Tables → A × Tables) → Method (World D) A
  unfolding run_statement
  statement f w = run_statement (sql.answer w.driver) w.tables f

  -- A statement that only reads.
  unfoldable pub select : {A : Type 0} → (Tables → A) → Method (World D) A
  unfolding statement
  select f = statement (λ t. (f t, t))

  unfoldable pub draw_id : Method (World D) String
  draw_id w =
      (ok (sql.new_id w.driver).0, record { tables = w.tables; driver = (sql.new_id w.driver).1 })

  -- `now()` in a statement that follows.
  abbrev pub server_time : Method (World D) ℤ
  server_time w = (ok (sql.server_now w.driver), w)

  unfoldable pub wrap_write : Error → Error
  wrap_write e =
      if sql.is_constraint e
      then wrap_two "repository write: %w: %w" e (sentinel conflict)
      else wrap "repository write: %w" e

  -- An INSERT: the driver's error or that of a key that is taken, wrapped by `wrapWrite`.
  unfoldable pub insert : (Tables → Bool × Tables) → Method (World D) (Unit {0})
  unfolding statement wrap_write
  insert f =
      map_error wrap_write do inserted ← statement f; if inserted then return tt else fail sql.taken

  -- An UPDATE that has to affect one row.
  unfoldable pub update : String → (Tables → Bool × Tables) → Method (World D) (Unit {0})
  unfolding statement
  update msg f = do
    affected ← map_error (wrap msg) (statement f)
    if affected then return tt else fail (sentinel conflict)

-- A transaction, with the texts that wrap the errors of its BEGIN and its COMMIT. The tables of a
-- function that failed are left as they were before BEGIN, and so are those of a COMMIT that failed
-- and was not applied.
module _ {D : Type 0} (sql : Driver D) (begin_text commit_text : String) where
  unfoldable pub finish : {A : Type 0} → Tables → Option Error × D → A → Tables → Result A × World D
  finish before (some e, d) a after = (
    err (wrap commit_text e),
    record { tables = if sql.applied d then after else before; driver = d },
  )
  finish before (none, d) a after = (ok a, record { tables = after; driver = d })

  unfoldable pub end_tx : {A : Type 0} → Tables → Result A × World D → Result A × World D
  unfolding finish
  end_tx before (err e, w) = (err e, record { tables = before; driver = w.driver })
  end_tx before (ok a, w) = finish before (sql.answer w.driver) a w.tables

  unfoldable pub begin_tx :
      {A : Type 0} → Tables → Option Error × D → Method (World D) A → Result A × World D
  unfolding end_tx
  begin_tx before (some e, d) f = (err (wrap begin_text e), record { tables = before; driver = d })
  begin_tx before (none, d) f = end_tx before (f record { tables = before; driver = d })

  unfoldable pub transaction : {A : Type 0} → Method (World D) A → Method (World D) A
  unfolding begin_tx
  transaction f w = begin_tx w.tables (sql.answer w.driver) f

module _ {D : Type 0} (sql : Driver D) where
  -- InTx.
  unfoldable pub in_tx : {A : Type 0} → Method (World D) A → Method (World D) A
  unfolding transaction
  in_tx f = transaction sql "begin transaction: %w" "commit transaction: %w" f

  -- InSerializable: a transaction is one step here, at any level of isolation.
  unfoldable pub in_serializable : {A : Type 0} → Method (World D) A → Method (World D) A
  unfolding transaction
  in_serializable f =
      transaction sql "begin serializable transaction: %w" "commit serializable transaction: %w" f
