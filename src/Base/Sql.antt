-- ===== src/Base/Sql.antt =====
-- The errors of PostgreSQL that the statements can meet, as pgx prints them.
use Prim.Native.Nat.{ℕ, ◌-◌, ◌*◌, ◌/◌, ◌^◌}
use mathlib.Core.Bool.{Bool, true, false}
use mathlib.Core.Option.{Option, none, some}
use Prim.Native.String.{String}
use event_driven_ecommerce.Base.Text.{◌<>◌}
use event_driven_ecommerce.Base.Surroundings.{DbError, pg_error}

abbrev pub max_bigint : ℕ
max_bigint = 2 ^ 63 - 1

abbrev pub out_of_range : DbError
out_of_range = pg_error "22003" "" "ERROR: bigint out of range (SQLSTATE 22003)"

abbrev pub unique_violation : String → DbError
unique_violation name =
    pg_error "23505" name
      ("ERROR: duplicate key value violates unique constraint \"" <> name <> "\" (SQLSTATE 23505)")

abbrev pub foreign_key_violation : String → String → DbError
foreign_key_violation table name = pg_error "23503" name (
    "ERROR: insert or update on table \"" <> table <> "\" violates foreign key constraint \""
    <> name <> "\" (SQLSTATE 23503)")

abbrev pub check_violation : String → String → DbError
check_violation table name = pg_error "23514" name (
    "ERROR: new row for relation \"" <> table <> "\" violates check constraint \"" <> name
    <> "\" (SQLSTATE 23514)")

abbrev pub not_null_violation : String → String → DbError
not_null_violation table column = pg_error "23502" "" (
    "ERROR: null value in column \"" <> column <> "\" of relation \"" <> table
    <> "\" violates not-null constraint (SQLSTATE 23502)")

abbrev pub is_none {ℓ} : {A : Type ℓ} → Option A → Bool
is_none none = true
is_none (some a) = false

-- A TIMESTAMPTZ keeps microseconds.
unfoldable pub micros : Option ℕ → Option ℕ
micros none = none
micros (some t) = some (t / 1000 * 1000)

-- The zero value of a `pgtype.Text` that is NULL.
abbrev pub text_or_empty : Option String → String
text_or_empty none = ""
text_or_empty (some s) = s
