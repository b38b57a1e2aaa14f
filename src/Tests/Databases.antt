-- ===== src/Tests/Databases.antt =====
-- Statements at concrete inputs.
use agent_db.Prelude.{
  ℕ, ◌≡◌, refl, true, false, none, some, List, [], ◌∷◌, ltb, get_or, ◌-◌, if◌then◌else◌,
}
use agent_db.Outcome.{Outcome, ok}
use agent_db.Bytes.{get_uint, put_uint, le_value}
use agent_db.Int64.{pos}
use agent_db.Int32.{to_word32, of_word32, to_int32}
use agent_db.Sql.Text.{codes, same, to_upper, contains}
use agent_db.Sql.Text
use agent_db.Sql.Lexer.{lex, tokenize, lex_one, lex_string, span, word_token, keyword_list}
use agent_db.Sql.Ast.{
  SelectStatement, InsertStatement, CreateTableStatement, DropTableStatement, Statement,
}
use agent_db.Sql.Ast
use agent_db.Sql.Tokens.{skip, name, kind_is}
use agent_db.Sql.Change.{parse_drop}
use agent_db.Sql.Parse.{parse, parse_statement}
use agent_db.Storage.Page.{Page, new_page, read_header, write_header}
use agent_db.Storage.Page
use agent_db.Storage.Disk.{open_disk, read_page, DbFile}
use agent_db.Storage.Disk.ReadBack.{IsPlain}
use agent_db.Storage.BufferPool.{
  new_buffer_pool, fetch_page, unpin_page, load_page, find_free, fetch_cached,
}
use agent_db.Storage.BufferPool.Invariant.{view, disk_bytes}
use agent_db.Storage.Value.{
  type_int, type_text, int32, sprint_value, value_int32, decimal, decimal_digits,
}
use agent_db.Storage.Row.{
  TableSchema, Cell, deserialize_row, get_columns, null_bit, get_text, get_column,
}
use agent_db.Storage.Heap.{
  hash_string, scan_full, scan_pages, scan_next, scan_found, scan_page, scan_slots, read_row,
}
use agent_db.Executor.Database.{Database, lookup, QueryResult, affected, duplicate}
use agent_db.Executor.Database.Create.{execute_drop}
use agent_db.Executor.Database.Insert.{check_unique, has_value, insert_values_into, same_values}
use agent_db.Executor.Database.Select.{Sort, execute_select}
use agent_db.Executor.Database.Execute.{Setting, execute_statement, execute}
use agent_db.Executor.Database.Reads.{Unchanged, execute_select-Unchanged}
use agent_db.Executor.Database.Durable.{execute-durable}
use agent_db.Tests.Heaps.{toy, pool, table-Sane, column}

abbrev three : List ℕ
three = 4 ∷ 5 ∷ 6 ∷ []

abbrev pub unsorted : Sort
unsorted = record { sort_slice = λ less xs. xs }

abbrev unique_schema : TableSchema
unique_schema = record {
  name = codes "t";
  columns = record (column "id" type_int) { unique = true } ∷ column "s" type_text ∷ [];
}

abbrev pub database : Database
database = record {
  schemas = (codes "t", unique_schema) ∷ [];
  tables = (codes "t", unique_schema) ∷ [];
  indexes = [];
  pool = pool;
  save_fails = λ m. false;
}

abbrev all_rows : SelectStatement
all_rows = record {
  table = codes "t";
  columns = codes "*" ∷ [];
  aggregates = [];
  condition = none;
  join = none;
  order_by = [];
  order_dir = [];
  limit = pos 5;
  offset = pos 0;
}

execute_select-Unchanged_example :
    Unchanged database (execute_select toy unsorted 9 all_rows database).1
execute_select-Unchanged_example =
    execute_select-Unchanged toy unsorted 9 all_rows database table-Sane.valid table-Sane.counted

abbrev create_u : CreateTableStatement
create_u = record { table = codes "u"; columns = []; if_not_exists = true }

abbrev pub setting : Setting
setting = record { fuel = 9; ids = λ i. pos i; index_opens = λ t c. true; in_transaction = false }

abbrev drop_u : Statement
drop_u = Ast.drop_table (record { table = codes "u"; if_exists = true })

drop_syntax : parse 9 (codes "DROP TABLE IF EXISTS u") ≡ Text.ok drop_u
unfolding parse lex tokenize lex_one lex_string span word_token keyword_list parse_statement skip
    name kind_is parse_drop same to_upper contains
drop_syntax = refl

drop_runs :
    execute_statement toy unsorted setting drop_u database ≡ (ok (affected 0 none), database)
unfolding execute_statement execute_drop lookup same
drop_runs = refl

pool_writes : (k : ℕ) → pool.disk.file.write_fails k ≡ false
unfolding new_buffer_pool open_disk
pool_writes k = refl

execute-durable_example :
    ((execute toy unsorted setting (codes "DROP TABLE IF EXISTS u") database).0
      ≡ ok (affected 0 none))
    × ((id : ℕ)
        → IsPlain id
        → disk_bytes
            (execute toy unsorted setting (codes "DROP TABLE IF EXISTS u") database).1.pool.disk
            id
          ≡ view pool id)
execute-durable_example =
    execute-durable toy unsorted setting (codes "DROP TABLE IF EXISTS u") drop_u database database
      (affected 0 none) drop_syntax refl refl drop_runs refl table-Sane.valid pool_writes

abbrev insert_u : InsertStatement
insert_u = record { table = codes "t"; columns = []; values = [] }

-- a file with one page, on which a table with a key has one row, whose key is 7
abbrev keyed_schema : TableSchema
keyed_schema = record {
  name = codes "t";
  columns = record (column "id" type_int) { primary_key = true } ∷ [];
}

abbrev head_bytes : List ℕ
head_bytes =
    1 ∷ 0 ∷ 0 ∷ 0 ∷ 0 ∷ 0 ∷ 0 ∷ 0 ∷ 116 ∷ 0 ∷ 0 ∷ 0 ∷ 28 ∷ 0 ∷ 249 ∷ 15 ∷ 1 ∷ 0 ∷ 0 ∷ 0 ∷ 0 ∷ 0 ∷ 0
    ∷ 0 ∷ 249 ∷ 15 ∷ 7 ∷ 0 ∷ []

abbrev row_bytes : List ℕ
row_bytes = 0 ∷ 7 ∷ 0 ∷ 0 ∷ 0 ∷ 0 ∷ 0 ∷ []

abbrev filled_file : DbFile
filled_file = record {
  content =
      λ i. if ltb i 8185 then get_or head_bytes (i - 4096) 0 else get_or row_bytes (i - 8185) 0;
  size = 8192;
  read_fails = λ _. false;
  write_fails = λ _. false;
}

abbrev filled_database : Database
filled_database = record database {
  schemas = (codes "t", keyed_schema) ∷ [];
  tables = (codes "t", keyed_schema) ∷ [];
  pool = new_buffer_pool 1 (open_disk filled_file);
}

abbrev key : ℕ → List (Cell toy)
key n = some (int32 (pos n)) ∷ []

abbrev inserted : Outcome (QueryResult toy) × Database
inserted = insert_values_into toy 9 setting.ids keyed_schema insert_u (key 8) filled_database

-- the same key again is refused
key_7_refused :
    (insert_values_into toy 9 setting.ids keyed_schema insert_u (key 7) filled_database).0
    ≡ ok (QueryResult.failed duplicate)
unfolding check_unique has_value scan_full scan_pages scan_next scan_found scan_page scan_slots
    read_row Page.get_row Page.get_slot deserialize_row get_columns null_bit same_values get_text
    get_column same decimal decimal_digits of_word32 le_value to_int32 fetch_cached value_int32
    to_word32 sprint_value fetch_page new_buffer_pool open_disk read_page new_page read_header
    write_header get_uint put_uint load_page find_free unpin_page hash_string
key_7_refused = refl
