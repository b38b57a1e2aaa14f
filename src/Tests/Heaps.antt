-- ===== src/Tests/Heaps.antt =====
-- Rows and heap files at concrete inputs.
use agent_db.Prelude.{
  ℕ, ◌^◌, ◌<◌, ◌≡◌, refl, Bool, true, false, none, some, List, [], ◌∷◌, arith, ◌==◌, if◌then◌else◌,
}
use Prim.Native.String.{String}
use mathlib.Core.Path.{subst}
use agent_db.Outcome.{Outcome, ok}
use agent_db.Bytes.{zeros, le_bytes, get_uint, put_uint}
use agent_db.Int64.{pos}
use agent_db.Int32.{to_word32}
use agent_db.Sql.Text.{Bytes, codes}
use agent_db.Storage.Page.{Page, new_page, read_header, write_header, can_fit, free_space, set_slot}
use agent_db.Storage.Page
use agent_db.Storage.Disk.{DbFile, open_disk, read_page, allocate_page}
use agent_db.Storage.BufferPool.{
  BufferPool, new_buffer_pool, fetch_page, unpin_page, update_page, load_page, find_free,
}
use agent_db.Storage.Value.{
  Floats, ColumnType, type_int, type_text, type_bool, int32, text, sprint_value, value_int32,
}
use agent_db.Storage.Row.{
  ColumnDef, TableSchema, Rid, Cell, serialize_row, deserialize_row, put_column, put_columns,
  bitmap, bitmap_byte,
}
use agent_db.Storage.Row.Columns.{is_int, is_text, is_missing, AllTyped}
use agent_db.Storage.Row.RoundTrip.{deserialize-serialize_row}
use agent_db.Storage.Heap.Start.{open_disk-Sane}
use agent_db.Storage.Heap.View.{row_at}
use agent_db.Storage.Heap.Written.{Sane, ok_inj}
use agent_db.Storage.Heap.Insert.{Inserting, stored, refused, insert_bytes-Inserting}
use agent_db.Storage.Heap.Lookup.{InsertedRow, get_row-insert_row}
use agent_db.Storage.Heap.Remove.{Removing, delete_row-Removing}
use agent_db.Storage.Heap.Update.{Updating, update_row-Updating}
use agent_db.Storage.Heap.{
  HeapFile, table_id, hash_string, find_page, search_page, insert_bytes, put_found, put_new,
  put_data, set_table, insert_row, delete_row, update_row,
}

-- a number format with two numbers
abbrev pub toy : Floats
toy = record {
  Float = Bool;
  of_int = λ n. false;
  to_int32 = λ x. pos 0;
  bits = λ x. if x then 1 else 0;
  of_bits = λ w. w == 1;
  sprint = λ x. codes "0";
  sprint32 = λ x. codes "0";
  parse = λ s. none;
  less = λ x y. false;
  add = λ x y. x;
  div = λ x y. x;
}

toy_back : (x : Bool) → toy.of_bits (toy.bits x) ≡ x
toy_back true = refl
toy_back false = refl

toy_word : (x : Bool) → toy.bits x < 2 ^ 64
toy_word x = ground arith

abbrev pub column : String → ColumnType → ColumnDef
column name t = record {
  name = codes name;
  col_type = t;
  nullable = true;
  primary_key = false;
  auto_increment = false;
  unique = false;
  default = [];
  check = [];
  references = [];
}

abbrev pub schema : TableSchema
schema = record {
  name = codes "t";
  columns = column "id" type_int ∷ column "s" type_text ∷ column "b" type_bool ∷ [];
}

abbrev pub values : List (Cell toy)
values = some (int32 (pos 7)) ∷ some (text (codes "hi")) ∷ none ∷ []

abbrev first_bytes : List ℕ
first_bytes = 4 ∷ 7 ∷ 0 ∷ 0 ∷ 0 ∷ 0 ∷ 0 ∷ 0 ∷ 0 ∷ 0 ∷ 0 ∷ 0 ∷ 0 ∷ 0 ∷ 2 ∷ 0 ∷ b'h' ∷ b'i' ∷ []

values-Typed : AllTyped toy schema.columns values
values-Typed = (is_int (omega arith), (is_text, (is_missing type_bool, tt)))

deserialize-serialize_row_example :
    (bs : Bytes) × (serialize_row toy values schema ≡ ok bs)
    × (deserialize_row toy bs schema ≡ ok values)
deserialize-serialize_row_example =
    deserialize-serialize_row toy toy_back toy_word schema values values-Typed (omega arith)
      (omega arith)

values_bytes : serialize_row toy values schema ≡ ok first_bytes
unfolding serialize_row put_columns put_column bitmap bitmap_byte value_int32 to_word32 sprint_value
    le_bytes
values_bytes = refl

abbrev file : DbFile
file = record { content = zeros; size = 0; read_fails = λ _. false; write_fails = λ _. false }

abbrev pub pool : BufferPool
pool = new_buffer_pool 1 (open_disk file)

open_disk-Sane_example :
    Sane (new_buffer_pool 1 (open_disk file)) × ((open_disk file).page_count ≡ 1)
open_disk-Sane_example = open_disk-Sane file refl 1

abbrev table : HeapFile
table = record { schema = schema; pool = pool; locked = false }

pub table-Sane : Sane table.pool
table-Sane = (open_disk-Sane file refl 1).0

get_row-insert_row_example : InsertedRow toy table values (insert_row toy (2 ^ 51) table values)
get_row-insert_row_example =
    get_row-insert_row toy toy_back toy_word (2 ^ 51) table values first_bytes (omega arith) refl
      table-Sane values-Typed (omega arith) (omega arith) values_bytes (omega arith)

small : table_id schema < 2 ^ 32
unfolding hash_string
small = omega arith

insert_bytes-Inserting_run :
    Inserting pool first_bytes (insert_bytes (2 ^ 51) pool (table_id schema) first_bytes)
insert_bytes-Inserting_run =
    insert_bytes-Inserting (2 ^ 51) pool (table_id schema) first_bytes (omega arith) table-Sane
      small (omega arith) (omega arith)

-- the pool with the row in it
abbrev filled : Outcome Rid × BufferPool
filled = insert_bytes (2 ^ 51) pool (table_id schema) first_bytes

abbrev rid : Rid
rid = record { page_id = 1; slot_id = 0 }

filled-ok : filled.0 ≡ ok rid
unfolding insert_bytes put_found put_new put_data find_page search_page set_table fetch_page
    new_buffer_pool open_disk allocate_page read_page new_page read_header write_header get_uint
    put_uint load_page find_free Page.insert_row can_fit free_space set_slot update_page unpin_page
    hash_string
filled-ok = refl

stored_row :
    (r : Outcome Rid × BufferPool)
    → Inserting pool first_bytes r
    → r.0 ≡ ok rid
    → Sane r.1 × (row_at r.1 rid ≡ ok first_bytes)
stored_row r (stored at bp' t) e =
    let same : at ≡ rid = ok_inj e in
    (t.sane, subst (λ x. row_at bp' x ≡ ok first_bytes) same t.stored)
stored_row r (refused x bp' which v kept) e = absurd (ground arith)

filled-Sane : Sane filled.1 × (row_at filled.1 rid ≡ ok first_bytes)
filled-Sane = stored_row filled insert_bytes-Inserting_run filled-ok

filled_pages : filled.1.disk.page_count ≡ 2
unfolding insert_bytes put_found put_new put_data find_page search_page set_table fetch_page
    new_buffer_pool open_disk allocate_page read_page new_page read_header write_header get_uint
    put_uint load_page find_free Page.insert_row can_fit free_space set_slot update_page unpin_page
    hash_string
filled_pages = refl

abbrev filled_table : HeapFile
filled_table = record { schema = schema; pool = filled.1; locked = false }

delete_row-Removing_example :
    (bp' : BufferPool) × (r : Outcome (Unit {0})) × (delete_row filled_table rid
      ≡ (r, record filled_table { pool = bp' }))
    × Removing filled.1 rid (r, bp')
delete_row-Removing_example =
    delete_row-Removing filled_table rid first_bytes refl filled-Sane.0 (omega arith, omega arith)
      (omega (arith, filled_pages)) filled-Sane.1

update_row-Updating_example :
    Updating toy filled_table rid first_bytes (update_row toy 9 filled_table rid values)
update_row-Updating_example =
    update_row-Updating toy 9 filled_table rid values first_bytes first_bytes refl filled-Sane.0
      (omega arith, omega arith) (omega (arith, filled_pages)) filled-Sane.1 values_bytes
      (omega arith) (omega arith)

insert_bytes-Inserting_example :
    Inserting pool first_bytes (insert_bytes (2 ^ 51) pool (table_id schema) first_bytes)
insert_bytes-Inserting_example =
    insert_bytes-Inserting (2 ^ 51) pool (table_id schema) first_bytes (omega arith) table-Sane
      small (omega arith) (omega arith)
