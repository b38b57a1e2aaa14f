-- ===== src/Lib.antt =====
-- A verification library for AgentDB, an embedded database with a SQL front end in Go.
--
-- The program's parts and the files that model them:
--   * pkg/storage/page.go, slotted pages of 4096 bytes: Storage/Page.antt. A page is its bytes, its
--     id and its dirty flag; uint16 arithmetic wraps, a slice bound past the array is a panic.
--   * pkg/storage/disk_manager.go: Storage/Disk.antt. The file is its content and its size; which
--     reads and writes fail is up to the environment.
--   * pkg/storage/buffer_pool.go: Storage/BufferPool.antt. Frames, the page map and the list of
--     recent use; `view` is what the pool stands for: a page's bytes, cached or on the disk.
--   * pkg/storage/row.go: Storage/Value.antt (values and their texts) and Storage/Row.antt (the bytes
--     of a row); floats are a parameter (`Floats`).
--   * pkg/storage/heap.go: Storage/Heap.antt, the rows of a table over the buffer pool. `row_at` is
--     what the heap file stands for: a partial map from row ids to rows. `Sane` is its invariant.
--   * pkg/index/node.go: Index/Node.antt (operations) and Index/Codec.antt (bytes of a node).
--   * pkg/index/btree.go: Index/BTree.antt, over an interface of a disk of pages (`NodeDisk`),
--     which pkg/storage/index_adapter.go fills: Index/Adapter.antt.
--   * pkg/parser: Sql/Lexer.antt (lexer.go), Sql/Ast.antt (ast.go), and parser.go in Sql/Tokens.antt
--     (position, expressions, conditions), Sql/Select.antt, Sql/Insert.antt, Sql/Create.antt,
--     Sql/Change.antt (DELETE, UPDATE, DROP) and Sql/Parse.antt. Sql/Print.antt writes statements as
--     tokens, Sql/Text.antt has the texts.
--   * pkg/executor/executor.go, transactions: Executor/Transaction.antt, over an interface of Execute
--     and FlushAll (`Engine`), which Executor/Transaction/DatabaseEngine.antt fills. pkg/executor/join.go: Executor/Join.antt (the loops, behind the
--     scans of the tables) and Executor/Present.antt (WHERE, ORDER BY, LIMIT, the columns).
--   * pkg/executor/executor.go, statements, and pkg/catalog/catalog.go: Executor/Query.antt (conditions,
--     order, limits, aggregates) and Executor/Database.antt with a child for each kind of statement.
--     The state is the tables, the catalog, the names of the indexes and the buffer pool; whether
--     files can be written, random numbers and Go's sort are parameters.
--   * pkg/graph/graph.go, node.go and edge.go: Graph.antt, the graph in memory with its indexes;
--     Graph/Steps.antt has its operations as a step relation, Graph/Calls.antt the references and the
--     paths of calls, whose recursion runs on the names that a path may still get.
--   * Outcome.antt: the results of Go code, a value, an error, a panic or a deadlock.
--     Bytes.antt: byte arrays and little-endian numbers. Int64.antt: int64 and its conversions.
--   * Tests.antt: runs of the model.
--
-- The pages of the heap lie in one file, behind the buffer pool. An index has a file and a disk manager
-- of its own, which the index adapter calls.
--
-- Bounds and fuel. The recursions of the tree take fuel, which stands for the stack; a theorem that
-- runs them says how much it needs. The binary search runs on the number of keys plus one, which is
-- always enough, since each round shrinks the range. The loops of the lexer and the parser give
-- `hangs` without fuel, the search and the scan of a heap file `deadlock`; a file has less than 2^51
-- pages, since offsets are int64, so that 2^51 rounds are enough for it; the lexer runs on the length
-- of its input plus one. Mutexes are left out where a method is one step; that of a heap file is a
-- flag, since UpdateRow calls InsertRow.
--
-- Not modelled: printing and logs, opening and closing files, the catalog's JSON, the trees that
-- CREATE INDEX fills, which no statement reads, the unused checks of constraints.go, the
-- graph's pages with their JSON, its traversals and the resolution of calls, the agents' memory, the
-- snapshots, the configuration, the agents and the servers, which are I/O or services, or lie outside the model so far.
mod Prelude
pub mod Outcome
pub mod Bytes
pub mod Storage
pub mod Int64
pub mod Int32
pub mod Index
pub mod Sql
pub mod Executor
pub mod Graph
mod Tests
