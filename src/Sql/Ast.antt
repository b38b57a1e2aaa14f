-- ===== src/Sql/Ast.antt =====
-- pkg/parser/ast.go: the statements.
use agent_db.Prelude.{Bool, Option, List}
use agent_db.Int64.{ℤ}
use agent_db.Sql.Text.{Bytes}

pub data JoinType : Type 0 where
  inner_join left_join right_join : JoinType

-- what parseExpression makes; a FuncCall is not parsed, and a BinaryOp only as a condition
pub data Expression : Type 0 where
  literal identifier : Bytes → Expression

pub record BinaryOp : Type 0 where
  pub left : Expression
  pub operator : Bytes
  pub right : Expression

pub record Aggregate : Type 0 where
  pub func : Bytes
  pub column : Bytes

pub record JoinClause : Type 0 where
  pub join_type : JoinType
  pub table : Bytes
  pub condition : BinaryOp

pub record SelectStatement : Type 0 where
  pub table : Bytes
  pub columns : List Bytes
  pub aggregates : List Aggregate
  pub condition : Option BinaryOp
  pub join : Option JoinClause
  pub order_by : Bytes
  pub order_dir : Bytes
  pub limit : ℤ
  pub offset : ℤ

pub record InsertStatement : Type 0 where
  pub table : Bytes
  pub columns : List Bytes
  pub values : List Expression

pub record ColumnDef : Type 0 where
  pub name : Bytes
  pub col_type : Bytes
  pub not_null : Bool
  pub primary_key : Bool
  pub auto_increment : Bool
  pub unique : Bool
  pub default : Bytes
  pub check : Bytes
  pub references : Bytes

pub record CreateTableStatement : Type 0 where
  pub table : Bytes
  pub columns : List ColumnDef
  pub if_not_exists : Bool

pub record CreateIndexStatement : Type 0 where
  pub index_name : Bytes
  pub table : Bytes
  pub column : Bytes

pub record DeleteStatement : Type 0 where
  pub table : Bytes
  pub condition : Option BinaryOp

pub record UpdatePair : Type 0 where
  pub column : Bytes
  pub value : Expression

pub record UpdateStatement : Type 0 where
  pub table : Bytes
  pub updates : List UpdatePair
  pub condition : Option BinaryOp

pub record DropTableStatement : Type 0 where
  pub table : Bytes
  pub if_exists : Bool

pub data Statement : Type 0 where
  select : SelectStatement → Statement
  insert : InsertStatement → Statement
  create_table : CreateTableStatement → Statement
  create_index : CreateIndexStatement → Statement
  delete : DeleteStatement → Statement
  update : UpdateStatement → Statement
  drop_table : DropTableStatement → Statement
