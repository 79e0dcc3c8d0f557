-- ===== src/Router/Syntax.antt =====
-- The syntax trees of the crate sqlparser, as far as src/query_router.rs looks into them. An identifier
-- is its text.
use pgcat.Prelude.{ℕ, Bool, Option, List}
use pgcat.Server.Parameters.{Text}

pub data BinaryOperator : Type 0 where
  eq_op and_op or_op other_op : BinaryOperator

-- A numeric literal and a placeholder by their texts. Every other form is one that no function looks
-- into, such as a parenthesis, a negation or a call; its number tells such expressions apart.
pub data Expr : Type 0 where
  binary_op : Expr → BinaryOperator → Expr → Expr
  identifier : Text → Expr
  compound_identifier : List Text → Expr
  number : Text → Expr
  placeholder : Text → Expr
  other_expr : ℕ → Expr

-- The name of a table, or none for another kind of relation.
abbrev pub Relation : Type 0
Relation = Option (List Text)

-- A join has a condition here if it is an inner join with ON.
pub record Join : Type 0 where
  pub relation : Relation
  pub condition : Option Expr

pub record TableWithJoins : Type 0 where
  pub relation : Relation
  pub joins : List Join

-- The body of a query; a nested query is its body.
pub data Body : Type 0 where
  select : List TableWithJoins → Option Expr → Body
  values : List (List Expr) → Body
  nested : Body → Body
  insert_body update_body other_body : Body

pub record Query : Type 0 where
  pub body : Body
  pub has_locks : Bool

-- `unsupported` says that one of the parts is there that Postgres does not have.
pub record Insert : Type 0 where
  pub table_name : List Text
  pub columns : List Text
  pub source : Option Body
  pub unsupported : Bool

pub record Delete : Type 0 where
  pub from_table : List Text
  pub selection : Option Expr
  pub using_tables : Option (List TableWithJoins)
  pub unsupported : Bool

-- An assignment is the text of its target.
pub record Update : Type 0 where
  pub table : TableWithJoins
  pub assignments : List Text
  pub from_tables : Option TableWithJoins
  pub selection : Option Expr

pub data Statement : Type 0 where
  start_transaction : Statement
  query : Query → Statement
  insert : Insert → Statement
  delete : Delete → Statement
  update : Update → Statement
  other : Statement
