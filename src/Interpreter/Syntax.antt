-- ===== src/Interpreter/Syntax.antt =====
-- The nodes of src/Interpreter/Nodes: expressions and statements. Positions are kept where they name
-- a scope; the parts of a node that only words its messages are left out.
use voidscript.Base.{ℕ, String, Bool, Option, Bytes}
use voidscript.Value.{Value, VarType}

-- An argument list, a member list, a block of statements and the cases of a `switch` are types of
-- their own, each with its own end.
mutual
  pub data Expr : Type 0 where
    literal : Value → Expr
    variable : Bytes → Expr
    unary : String → Expr → Expr
    binary : String → Expr → Expr → Expr
    ternary : Expr → Expr → Expr → Expr
    index : Expr → Expr → Expr
    members : MemberExprs → Expr
    call : Bytes → Args → Expr

  pub data Args : Type 0 where
    no_args : Args
    arg : Expr → Args → Args

  pub data MemberExprs : Type 0 where
    no_members : MemberExprs
    member_expr : Bytes → Expr → MemberExprs → MemberExprs

-- The line and the column of a node.
pub record Position : Type 0 where
  pub line : ℕ
  pub column : ℕ

-- `declare` has a type, a name, an optional initialiser and the `const` flag; `for` an optional
-- initialisation, condition and increment; `try` an optional variable of its `catch`.
mutual
  pub data Stmt : Type 0 where
    declare : VarType → Bytes → Option Expr → Bool → Stmt
    assign : Bytes → Expr → Stmt
    evaluate_only : Expr → Stmt
    return_none : Stmt
    return : Expr → Stmt
    throw : Expr → Stmt
    break_loop : Stmt
    continue_loop : Stmt
    conditional : Expr → Block → Block → Stmt
    while : Position → Expr → Block → Stmt
    for : Position → Block → Option Expr → Block → Block → Stmt
    for_each : Position → Bytes → Bytes → Expr → Block → Stmt
    try : Block → Bytes → Block → Stmt
    switch : Expr → Cases → Block → Stmt
    call_statement : Bytes → Args → Stmt

  infixr 20 ◌⨾◌
  pub data Block : Type 0 where
    done_block : Block
    ◌⨾◌ : Stmt → Block → Block

  pub data Cases : Type 0 where
    no_case : Cases
    case : Expr → Block → Cases → Cases
