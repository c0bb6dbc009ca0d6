-- ===== src/Parser/Syntax.antt =====
-- src/Parser/ParsedExpression.hpp: the tree that the parser makes of an expression, with a
-- constructor for each of its kinds. The file, line and column of a node are left out.
use voidscript.Base.{Bytes}
use voidscript.Value.{Value}

-- A list of arguments and a list of members are types of their own, each with its own end.
mutual
  pub data ParsedExpr : Type 0 where
    literal : Value → ParsedExpr
    variable : Bytes → ParsedExpr
    binary : Bytes → ParsedExpr → ParsedExpr → ParsedExpr
    unary : Bytes → ParsedExpr → ParsedExpr
    ternary : ParsedExpr → ParsedExpr → ParsedExpr → ParsedExpr
    call : Bytes → ParsedArgs → ParsedExpr
    method_call : ParsedExpr → Bytes → ParsedArgs → ParsedExpr
    new_object : Bytes → ParsedArgs → ParsedExpr
    object : ParsedMembers → ParsedExpr
    member : ParsedExpr → Bytes → ParsedExpr
    enum_access : Bytes → Bytes → ParsedExpr

  pub data ParsedArgs : Type 0 where
    no_args : ParsedArgs
    arg : ParsedExpr → ParsedArgs → ParsedArgs

  pub data ParsedMembers : Type 0 where
    no_members : ParsedMembers
    member_of : Bytes → ParsedExpr → ParsedMembers → ParsedMembers
