-- ===== src/Ast.antt =====
-- src/ast.rs: the syntax tree, without spans. A node that holds a list of nodes of its kind has a
-- list type of its own.
use minilang_rs.Prelude.{Bool, List, Option, String}
use minilang_rs.Prelude.Int.{ℤ}

-- `Type`
pub data SourceType : Type 0 where
  int_type bool_type void_type error_type : SourceType

pub data BinaryOp : Type 0 where
  add sub mul div : BinaryOp
  eq ne lt gt le ge : BinaryOp
  and or : BinaryOp

pub data UnaryOp : Type 0 where
  neg not : UnaryOp

mutual
  pub data Expr : Type 0 where
    int_literal : ℤ → Expr
    bool_literal : Bool → Expr
    identifier : String → Expr
    binary : BinaryOp → Expr → Expr → Expr
    unary : UnaryOp → Expr → Expr
    call : String → Args → Expr
    array_index : String → Expr → Expr

  pub data Args : Type 0 where
    no_args : Args
    arg : Expr → Args → Args

mutual
  pub data Stmt : Type 0 where
    var_decl : SourceType → String → Option Expr → Option ℤ → Stmt
    assign : String → Option Expr → Expr → Stmt
    if_stmt : Expr → Block → Else → Stmt
    while_stmt : Expr → Block → Stmt
    return_stmt : Expr → Stmt
    print_stmt : Expr → Stmt
    expr_stmt : Expr → Stmt

  pub data Block : Type 0 where
    end : Block
    stmt : Stmt → Block → Block

  -- `Option<Vec<Stmt>>`
  pub data Else : Type 0 where
    no_else : Else
    else_body : Block → Else

pub record Param : Type 0 where
  pub param_type : SourceType
  pub name : String

pub record Function : Type 0 where
  pub name : String
  pub params : List Param
  pub body : Block

pub record GlobalVar : Type 0 where
  pub var_type : SourceType
  pub name : String
  pub init_expr : Option Expr
  pub array_size : Option ℤ

pub record Program : Type 0 where
  pub globals : List GlobalVar
  pub functions : List Function
