-- ===== src/Lang/Ast.antt =====
-- include/xrune/lang/parser/ast.hpp: the syntax tree. A node has its line and its column first. `D` is
-- double; an expression that the source leaves null is not there.
pub mod Dump
use xrune.Base.{ℕ, ℤ, Bool, List, Option}
use xrune.Json.{Text}
use xrune.Lang.Token.{Tok}

mutual
  -- expr
  pub data Expr (D : Type 0) : Type 0 where
    number : ℕ → ℕ → D → Expr D
    string : ℕ → ℕ → Text → Expr D
    boolean : ℕ → ℕ → Bool → Expr D
    ident : ℕ → ℕ → Text → Expr D
    call : ℕ → ℕ → Text → Args D → Expr D
    unary : ℕ → ℕ → Tok → Expr D → Expr D
    binary : ℕ → ℕ → Tok → Expr D → Expr D → Expr D
    select : ℕ → ℕ → ℤ → Expr D → Expr D

  -- std::vector<argument>: each with its name, "" for none.
  pub data Args (D : Type 0) : Type 0 where
    no_args : Args D
    arg : ℕ → ℕ → Text → Expr D → Args D → Args D

pub record PortPath : Type 0 where
  pub parts : List Text
  pub line : ℕ
  pub col : ℕ

-- stmt
pub data Stmt (D : Type 0) : Type 0 where
  binding : ℕ → ℕ → Text → Expr D → Stmt D
  wire : ℕ → ℕ → Expr D → Stmt D
  modulate : ℕ → ℕ → Expr D → PortPath → Stmt D
  explicit_wire : ℕ → ℕ → Expr D → Text → ℤ → Stmt D
  input : ℕ → ℕ → Text → Args D → Stmt D
  out : ℕ → ℕ → Expr D → Text → ℤ → Stmt D

pub record Param (D : Type 0) : Type 0 where
  pub name : Text
  pub default_value : Option (Expr D)
  pub line : ℕ
  pub col : ℕ

-- rune_def and sigil_def
pub record Def (D : Type 0) : Type 0 where
  pub name : Text
  pub params : List (Param D)
  pub body : List (Stmt D)
  pub line : ℕ
  pub col : ℕ

pub record Program (D : Type 0) : Type 0 where
  pub runes : List (Def D)
  pub sigils : List (Def D)
