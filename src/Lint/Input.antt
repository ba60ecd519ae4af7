-- ===== src/Lint/Input.antt =====
-- What go/analysis hands to `run` of analyzer.go: the package's path and imports, its comments, its
-- nodes in the order of the inspector, and what the type checker knows. Texts are code points.
use canonical.Prelude.{Option, List, ℕ}

abbrev pub Text : Type 0
Text = List ℕ

-- go/types: what the analyzer asks of a type.
pub data GoType : Type 0 where
  map_type : GoType
  other_type : GoType
  named : GoType → GoType

-- Type.Underlying
unfoldable pub underlying : GoType → GoType
underlying (named t) = underlying t
underlying map_type = map_type
underlying other_type = other_type

pub record Package : Type 0 where
  pub path : Text
  pub name : Text

-- What an identifier may stand for: a function with its package, if any, and its name.
pub data Object : Type 0 where
  func : Option Package → Text → Object
  other_object : Object

-- go/ast expressions. An identifier is the number of its node.
pub data Expr : Type 0 where
  ident : ℕ → Expr
  selector : Expr → ℕ → Expr
  paren : Expr → Expr
  other_expr : ℕ → Expr

-- ast.Unparen
unfoldable pub unparen : Expr → Expr
unparen (paren e) = unparen e
unparen (ident x) = ident x
unparen (selector e x) = selector e x
unparen (other_expr n) = other_expr n

-- The nodes that the inspector visits: `for key := range x`, and a call of `fun`.
pub data Node : Type 0 where
  range_stmt : Option Expr → Expr → ℕ → Node
  call_expr : Expr → ℕ → Node
  other_node : Node

pub record Position : Type 0 where
  pub filename : Text
  pub line : ℕ

pub record Comment : Type 0 where
  pub text : Text
  pub at : ℕ

-- A file is its comment groups.
abbrev pub File : Type 0
File = List (List Comment)

pub record Pass : Type 0 where
  pub pkg_path : Text
  pub imports : List Text
  pub files : List File
  pub nodes : List Node
  pub position : ℕ → Position
  pub type_of : Expr → Option GoType
  pub uses : ℕ → Option Object

pub record Diagnostic : Type 0 where
  pub pos : ℕ
  pub message : Text
