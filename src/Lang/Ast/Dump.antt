-- ===== src/Lang/Ast/Dump.antt =====
-- include/xrune/lang/parser/ast.hpp: the debug dump. print_f and print_d are std::to_string of a double
-- and of an int. What the source appends to `out` is the result here.
use xrune.Base.{ℤ, Bool, List, [], ◌∷◌, ◌++◌, ◌==◌, if◌then◌else◌, length, map}
use xrune.Json.{Text, codes}
use xrune.Lang.Token.{Tok}
use xrune.Lang.Ast.{Expr, Args, no_args, arg, Stmt, Param, Def, Program}

unfoldable pub binop_str : Tok → Text
binop_str Tok.colon = codes ":"
binop_str Tok.comma = codes ","
binop_str Tok.split = codes "<:"
binop_str Tok.merge = codes ":>"
binop_str Tok.plus = codes "+"
binop_str Tok.minus = codes "-"
binop_str Tok.star = codes "*"
binop_str Tok.slash = codes "/"
binop_str Tok.percent = codes "%"
binop_str _ = codes "?"

abbrev is_empty : Text → Bool
is_empty t = length t == 0

-- Each text behind the separator, but for the first.
abbrev separated : Text → List Text → Text
separated sep [] = []
separated sep (t ∷ []) = t
separated sep (t ∷ ts) = t ++ sep ++ separated sep ts

module _ {D : Type 0} (print_f : D → Text) (print_d : ℤ → Text) where
  unfoldable mutual
    pub dump_expr : Expr D → Text
    dump_expr (Expr.number l c n) = print_f n
    dump_expr (Expr.string l c text) = b'"' ∷ text ++ b'"' ∷ []
    dump_expr (Expr.boolean l c b) = if b then codes "true" else codes "false"
    dump_expr (Expr.ident l c text) = text
    dump_expr (Expr.unary l c op a) = codes "(-" ++ dump_expr a ++ codes ")"
    dump_expr (Expr.select l c index a) = dump_expr a ++ codes "[" ++ print_d index ++ codes "]"
    dump_expr (Expr.binary l c op a b) =
        codes "("
        ++ dump_expr a
        ++ codes " "
        ++ binop_str op
        ++ codes " "
        ++ dump_expr b
        ++ codes ")"
    dump_expr (Expr.call l c text args) = text ++ codes "(" ++ dump_args args ++ codes ")"

    -- The arguments of a call, and of an input.
    pub dump_args : Args D → Text
    dump_args no_args = []
    dump_args (arg l c name value rest) =
        (if is_empty name then [] else name ++ codes "=") ++ dump_expr value ++ dump_more rest

    pub dump_more : Args D → Text
    dump_more no_args = []
    dump_more (arg l c name value rest) =
        codes ", "
        ++ (if is_empty name then [] else name ++ codes "=")
        ++ dump_expr value
        ++ dump_more rest

  unfoldable pub dump_stmt : Stmt D → Text
  dump_stmt (Stmt.binding l c name value) = name ++ codes " = " ++ dump_expr value
  dump_stmt (Stmt.wire l c e) = dump_expr e
  dump_stmt (Stmt.modulate l c source target) =
      dump_expr source ++ codes " ~> " ++ separated (codes ".") target.parts
  dump_stmt (Stmt.explicit_wire l c source node index) =
      dump_expr source ++ codes " -> " ++ node ++ codes "[" ++ print_d index ++ codes "]"
  dump_stmt (Stmt.input l c name args) =
      codes "input " ++ name ++ codes "(" ++ dump_args args ++ codes ")"
  dump_stmt (Stmt.out l c e terminal index) =
      codes "out " ++ dump_expr e ++ (if is_empty terminal then [] else codes " as " ++ terminal)

  abbrev dump_body : List (Stmt D) → Text
  dump_body [] = []
  dump_body (s ∷ ss) = codes "  " ++ dump_stmt s ++ b'\n' ∷ dump_body ss

  abbrev dump_defs : Text → List (Def D) → Text
  dump_defs word [] = []
  dump_defs word (d ∷ ds) =
      word
      ++ d.name
      ++ codes "("
      ++ separated (codes ", ") (map (λ (p : Param D). p.name) d.params)
      ++ codes ")\n"
      ++ dump_body d.body
      ++ codes "end\n"
      ++ dump_defs word ds

  unfoldable pub dump : Program D → Text
  dump p = dump_defs (codes "sigil ") p.sigils ++ dump_defs (codes "rune ") p.runes
