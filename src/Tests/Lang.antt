-- ===== src/Tests/Lang.antt =====
-- A program in the .xrune language, and the theorems at it. A number here is the value of its decimal digits.
use xrune.Base.{
  true, map, ℕ, ◌+◌, ◌-◌, ◌*◌, ◌≡◌, ◌≢◌, refl, pos, negsuc, some, none, [], ◌∷◌, ◌++◌, ◌==◌, Finds,
  pos_part,
}
use xrune.Json.{Text, codes}
use xrune.Lang.Token.{Token, same, Tok}
use xrune.Lang.Ast.{Expr, no_args, arg, Stmt, Program}
use xrune.Lang.Ast.Dump.{dump, dump_stmt, dump_expr, binop_str}
use xrune.Lang.Lexer.Scan.{lex}
use xrune.Lang.Lexer.Scan.Spacing.{WellSpaced, lex-WellSpaced}
use xrune.Lang.Parser.{
  CDoubles, skip_newlines, adv_while, expect, adv, parse_index, binprec, error, error_at,
}
use xrune.Lang.Parser.Expressions.{parse_expr, parse_binary}
use xrune.Lang.Parser.Written.{Place, state, mk, written, IsOperation}
use xrune.Lang.Parser.Grouping.{parse_expr-written}
use xrune.Lang.Parser.Statements.{
  parse, parse_tokens, parse_program, program_loop, parse_def, parse_params, params_loop, body_loop,
  parse_statement, parse_out,
}
use xrune.Lang.Parser.Total.{parse-ne-none}

abbrev decimal : ℕ → Text → ℕ
decimal n [] = n
decimal n (b ∷ bs) = decimal (n * 10 + (b - b'0')) bs

abbrev decimals : CDoubles ℕ
decimals = record {
  zero_value = 0;
  strtod = decimal 0;
  to_int = pos;
  of_int = pos_part;
  equals = ◌==◌;
}

abbrev source : Text
source =
    codes "rune a(x)"
    ++ b'\n' ∷ codes "b = -x[1] : f(2, k=3 + 4 * 5)"
    ++ b'\n' ∷ codes "out b as main"
    ++ b'\n' ∷ codes "end"

abbrev parsed : Program ℕ
parsed = record {
  runes =
      record {
        name = codes "a";
        params = record { name = codes "x"; default_value = none; line = 1; col = 8 } ∷ [];
        body =
            Stmt.binding 2 1 (codes "b") (
              Expr.binary 2 11 Tok.colon
                (Expr.unary 2 5 Tok.minus (Expr.select 2 7 (pos 1) (Expr.ident 2 6 (codes "x"))))
                (Expr.call 2 13 (codes "f") (
                  arg 2 15 [] (Expr.number 2 15 2) (
                    arg 2 18 (codes "k")
                      (Expr.binary 2 22 Tok.plus (Expr.number 2 20 3)
                        (Expr.binary 2 26 Tok.star (Expr.number 2 24 4) (Expr.number 2 28 5)))
                      no_args))))
            ∷ Stmt.out 3 1 (Expr.ident 3 5 (codes "b")) (codes "main") (negsuc 0)
            ∷ [];
        line = 1;
        col = 1;
      }
      ∷ [];
  sigils = [];
}

source_parses : parse decimals source ≡ some (parsed, [])
unfolding lex parse parse_tokens parse_program skip_newlines adv_while program_loop parse_def expect
    adv parse_params params_loop body_loop parse_statement parse_expr parse_binary parse_index
    binprec parse_out error error_at
source_parses = refl

-- Operators are grouped as they bind.
source_dumps :
    dump (λ n. (b'0' + n) ∷ []) (λ i. (b'0' + pos_part i) ∷ []) parsed
    ≡ codes "rune a(x)\n  b = ((-x[1]) : f(2, k=(3 + (4 * 5))))\n  out b as main\nend\n"
unfolding dump dump_stmt dump_expr binop_str
source_dumps = refl

lex-WellSpaced_example : Finds (λ r. WellSpaced none 0 r.0) (lex 0 (decimal 0) source [])
lex-WellSpaced_example = lex-WellSpaced 0 (decimal 0) source []

parse-ne-none_example : parse decimals source ≢ none
parse-ne-none_example = parse-ne-none decimals source

-- 1 - 2 - 3 * -(4 + x)[5], which needs the parentheses that it has.
abbrev grouped : Expr ℕ
grouped =
    Expr.binary 1 7 Tok.minus (Expr.binary 1 3 Tok.minus (Expr.number 1 1 1) (Expr.number 1 5 2)) (
      Expr.binary 1 11 Tok.star (Expr.number 1 9 3) (
        Expr.unary 1 13 Tok.minus (
          Expr.select 1 21 (pos 5)
            (Expr.binary 1 17 Tok.plus (Expr.number 1 15 4) (Expr.ident 1 19 (codes "x"))))))

abbrev line_end : Place ℕ
line_end = (mk decimals Tok.newline 1 24, [])

grouped_kinds :
    map (λ (t : Token ℕ). t.kind) (written decimals 1 true grouped line_end).1
    ≡ Tok.minus ∷ Tok.number ∷ Tok.minus ∷ Tok.number ∷ Tok.star ∷ Tok.minus ∷ Tok.l_paren
      ∷ Tok.number ∷ Tok.plus ∷ Tok.ident ∷ Tok.r_paren ∷ Tok.l_bracket ∷ Tok.number ∷ Tok.r_bracket
      ∷ Tok.newline ∷ []
unfolding written binprec same
grouped_kinds = refl

grouped-IsOperation : IsOperation decimals grouped
unfolding IsOperation binprec
grouped-IsOperation = (refl, (refl, tt, tt), (refl, tt, (refl, (refl, refl, refl, (refl, tt, tt)))))

parse_expr-written_example :
    parse_expr decimals true (state (written decimals 1 true grouped line_end) [])
    ≡ some (grouped, state line_end [])
unfolding binprec same
parse_expr-written_example =
    parse_expr-written decimals grouped true line_end [] grouped-IsOperation refl refl
