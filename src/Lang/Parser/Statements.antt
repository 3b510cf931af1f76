-- ===== src/Lang/Parser/Statements.antt =====
-- include/xrune/lang/parser/parser.hpp: statements, definitions and programs, and parse(). `none` means
-- that a loop does not end.
use xrune.Base.{
  ℕ, zero, suc, ◌+◌, negsuc, true, false, ◌&&◌, ◌||◌, Option, none, some, List, [], ◌∷◌, ◌==◌, ltb,
  if◌then◌else◌, length, ◌>>=◌,
}
use xrune.Json.{Text, codes}
use xrune.Lang.Token.{Tok, Token, Diagnostic, same}
use xrune.Lang.Ast.{PortPath, Stmt, Param, Def, Program}
use xrune.Lang.Lexer.Scan.{lex}
use xrune.Lang.Parser.{
  CDoubles, ParseState, peek, at, adv, error, error_at, expect, skip_newlines, synchronize,
  parse_index,
}
use xrune.Lang.Parser.Expressions.{enough, parse_expr, parse_call_args}

module _ {D : Type 0} (c : CDoubles D) where
  -- Each loop of the parser takes a token in a pass.
  unfoldable pub params_loop : ℕ → ParseState D → Option (List (Param D) × ParseState D)
  params_loop zero s = none
  params_loop (suc f) s =
      let (nm, s₁) = expect Tok.ident (codes "parameter name") s in
      let given = parse_expr c true (adv s₁) >>= λ (e, s₂). some (some e, s₂) in
      (if at Tok.assign s₁ then given else some (none, s₁)) >>= λ (value, s₂).
      let pm : Param D = record {
        name = nm.text;
        default_value = value;
        line = nm.line;
        col = nm.col;
      } in
      let more = params_loop f (adv s₂) >>= λ (ps, s₃). some (pm ∷ ps, s₃) in
      if at Tok.comma s₂ then more else some (pm ∷ [], (expect Tok.r_paren (codes "')'") s₂).1)

  unfoldable pub parse_params : ParseState D → Option (List (Param D) × ParseState D)
  parse_params s =
      let s₁ = (expect Tok.l_paren (codes "'('") s).1 in
      if at Tok.r_paren s₁ then some ([], adv s₁) else params_loop (length s₁.ahead + 1) s₁

  unfoldable pub parts_loop : ℕ → ParseState D → Option (List Text × ParseState D)
  parts_loop zero s = none
  parts_loop (suc f) s =
      let (t, s₁) = expect Tok.ident (codes "identifier after '.'") (adv s) in
      let more = parts_loop f s₁ >>= λ (ts, s₂). some (t.text ∷ ts, s₂) in
      if at Tok.dot s then more else some ([], s)

  unfoldable pub parse_port_path : ParseState D → Option (PortPath × ParseState D)
  parse_port_path s =
      let (first, s₁) = expect Tok.ident (codes "port path (node.port)") s in
      parts_loop (length s₁.ahead + 1) s₁ >>= λ (parts, s₂). some (
        record { parts = first.text ∷ parts; line = s.now.line; col = s.now.col },
        if ltb (length (first.text ∷ parts)) 2
            then error_at (codes "modulation target must be node.port") s.now.line s.now.col s₂
            else s₂,
      )

  unfoldable pub parse_input : ParseState D → Option (Stmt D × ParseState D)
  parse_input s =
      let (nm, s₁) = expect Tok.ident (codes "terminal name") (adv s) in
      do
        (args, s₂) ← parse_call_args c (enough c s₁) s₁
        some (Stmt.input s.now.line s.now.col nm.text args, s₂)

  unfoldable pub parse_out : ParseState D → Option (Stmt D × ParseState D)
  parse_out s =
      let s₁ = adv s in
      let (index, s₂) = parse_index c (adv s₁) in
      let s₃ = if at Tok.l_bracket s₁ then (expect Tok.r_bracket (codes "']'") s₂).1 else s₁ in
      let out_index = if at Tok.l_bracket s₁ then index else negsuc 0 in
      parse_expr c false s₃ >>= λ (e, s₄).
      let (t, s₅) = expect Tok.ident (codes "terminal name after 'as'") (adv s₄) in
      let named = at Tok.kw_as s₄ in
      some (
        Stmt.out s.now.line s.now.col e (if named then t.text else []) out_index,
        if named then s₅ else s₄,
      )

  unfoldable pub parse_statement : ParseState D → Option (Stmt D × ParseState D)
  parse_statement s =
      let l = s.now.line in
      let c' = s.now.col in
      let binding =
        parse_expr c false (adv (adv s)) >>= λ (e, s₁). some (Stmt.binding l c' s.now.text e, s₁) in
      let led = parse_expr c false s >>= λ (e, s₁).
      let modulated =
        parse_port_path (adv s₁) >>= λ (target, s₂). some (Stmt.modulate l c' e target, s₂) in
      let (tn, s₂) = expect Tok.ident (codes "target node name") (adv s₁) in
      let s₃ = (expect Tok.l_bracket (codes "'['") s₂).1 in
      let (index, s₄) = parse_index c s₃ in
      let s₅ = (expect Tok.r_bracket (codes "']'") s₄).1 in
      if at Tok.modulate s₁
      then modulated
      else if at Tok.arrow s₁
      then some (Stmt.explicit_wire l c' e tn.text index, s₅)
      else some (Stmt.wire l c' e, s₁) in
      if at Tok.kw_input s
      then parse_input s
      else if at Tok.kw_out s
      then parse_out s
      else if at Tok.ident s && same (peek s).kind Tok.assign
      then binding
      else led

  -- if (pos == before) adv()
  abbrev pub pass : ParseState D → ParseState D → ParseState D
  pass before s = if length s.ahead == length before.ahead then adv s else s

  unfoldable pub body_loop : ℕ → ParseState D → Option (List (Stmt D) × ParseState D)
  body_loop zero s = none
  body_loop (suc f) s =
      let more = parse_statement s >>= λ (stmt, s₁).
      let recovered = synchronize (error (codes "expected end of line after statement") s₁) in
      (if at Tok.newline s₁ || at Tok.kw_end s₁ || at Tok.end s₁ then some s₁ else recovered)
      >>= λ s₂. skip_newlines (pass s s₂) >>= λ s₃.
          body_loop f s₃ >>= λ (stmts, s₄). some (stmt ∷ stmts, s₄) in
      if at Tok.kw_end s || at Tok.end s then some ([], s) else more

  unfoldable pub parse_def : ParseState D → Option (Def D × ParseState D)
  parse_def s =
      let (name, s₁) = expect Tok.ident (codes "definition name") (adv s) in
      let given = parse_params s₁ in
      do
        (params, s₂) ← if at Tok.l_paren s₁ then given else some ([], s₁)
        s₃ ← skip_newlines s₂
        (body, s₄) ← body_loop (length s₃.ahead + 1) s₃
        some (
          record {
            name = name.text;
            params = params;
            body = body;
            line = s.now.line;
            col = s.now.col;
          },
          (expect Tok.kw_end (codes "'end'") s₄).1,
        )

  unfoldable pub program_loop : ℕ → ParseState D → Option (Program D × ParseState D)
  program_loop zero s = none
  program_loop (suc f) s =
      let go_on = λ (s₁ : ParseState D). skip_newlines (pass s s₁) >>= λ s₂. program_loop f s₂ in
      let rune = parse_def s >>= λ (d, s₁).
      go_on s₁ >>= λ (p, s₂). some (record p { runes = d ∷ p.runes }, s₂) in
      let sigil = parse_def s >>= λ (d, s₁).
      go_on s₁ >>= λ (p, s₂). some (record p { sigils = d ∷ p.sigils }, s₂) in
      let neither = synchronize (error (codes "expected 'rune' or 'sigil'") s) >>= go_on in
      if at Tok.end s
      then some (record { runes = []; sigils = [] }, s)
      else if at Tok.kw_rune s
      then rune
      else if at Tok.kw_sigil s
      then sigil
      else neither

  unfoldable pub parse_program : ParseState D → Option (Program D × ParseState D)
  parse_program s = do s₁ ← skip_newlines s; program_loop (length s₁.ahead + 1) s₁

  -- parse(), with the diagnostics. `none` also stands for tokens that the lexer did not give.
  unfoldable pub parse_tokens :
      List (Token D) → List Diagnostic → Option (Program D × List Diagnostic)
  parse_tokens [] diags = none
  parse_tokens (t ∷ ts) diags =
      parse_program (record { now = t; ahead = ts; diags = diags }) >>= λ (p, s). some (p, s.diags)

  unfoldable pub parse : Text → Option (Program D × List Diagnostic)
  parse src = do (ts, diags) ← lex c.zero_value c.strtod src []; parse_tokens ts diags
