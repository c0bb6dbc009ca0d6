-- ===== src/Parser/Runs.antt =====
-- Runs of the loop of `parseParsedExpression` (src/Parser/Parser.cpp), and its single rounds.
pub mod Branches
use voidscript.Parser.Runs.Branches.{
  state, consume_ok, start_of-punctuation_close, start_of-infix, start_of-prefix,
  full_operator-infix, full_operator-prefix, infix-is_eof,
}
use voidscript.Base.{
  ℕ, zero, suc, ◌+◌, ◌≤◌, ◌≡◌, refl, ap, ◌∙◌, Bool, true, false, List, [], ◌∷◌, arith, Bytes, codes,
}
use voidscript.Lexer.Tokens.{Token, is_eof, identifier, punctuation, operator_arithmetic}
use voidscript.Parser.Cursor.{consume_token, identifier_name}
use voidscript.Parser.Expression.{round, run_rounds}
use voidscript.Parser.Grammar.{
  Place, token, Infix, or, Prefix, neg, infix_kind, infix_text, prefix_text, Atom, name_atom,
  number_atom, word_atom, atom_token, IsPlain, atom_meaning,
}
use voidscript.Parser.Lists.{parse_expression_list}
use voidscript.Parser.Literals.{Numerals}
use voidscript.Parser.Operators.{apply_higher, apply_to_parenthesis, has_parenthesis}
use voidscript.Parser.Outcome.{Parser, parsed, pure, ◌>>=◌, ◌>>◌}
use voidscript.Parser.Rounds.{round_at, round_operator, round_close}
use voidscript.Parser.Shunting.{
  Shunting, Start, at_close, at_operator, at_other, start_of, full_operator, push_operator, again,
  stop,
}
use voidscript.Parser.Stacks.{prefix_operator}
use voidscript.Parser.Syntax.{ParsedExpr, ParsedArgs, variable, binary, call}

module _ (num : Numerals) (expr : Parser ParsedExpr) where
  -- With fuel for `m` rounds the loop comes from a state and its tokens to another.
  pub record Leads (m : ℕ) (s : Shunting) (ts : List Token) (s' : Shunting) (ts' : List Token)
      : Type 0 where
    pub at :
        (fuel : ℕ)
        → m ≤ fuel
        → (n : ℕ) × (fuel ≤ n + m) × (run_rounds num expr fuel s ts ≡ run_rounds num expr n s' ts')

  pub Leads-round :
      {s s' : Shunting} {ts ts' : List Token}
      → round num expr s ts ≡ parsed (again s', ts')
      → Leads 1 s ts s' ts'
  unfolding run_rounds
  Leads-round {s} {s'} {ts} {ts'} e = record { at = go }
    where
      go :
          (fuel : ℕ)
          → 1 ≤ fuel
          → (n : ℕ) × (fuel ≤ n + 1)
            × (run_rounds num expr fuel s ts ≡ run_rounds num expr n s' ts')
      go zero h = absurd (omega (arith, h))
      go (suc fuel) h = (fuel, omega arith, rw e refl)

  pub Leads-trans :
      {m k : ℕ} {a b c : Shunting} {ta tb tc : List Token}
      → Leads m a ta b tb
      → Leads k b tb c tc
      → Leads (m + k) a ta c tc
  Leads-trans r q = record {
    at = λ fuel h.
        let (n, l, e) = r.at fuel (omega (arith, h)) in
        let (n', l', e') = q.at n (omega (arith, h, l)) in (n', omega (arith, l, l'), e ∙ e');
  }

  pub Leads-le :
      {m k : ℕ} {a b : Shunting} {ta tb : List Token}
      → Leads m a ta b tb
      → m ≤ k
      → Leads k a ta b tb
  Leads-le r h = record {
    at = λ fuel l. let (n, q, e) = r.at fuel (omega (arith, h, l)) in (n, omega (arith, q, h), e);
  }

  round-start :
      (s : Shunting) (t : Token) (rest : List Token) (st : Start)
      → ((next : Token) → start_of t next ≡ st)
      → round num expr s (t ∷ rest) ≡ round_at expr num t s st (t ∷ rest)
  unfolding round
  round-start s t [] st h = rw (h t) refl
  round-start s t (u ∷ rest) st h = rw (h u) refl

  pub round-stop :
      (s : Shunting) (t : Token) (rest : List Token)
      → ((next : Token) → start_of t next ≡ at_other)
      → round num expr s (t ∷ rest) ≡ parsed (stop s, t ∷ rest)
  round-stop s t rest h = round-start s t rest at_other h ∙ (unfold round_at in refl)

  pub round-ends :
      (s : Shunting) (t : Token) (rest : List Token)
      → ((next : Token) → start_of t next ≡ at_close)
      → has_parenthesis s.ops ≡ false
      → round num expr s (t ∷ rest) ≡ parsed (stop s, t ∷ rest)
  round-ends s t rest h none_open =
      round-start s t rest at_close h ∙ (unfold round_at round_close in rw none_open refl)

  pub round-atom :
      (ops : List Bytes) (out : List ParsedExpr) (u a : Bool) (p : Place) (b : Atom)
      (rest : List Token)
      → IsPlain b
      → round num expr (state ops out u a) (atom_token p b ∷ rest)
        ≡ parsed (again (state ops (atom_meaning num b ∷ out) false false), rest)
  unfolding round
  round-atom ops out u a p (name_atom name) [] h = rw h refl
  round-atom ops out u a p (name_atom name) (v ∷ rest) h = rw h refl
  round-atom ops out u a p (number_atom text) [] h = refl
  round-atom ops out u a p (number_atom text) (v ∷ rest) h = refl
  round-atom ops out u a p (word_atom text) [] h = rw h refl
  round-atom ops out u a p (word_atom text) (v ∷ rest) h = rw h refl

  pub round-group :
      (ops : List Bytes) (out : List ParsedExpr) (a : Bool) (p : Place) (rest : List Token)
      → round num expr (state ops out true a) (token p punctuation (codes "(") ∷ rest)
        ≡ parsed (again (state (codes "(" ∷ ops) out true a), rest)
  unfolding round
  round-group ops [] a p [] = refl
  round-group ops [] a p (v ∷ rest) = refl
  round-group ops (e ∷ out) a p [] = refl
  round-group ops (e ∷ out) a p (v ∷ rest) = refl

  closes :
      (ops ops' : List Bytes) (out out' : List ParsedExpr) (u a : Bool) (p : Place)
      (rest : List Token)
      → has_parenthesis ops ≡ true
      → apply_to_parenthesis ops out ≡ parsed (ops', out')
      → round_close expr (state ops out u a) (token p punctuation (codes ")") ∷ rest)
        ≡ parsed (again (state ops' out' false a), rest)
  unfolding round_close
  closes ops ops' out out' u a p [] h e = rw (h, e) refl
  closes ops ops' out out' u a p (v ∷ rest) h e = rw (h, e) refl

  pub round-close :
      (ops ops' : List Bytes) (out out' : List ParsedExpr) (u a : Bool) (p : Place)
      (rest : List Token)
      → has_parenthesis ops ≡ true
      → apply_to_parenthesis ops out ≡ parsed (ops', out')
      → round num expr (state ops out u a) (token p punctuation (codes ")") ∷ rest)
        ≡ parsed (again (state ops' out' false a), rest)
  unfolding round_at round_close
  round-close ops ops' out out' u a p rest h e =
      round-start _ _ rest at_close (start_of-punctuation_close p)
      ∙ closes ops ops' out out' u a p rest h e

  pushes :
      (ops ops' : List Bytes) (out out' : List ParsedExpr) (u a : Bool) (t : Token) (op : Bytes)
      (rest : List Token)
      → is_eof t.kind ≡ false
      → apply_higher op ops out ≡ parsed (ops', out')
      → (push_operator op (state ops out u a) >>= λ pushed. consume_token >> pure (again pushed))
          (t ∷ rest)
        ≡ parsed (again (state (op ∷ ops') out' true a), rest)
  pushes ops ops' out out' u a t op rest no_eof e = rw (e, consume_ok t rest no_eof) refl

  calls :
      (list : Parser ParsedArgs) (ops : List Bytes) (out : List ParsedExpr) (u a : Bool)
      (args : ParsedArgs) (t v : Token) (name : Bytes) (inside rest : List Token)
      → list (v ∷ inside) ≡ parsed (args, rest)
      → (consume_token >> list >>= λ args. pure (again (state ops (call name args ∷ out) false a)))
          (t ∷ v ∷ inside)
        ≡ parsed (again (state ops (call name args ∷ out) false a), rest)
  unfolding consume_token
  calls list ops out u a args t v name inside rest e = rw e refl

  -- An operator token that is `op` on the stack.
  round-operator :
      (ops ops' : List Bytes) (out out' : List ParsedExpr) (u a : Bool) (t : Token) (op : Bytes)
      (rest : List Token)
      → ((next : Token) → start_of t next ≡ at_operator)
      → full_operator u t ≡ op
      → is_eof t.kind ≡ false
      → apply_higher op ops out ≡ parsed (ops', out')
      → round num expr (state ops out u a) (t ∷ rest)
        ≡ parsed (again (state (op ∷ ops') out' true a), rest)
  unfolding round_at round_operator
  round-operator ops ops' out out' u a t op rest start full no_eof e =
      round-start _ t rest at_operator start
      ∙ ap
          (λ o.
            (push_operator o (state ops out u a) >>= λ pushed. consume_token >> pure (again pushed))
              (t ∷ rest))
          full
      ∙ pushes ops ops' out out' u a t op rest no_eof e

  pub round-infix :
      (ops ops' : List Bytes) (out out' : List ParsedExpr) (a : Bool) (p : Place) (o : Infix)
      (rest : List Token)
      → apply_higher (infix_text o) ops out ≡ parsed (ops', out')
      → round num expr (state ops out false a) (token p (infix_kind o) (infix_text o) ∷ rest)
        ≡ parsed (again (state (infix_text o ∷ ops') out' true a), rest)
  round-infix ops ops' out out' a p o rest e =
      round-operator ops ops' out out' false a _ _ rest (start_of-infix p o)
        (full_operator-infix p o) (infix-is_eof o) e

  pub round-prefix :
      (ops ops' : List Bytes) (out out' : List ParsedExpr) (a : Bool) (p : Place) (o : Prefix)
      (rest : List Token)
      → apply_higher (prefix_operator o) ops out ≡ parsed (ops', out')
      → round num expr (state ops out true a) (token p operator_arithmetic (prefix_text o) ∷ rest)
        ≡ parsed (again (state (prefix_operator o ∷ ops') out' true a), rest)
  round-prefix ops ops' out out' a p o rest e =
      round-operator ops ops' out out' true a _ _ rest (start_of-prefix p o)
        (full_operator-prefix p o) refl e

  pub round-arrow :
      (ops ops' : List Bytes) (out out' : List ParsedExpr) (u a : Bool) (p q : Place) (name : Bytes)
      (rest : List Token)
      → apply_higher (codes "->") ops out ≡ parsed (ops', out')
      → round num expr
          (state ops out u a)
          (token p punctuation (codes "->") ∷ token q identifier name ∷ rest)
        ≡ parsed (
          again (state (codes "->" ∷ ops') (variable (identifier_name name) ∷ out') false false),
          rest,
        )
  unfolding round
  round-arrow ops ops' out out' u a p q name [] e = rw e refl
  round-arrow ops ops' out out' u a p q name (v ∷ rest) e = rw e refl

  pub round-index :
      (ops ops' : List Bytes) (out out' : List ParsedExpr) (u : Bool) (lhs i : ParsedExpr)
      (p q : Place) (inside rest : List Token)
      → expr inside ≡ parsed (i, token q punctuation (codes "]") ∷ rest)
      → apply_higher (codes "[]") ops out ≡ parsed (ops', lhs ∷ out')
      → round num expr (state ops out u false) (token p punctuation (codes "[") ∷ inside)
        ≡ parsed (again (state ops' (binary (codes "[]") lhs i ∷ out') false false), rest)
  unfolding round
  round-index ops ops' out out' u lhs i p q [] [] e h = rw (e, h) refl
  round-index ops ops' out out' u lhs i p q [] (w ∷ rest) e h = rw (e, h) refl
  round-index ops ops' out out' u lhs i p q (v ∷ inside) [] e h = rw (e, h) refl
  round-index ops ops' out out' u lhs i p q (v ∷ inside) (w ∷ rest) e h = rw (e, h) refl

  pub round-call :
      (ops : List Bytes) (out : List ParsedExpr) (u a : Bool) (args : ParsedArgs) (p q : Place)
      (name : Bytes) (inside rest : List Token)
      → parse_expression_list expr
          (codes "(")
          (codes ")")
          (token q punctuation (codes "(") ∷ inside)
        ≡ parsed (args, rest)
      → round num expr
          (state ops out u a)
          (token p identifier name ∷ token q punctuation (codes "(") ∷ inside)
        ≡ parsed (again (state ops (call name args ∷ out) false a), rest)
  unfolding round
  round-call ops out u a args p q name inside rest e =
      calls (parse_expression_list expr (codes "(") (codes ")")) ops out u a args
        (token p identifier name) (token q punctuation (codes "(")) name inside rest e
