-- ===== src/Parser/Reads.antt =====
-- The parser of expressions (`parseParsedExpression` of src/Parser/Parser.cpp) reads the expressions
-- of the grammar: it groups them by the binding strengths of their operators.
pub mod Begins
use voidscript.Parser.Reads.Begins.{
  start_after, start_after-settles, strength-lt, opened, closed, get_precedence-index,
}
use mathlib.Core.Path.{subst}
use voidscript.Base.{
  ℕ, zero, suc, ◌≤◌, ◌<◌, ◌≡◌, ◌≢◌, refl, ap, ◌∙◌, Bool, true, false, inl, inr, List, [], ◌∷◌,
  arith, Bytes, codes, length, Bool-cases,
}
use voidscript.Base.Int.{pos}
use voidscript.Lexer.Tables.{get_precedence}
use voidscript.Lexer.Tokens.{Token, punctuation}
use voidscript.Parser.Expression.{
  begin, run_rounds, parse_conditional, finish_expression, expression_of, parse_expression,
}
use voidscript.Parser.Grammar.{
  Place, token, Infix, or, Tree, atom, group, prefix, infix_of, member_of, element, call_of, Phrase,
  simple, conditional, infix_text, strength, tree_tokens, phrase_tokens, tree_meaning,
  phrase_meaning, rank, settles, IsGrouped, IsGroupedPhrase, tree_size, phrase_size,
}
use voidscript.Parser.Items.{
  IsStop, stop_at, IsEnd, end_at, IsEnd-IsStop, question-IsStop, bracket-IsEnd, colon-IsEnd, Reads,
  call_arguments-read, length-tree_tokens,
}
use voidscript.Parser.Literals.{Numerals}
use voidscript.Parser.Operators.{apply_higher, apply_all, apply_to_parenthesis, has_parenthesis}
use voidscript.Parser.Outcome.{Parser, parsed, then_parse}
use voidscript.Parser.Runs.Branches.{state}
use voidscript.Parser.Runs.{
  Leads, Leads-round, Leads-trans, Leads-le, round-stop, round-ends, round-atom, round-group,
  round-close, round-infix, round-prefix, round-arrow, round-index, round-call,
}
use voidscript.Parser.Shunting.{Shunting}
use voidscript.Parser.Stacks.{
  prefix_operator, get_precedence-infix_text, get_precedence-prefix, get_precedence-arrow,
  apply_higher-Applies, apply_all-Applies, apply_to_parenthesis-Applies, pending, operands,
  pending-Applies, has_parenthesis-pending, IsBelow, nil-IsBelow, parenthesis-IsBelow,
  infix-IsBelow, prefix-IsBelow, IsBelow-mono,
}
use voidscript.Parser.Syntax.{ParsedExpr, ternary}

module _ (num : Numerals) (k : ℕ) (expr : Parser ParsedExpr) (r : Reads num k expr) where
  -- An operator of a strength finds the whole tree before it as its operand.
  applied :
      (op : Bytes) (m : ℕ) (t : Tree) (ops : List Bytes) (out : List ParsedExpr)
      → get_precedence op ≡ pos m
      → m ≢ 10
      → m ≤ 11
      → IsGrouped t
      → m ≤ rank t
      → IsBelow m ops
      → apply_higher op (pending t ops) (operands num t out)
        ≡ parsed (ops, tree_meaning num t ∷ out)
  applied op m t ops out level other bound g h below =
      pending-Applies num m (apply_higher op) t ops out
        (apply_higher-Applies op m level other bound) g h
      ∙ below.holds op m _ level (omega arith)

  Leads-at_start :
      {m : ℕ} {s : Shunting} {ts ts' : List Token} {ops : List Bytes} {out : List ParsedExpr}
      {u b b' : Bool}
      → b ≡ b'
      → Leads num expr m s ts (state ops out u b) ts'
      → Leads num expr m s ts (state ops out u b') ts'
  Leads-at_start {m} {s} {ts} {ts'} {ops} {out} {u} e h =
      subst (λ b. Leads num expr m s ts (state ops out u b) ts') e h

  tree-Leads :
      (t : Tree) (ops : List Bytes) (out : List ParsedExpr) (a : Bool) (rest : List Token)
      → IsGrouped t
      → tree_size t ≤ suc k
      → IsBelow (rank t) ops
      → Leads num expr
          (tree_size t)
          (state ops out true a)
          (tree_tokens t rest)
          (state (pending t ops) (operands num t out) false (start_after t a))
          rest
  unfolding tree_tokens tree_size IsGrouped pending operands tree_meaning start_after
  tree-Leads (atom p b) ops out a rest g small below =
      Leads-round num expr (round-atom num expr ops out true a p b rest g)
  tree-Leads (group p t q) ops out a rest g small below =
      let inner = codes "(" ∷ ops in
      Leads-le num expr
        (Leads-trans num expr (Leads-round num expr (round-group num expr ops out a p _)) (
          Leads-trans num expr
            (tree-Leads t inner out a _ g (omega (arith, small)) (parenthesis-IsBelow (rank t) ops))
            (Leads-round num expr (
              round-close num expr (pending t inner) ops (operands num t out) _ false _ q rest
                (has_parenthesis-pending t inner ∙ opened ops)
                (pending-Applies num 0 apply_to_parenthesis t inner out apply_to_parenthesis-Applies
                    g (omega arith)
                  ∙ closed ops _)))))
        (omega arith)
  tree-Leads (prefix p o t) ops out a rest (g, h) small below =
      Leads-le num expr
        (Leads-trans num expr
          (Leads-round num expr (
            round-prefix num expr ops ops out out a p o _
              (below.holds (prefix_operator o) 10 out (get_precedence-prefix o) (omega arith))))
          (tree-Leads t (prefix_operator o ∷ ops) out a rest g (omega (arith, small))
            (prefix-IsBelow (rank t) o ops h)))
        (omega arith)
  tree-Leads (infix_of l p o s) ops out a rest (gl, gr, hl, hr) small below =
      Leads-le num expr
        (Leads-trans num expr
          (tree-Leads l ops out a _ gl (omega (arith, small))
            (IsBelow-mono (strength o) (rank l) ops hl below))
          (Leads-trans num expr
            (Leads-round num expr (
              round-infix num expr (pending l ops) ops (operands num l out) _ _ p o _ (
                applied (infix_text o) (strength o) l ops out (get_precedence-infix_text o)
                  (ground (arith, strength-lt o)) (omega (arith, strength-lt o)) gl hl below)))
            (tree-Leads s (infix_text o ∷ ops) (tree_meaning num l ∷ out) _ rest gr
              (omega (arith, small)) (infix-IsBelow (rank s) o ops hr))))
        (omega arith)
  tree-Leads (member_of t p q name) ops out a rest (g, h) small below =
      Leads-le num expr
        (Leads-trans num expr
          (tree-Leads t ops out a _ g (omega (arith, small)) (IsBelow-mono 11 (rank t) ops h below))
          (Leads-round num expr (
            round-arrow num expr (pending t ops) ops (operands num t out) _ false _ p q name rest (
              applied (codes "->") 11 t ops out get_precedence-arrow (omega arith) (omega arith) g h
                below))))
        (omega arith)
  tree-Leads (element t p i q) ops out a rest (g, gi, h, set) small below =
      Leads-le num expr
        (Leads-trans num expr
          (Leads-at_start (start_after-settles t a set) (
            tree-Leads t ops out a _ g (omega (arith, small))
              (IsBelow-mono 11 (rank t) ops h below)))
          (Leads-round num expr (
            round-index num expr (pending t ops) ops (operands num t out) out false
              (tree_meaning num t) (phrase_meaning num i) p q _ rest
              (r.reads i _ gi (omega (arith, small)) (bracket-IsEnd q rest))
              (applied (codes "[]") 11 t ops out get_precedence-index (omega arith) (omega arith) g
                h below))))
        (omega arith)
  tree-Leads (call_of p name q args s) ops out a rest g small below =
      Leads-le num expr
        (Leads-round num expr (
          round-call num expr ops out true a _ p q name _ rest
            (call_arguments-read num k expr r args q s rest g (omega (arith, small)))))
        (omega arith)

  -- The loop ends at what follows an expression.
  run_rounds-stop :
      (s : Shunting) (rest : List Token) (n : ℕ)
      → has_parenthesis s.ops ≡ false
      → IsStop rest
      → 1 ≤ n
      → run_rounds num expr n s rest ≡ parsed (s, rest)
  unfolding run_rounds
  run_rounds-stop s rest zero h e l = absurd (omega (arith, l))
  run_rounds-stop s rest (suc n) h (stop_at {t} {more} (inl other)) l =
      rw (round-stop num expr s t more other) refl
  run_rounds-stop s rest (suc n) h (stop_at {t} {more} (inr close)) l =
      rw (round-ends num expr s t more close h) refl

  -- The loop over all of a tree.
  run_rounds-tree :
      (t : Tree) (rest : List Token)
      → IsGrouped t
      → tree_size t ≤ suc k
      → IsStop rest
      → run_rounds num expr (suc (length (tree_tokens t rest))) begin (tree_tokens t rest)
        ≡ parsed (state (pending t []) (operands num t []) false (start_after t true), rest)
  run_rounds-tree t rest g small e =
      let (n, enough, same) =
        (tree-Leads t [] [] true rest g small (nil-IsBelow (rank t))).at
          (suc (length (tree_tokens t rest))) (omega (arith, length-tree_tokens t rest)) in
      same
      ∙ run_rounds-stop _ rest n (has_parenthesis-pending t [] ∙ (unfold has_parenthesis in refl)) e
          (omega (arith, enough, length-tree_tokens t rest))

  finish-conditional :
      (ops : List Bytes) (out : List ParsedExpr) (u a : Bool) (e : ParsedExpr) (rest : List Token)
      → apply_all ops out ≡ parsed ([], e ∷ [])
      → finish_expression num expr (state ops out u a) rest ≡ parse_conditional num expr e rest
  unfolding finish_expression
  finish-conditional ops out u a e rest h = rw h refl

  expression_of-tree :
      (t : Tree) (rest : List Token)
      → IsGrouped t
      → tree_size t ≤ suc k
      → IsStop rest
      → expression_of num expr (tree_tokens t rest)
        ≡ parse_conditional num expr (tree_meaning num t) rest
  unfolding expression_of
  expression_of-tree t rest g small e =
      ap (λ o. then_parse o (finish_expression num expr)) (run_rounds-tree t rest g small e)
      ∙ finish-conditional (pending t []) (operands num t []) false (start_after t true) _ rest (
          pending-Applies num 0 apply_all t [] [] apply_all-Applies g (omega arith)
          ∙ (unfold apply_all in refl))

  plain_end :
      (e : ParsedExpr) (rest : List Token)
      → IsEnd rest
      → parse_conditional num expr e rest ≡ parsed (e, rest)
  unfolding parse_conditional
  plain_end e rest (end_at {t} {more = []} h other) = ground arith
  plain_end e rest (end_at {t} {more = v ∷ more} h other) = rw other refl

  conditional_end :
      (e a b : ParsedExpr) (p q : Place) (xs ys rest : List Token)
      → expr xs ≡ parsed (a, token q punctuation (codes ":") ∷ ys)
      → expr ys ≡ parsed (b, rest)
      → parse_conditional num expr e (token p punctuation (codes "?") ∷ xs)
        ≡ parsed (ternary e a b, rest)
  unfolding parse_conditional
  conditional_end e a b p q [] [] rest ha hb = rw (ha, hb) refl
  conditional_end e a b p q [] (w ∷ ys) rest ha hb = rw (ha, hb) refl
  conditional_end e a b p q (v ∷ xs) [] rest ha hb = rw (ha, hb) refl
  conditional_end e a b p q (v ∷ xs) (w ∷ ys) rest ha hb = rw (ha, hb) refl

  pub expression_of-phrase :
      (q : Phrase) (rest : List Token)
      → IsGroupedPhrase q
      → phrase_size q ≤ suc k
      → IsEnd rest
      → expression_of num expr (phrase_tokens q rest) ≡ parsed (phrase_meaning num q, rest)
  unfolding phrase_tokens phrase_meaning phrase_size IsGroupedPhrase
  expression_of-phrase (simple t) rest g small e =
      expression_of-tree t rest g small (IsEnd-IsStop e) ∙ plain_end _ rest e
  expression_of-phrase (conditional t p a q b) rest (gt, ga, gb) small e =
      expression_of-tree t _ gt (omega (arith, small)) (question-IsStop p _)
      ∙ conditional_end _ _ _ p q _ _ rest (r.reads a _ ga (omega (arith, small)) (colon-IsEnd q _))
          (r.reads b rest gb (omega (arith, small)) e)

tree_size-pos : (t : Tree) → 1 ≤ tree_size t
unfolding tree_size
tree_size-pos (atom p a) = omega arith
tree_size-pos (group p t q) = omega arith
tree_size-pos (prefix p o t) = omega arith
tree_size-pos (infix_of l p o r) = omega arith
tree_size-pos (member_of t p q name) = omega arith
tree_size-pos (element t p i q) = omega arith
tree_size-pos (call_of p name q args r) = omega arith

phrase_size-pos : (q : Phrase) → 1 ≤ phrase_size q
unfolding phrase_size
phrase_size-pos (simple t) = tree_size-pos t
phrase_size-pos (conditional t p a q b) = omega arith

parse_expression-Reads : (num : Numerals) (k : ℕ) → Reads num k (parse_expression num k)
unfolding parse_expression phrase_size
parse_expression-Reads num zero = record {
  reads = λ q rest g small e. absurd (omega (arith, small, phrase_size-pos q));
}
parse_expression-Reads num (suc k) = record {
  reads = expression_of-phrase num k (parse_expression num k) (parse_expression-Reads num k);
}

-- An expression that is grouped by the binding strengths of its operators, as in C, with accessors
-- before prefix operators before the others, and those of one strength from left to right: the
-- parser makes its tree, with as much fuel as it has tokens, and leaves what follows. After it
-- stands a token at which the loop leaves an expression, and which is no `?`. An index needs an
-- operand before it that is more than calls.
pub parse_expression-phrase :
    (num : Numerals) (fuel : ℕ) (q : Phrase) (rest : List Token)
    → IsGroupedPhrase q
    → phrase_size q ≤ fuel
    → IsEnd rest
    → parse_expression num fuel (phrase_tokens q rest) ≡ parsed (phrase_meaning num q, rest)
parse_expression-phrase num fuel q rest = (parse_expression-Reads num fuel).reads q rest
