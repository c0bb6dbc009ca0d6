-- ===== src/Parser/Reads/Begins.antt =====
-- Whether the loop of `parseParsedExpression` (src/Parser/Parser.cpp) has met an operand, tree by tree.
use voidscript.Base.{
  ◌<◌, ◌≡◌, refl, ap, ◌∙◌, Bool, true, false, inl, inr, List, ◌∷◌, arith, Bytes, codes, Bool-cases,
}
use voidscript.Base.Int.{pos}
use voidscript.Lexer.Tables.{get_precedence}
use voidscript.Parser.Grammar.{
  Infix, or, Tree, atom, group, prefix, infix_of, member_of, element, call_of, strength, settles,
}
use voidscript.Parser.Operators.{apply_to_parenthesis, has_parenthesis}
use voidscript.Parser.Outcome.{parsed}
use voidscript.Parser.Syntax.{ParsedExpr}

-- Whether a `[` would still begin an array literal after a tree.
unfoldable pub start_after : Tree → Bool → Bool
start_after (atom p b) a = false
start_after (group p t q) a = start_after t a
start_after (prefix p o t) a = start_after t a
start_after (infix_of l p o r) a = start_after r (start_after l a)
start_after (member_of t p q name) a = false
start_after (element t p i q) a = false
start_after (call_of p name q args r) a = a

start_after-false : (t : Tree) → start_after t false ≡ false
unfolding start_after
start_after-false (group p t q) = start_after-false t
start_after-false (prefix p o t) = start_after-false t
start_after-false (infix_of l p o r) =
    ap (start_after r) (start_after-false l) ∙ start_after-false r
start_after-false (atom p b) = refl
start_after-false (member_of t p q name) = refl
start_after-false (element t p i q) = refl
start_after-false (call_of p name q args r) = refl

pub start_after-settles : (t : Tree) (a : Bool) → settles t ≡ true → start_after t a ≡ false
unfolding start_after
start_after-settles (atom p b) a h = refl
start_after-settles (group p t q) a h = start_after-settles t a h
start_after-settles (prefix p o t) a h = start_after-settles t a h
start_after-settles (infix_of l p o r) a h = elim (Bool-cases (settles l)) [
  | inl left ↦ ap (start_after r) (start_after-settles l a left) ∙ start_after-false r
  | inr other ↦ start_after-settles r _ (ground arith)
]
start_after-settles (member_of t p q name) a h = refl
start_after-settles (element t p i q) a h = refl
start_after-settles (call_of p name q args r) a h = absurd cc

pub strength-lt : (o : Infix) → strength o < 10
strength-lt or = omega arith
strength-lt _ = omega arith

pub opened : (ops : List Bytes) → has_parenthesis (codes "(" ∷ ops) ≡ true
unfolding has_parenthesis
opened ops = refl

pub closed :
    (ops : List Bytes) (out : List ParsedExpr)
    → apply_to_parenthesis (codes "(" ∷ ops) out ≡ parsed (ops, out)
unfolding apply_to_parenthesis
closed ops out = refl

pub get_precedence-index : get_precedence (codes "[]") ≡ pos 11
unfolding get_precedence
get_precedence-index = refl
