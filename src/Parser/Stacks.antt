-- ===== src/Parser/Stacks.antt =====
-- What the operators of a tree leave on the stacks of the shunting-yard, and how they are applied.
use voidscript.Base.{
  ℕ, ◌≤◌, ◌<◌, ◌≡◌, ◌≢◌, refl, ◌∙◌, true, false, List, [], ◌∷◌, arith, Bytes, codes, bytes_eq,
}
use voidscript.Base.Int.{pos}
use voidscript.Lexer.Tables.{get_precedence, is_left_associative}
use voidscript.Parser.Cursor.{identifier_name}
use voidscript.Parser.Grammar.{
  Infix, or, Prefix, neg, infix_text, prefix_text, strength, Tree, atom, group, prefix, infix_of,
  member_of, element, call_of, tree_meaning, rank, IsGrouped,
}
use voidscript.Parser.Literals.{Numerals}
use voidscript.Parser.Operators.{
  Stacks, apply_stack_operator, goes_first, apply_higher, apply_to_parenthesis, apply_all,
  has_parenthesis,
}
use voidscript.Parser.Outcome.{Parsed, parsed}
use voidscript.Parser.Syntax as Syntax
use voidscript.Parser.Syntax.{ParsedExpr}

pub get_precedence-infix_text : (o : Infix) → get_precedence (infix_text o) ≡ pos (strength o)
unfolding get_precedence
get_precedence-infix_text or = refl
get_precedence-infix_text _ = refl

is_left_associative-infix_text : (o : Infix) → is_left_associative (infix_text o) ≡ true
unfolding is_left_associative
is_left_associative-infix_text or = refl
is_left_associative-infix_text _ = refl

no_parenthesis-infix_text : (o : Infix) → bytes_eq (infix_text o) (codes "(") ≡ false
no_parenthesis-infix_text or = refl
no_parenthesis-infix_text _ = refl

-- A prefix operator on the stack.
abbrev pub prefix_operator : Prefix → Bytes
prefix_operator o = b'u' ∷ prefix_text o

pub get_precedence-prefix : (o : Prefix) → get_precedence (prefix_operator o) ≡ pos 10
unfolding get_precedence
get_precedence-prefix neg = refl
get_precedence-prefix _ = refl

is_left_associative-prefix : (o : Prefix) → is_left_associative (prefix_operator o) ≡ false
unfolding is_left_associative
is_left_associative-prefix neg = refl
is_left_associative-prefix _ = refl

pub get_precedence-arrow : get_precedence (codes "->") ≡ pos 11
unfolding get_precedence
get_precedence-arrow = refl

module _ (op : Bytes) (m : ℕ) (level : get_precedence op ≡ pos m) where
  goes_first-infix : (o : Infix) → m ≤ strength o → goes_first (infix_text o) op ≡ true
  unfolding goes_first
  goes_first-infix o h =
      rw (get_precedence-infix_text o, level, is_left_associative-infix_text o) (ground arith)

  stays-infix : (o : Infix) → strength o < m → goes_first (infix_text o) op ≡ false
  unfolding goes_first
  stays-infix o h =
      rw (get_precedence-infix_text o, level, is_left_associative-infix_text o) (ground arith)

  goes_first-prefix : (o : Prefix) → m < 10 → goes_first (prefix_operator o) op ≡ true
  unfolding goes_first
  goes_first-prefix o h =
      rw (get_precedence-prefix o, level, is_left_associative-prefix o) (ground arith)

  stays-prefix : (o : Prefix) → 10 ≤ m → goes_first (prefix_operator o) op ≡ false
  unfolding goes_first
  stays-prefix o h =
      rw (get_precedence-prefix o, level, is_left_associative-prefix o) (ground arith)

  goes_first-arrow : m ≤ 11 → goes_first (codes "->") op ≡ true
  unfolding goes_first is_left_associative
  goes_first-arrow h = rw (get_precedence-arrow, level) (ground arith)

module _ (r l : ParsedExpr) (out : List ParsedExpr) where
  apply-infix :
      (o : Infix)
      → apply_stack_operator (infix_text o) (r ∷ l ∷ out)
        ≡ parsed (Syntax.binary (infix_text o) l r ∷ out)
  unfolding apply_stack_operator
  apply-infix or = refl
  apply-infix _ = refl

  apply-prefix :
      (o : Prefix)
      → apply_stack_operator (prefix_operator o) (r ∷ out)
        ≡ parsed (Syntax.unary (prefix_text o) r ∷ out)
  unfolding apply_stack_operator
  apply-prefix neg = refl
  apply-prefix _ = refl

  apply-arrow :
      apply_stack_operator (codes "->") (r ∷ l ∷ out)
      ≡ parsed (Syntax.binary (codes "->") l r ∷ out)
  unfolding apply_stack_operator
  apply-arrow = refl

-- A routine that applies the operators of at least a strength, from the top of the stack.
pub record Applies (m : ℕ) (f : List Bytes → List ParsedExpr → Parsed Stacks) : Type 0 where
  pub infix_first :
      (o : Infix) (ops : List Bytes) (r l : ParsedExpr) (out : List ParsedExpr)
      → m ≤ strength o
      → f (infix_text o ∷ ops) (r ∷ l ∷ out) ≡ f ops (Syntax.binary (infix_text o) l r ∷ out)
  pub prefix_first :
      (o : Prefix) (ops : List Bytes) (r : ParsedExpr) (out : List ParsedExpr)
      → m ≤ 10
      → f (prefix_operator o ∷ ops) (r ∷ out) ≡ f ops (Syntax.unary (prefix_text o) r ∷ out)
  pub arrow_first :
      (ops : List Bytes) (r l : ParsedExpr) (out : List ParsedExpr)
      → f (codes "->" ∷ ops) (r ∷ l ∷ out) ≡ f ops (Syntax.binary (codes "->") l r ∷ out)

module _ (top : Bytes) (ops : List Bytes) (out out' : List ParsedExpr) where
  apply_higher-first :
      (op : Bytes)
      → bytes_eq top (codes "(") ≡ false
      → goes_first top op ≡ true
      → apply_stack_operator top out ≡ parsed out'
      → apply_higher op (top ∷ ops) out ≡ apply_higher op ops out'
  unfolding apply_higher
  apply_higher-first op n g e = rw (e, n, g) refl

  apply_all-first :
      apply_stack_operator top out ≡ parsed out' → apply_all (top ∷ ops) out ≡ apply_all ops out'
  unfolding apply_all
  apply_all-first e = rw e refl

  apply_to_parenthesis-first :
      bytes_eq top (codes "(") ≡ false
      → apply_stack_operator top out ≡ parsed out'
      → apply_to_parenthesis (top ∷ ops) out ≡ apply_to_parenthesis ops out'
  unfolding apply_to_parenthesis
  apply_to_parenthesis-first n e = rw (e, n) refl

apply_higher-stays :
    (op top : Bytes) (ops : List Bytes) (out : List ParsedExpr)
    → bytes_eq top (codes "(") ≡ false
    → goes_first top op ≡ false
    → apply_higher op (top ∷ ops) out ≡ parsed (top ∷ ops, out)
unfolding apply_higher
apply_higher-stays op top ops out n g = rw (n, g) refl

pub apply_higher-Applies :
    (op : Bytes) (m : ℕ) → get_precedence op ≡ pos m → m ≢ 10 → m ≤ 11 → Applies m (apply_higher op)
apply_higher-Applies op m level other bound = record {
  infix_first = λ o ops r l out h.
      apply_higher-first _ ops _ _ op (no_parenthesis-infix_text o)
        (goes_first-infix op m level o h) (apply-infix r l out o);
  prefix_first = λ o ops r out h.
      apply_higher-first _ ops _ _ op refl
        (goes_first-prefix op m level o (omega (arith, h, other))) (apply-prefix r r out o);
  arrow_first = λ ops r l out.
      apply_higher-first _ ops _ _ op refl (goes_first-arrow op m level bound)
        (apply-arrow r l out);
}

pub apply_all-Applies : Applies 0 apply_all
apply_all-Applies = record {
  infix_first = λ o ops r l out h. apply_all-first _ ops _ _ (apply-infix r l out o);
  prefix_first = λ o ops r out h. apply_all-first _ ops _ _ (apply-prefix r r out o);
  arrow_first = λ ops r l out. apply_all-first _ ops _ _ (apply-arrow r l out);
}

pub apply_to_parenthesis-Applies : Applies 0 apply_to_parenthesis
apply_to_parenthesis-Applies = record {
  infix_first = λ o ops r l out h.
      apply_to_parenthesis-first _ ops _ _ (no_parenthesis-infix_text o) (apply-infix r l out o);
  prefix_first =
      λ o ops r out h. apply_to_parenthesis-first _ ops _ _ refl (apply-prefix r r out o);
  arrow_first = λ ops r l out. apply_to_parenthesis-first _ ops _ _ refl (apply-arrow r l out);
}

-- The operators that the loop leaves on the stack after it has read a tree.
unfoldable pub pending : Tree → List Bytes → List Bytes
pending (infix_of l p o r) ops = pending r (infix_text o ∷ ops)
pending (prefix p o t) ops = pending t (prefix_operator o ∷ ops)
pending (member_of t p q name) ops = codes "->" ∷ ops
pending _ ops = ops

module _ (num : Numerals) where
  -- The operands that it leaves.
  unfoldable pub operands : Tree → List ParsedExpr → List ParsedExpr
  operands (infix_of l p o r) out = operands r (tree_meaning num l ∷ out)
  operands (prefix p o t) out = operands t out
  operands (member_of t p q name) out =
      Syntax.variable (identifier_name name) ∷ tree_meaning num t ∷ out
  operands t out = tree_meaning num t ∷ out

  -- Applied, they make the tree.
  pub pending-Applies :
      (m : ℕ) (f : List Bytes → List ParsedExpr → Parsed Stacks) (t : Tree) (ops : List Bytes)
      (out : List ParsedExpr)
      → Applies m f
      → IsGrouped t
      → m ≤ rank t
      → f (pending t ops) (operands t out) ≡ f ops (tree_meaning num t ∷ out)
  unfolding pending operands IsGrouped tree_meaning
  pending-Applies m f (infix_of l p o r) ops out a (gl, gr, hl, hr) h =
      pending-Applies m f r _ _ a gr (omega (arith, h, hr)) ∙ a.infix_first o ops _ _ out h
  pending-Applies m f (prefix p o t) ops out a (g, ht) h =
      pending-Applies m f t _ out a g (omega (arith, h, ht)) ∙ a.prefix_first o ops _ out h
  pending-Applies m f (member_of t p q name) ops out a g h = a.arrow_first ops _ _ out
  pending-Applies m f (atom p b) ops out a g h = refl
  pending-Applies m f (group p t q) ops out a g h = refl
  pending-Applies m f (element t p i q) ops out a g h = refl
  pending-Applies m f (call_of p name q args r) ops out a g h = refl

pub has_parenthesis-pending :
    (t : Tree) (ops : List Bytes) → has_parenthesis (pending t ops) ≡ has_parenthesis ops
unfolding pending has_parenthesis
has_parenthesis-pending (infix_of l p o r) ops =
    has_parenthesis-pending r (infix_text o ∷ ops) ∙ rw (no_parenthesis-infix_text o) refl
has_parenthesis-pending (prefix p o t) ops = has_parenthesis-pending t (prefix_operator o ∷ ops)
has_parenthesis-pending (member_of t p q name) ops = refl
has_parenthesis-pending (atom p b) ops = refl
has_parenthesis-pending (group p t q) ops = refl
has_parenthesis-pending (element t p i q) ops = refl
has_parenthesis-pending (call_of p name q args r) ops = refl

-- Operators of a strength and above leave this stack as it is.
pub record IsBelow (m : ℕ) (ops : List Bytes) : Type 0 where
  pub holds :
      (op : Bytes) (n : ℕ) (out : List ParsedExpr)
      → get_precedence op ≡ pos n
      → m ≤ n
      → apply_higher op ops out ≡ parsed (ops, out)

pub nil-IsBelow : (m : ℕ) → IsBelow m []
unfolding apply_higher
nil-IsBelow m = record { holds = λ op n out e h. refl }

pub parenthesis-IsBelow : (m : ℕ) (ops : List Bytes) → IsBelow m (codes "(" ∷ ops)
unfolding apply_higher
parenthesis-IsBelow m ops = record { holds = λ op n out e h. refl }

pub infix-IsBelow :
    (m : ℕ) (o : Infix) (ops : List Bytes) → strength o < m → IsBelow m (infix_text o ∷ ops)
infix-IsBelow m o ops less = record {
  holds = λ op n out e h.
      apply_higher-stays op _ ops out (no_parenthesis-infix_text o)
        (stays-infix op n e o (omega (arith, less, h)));
}

pub prefix-IsBelow :
    (m : ℕ) (o : Prefix) (ops : List Bytes) → 10 ≤ m → IsBelow m (prefix_operator o ∷ ops)
prefix-IsBelow m o ops less = record {
  holds = λ op n out e h.
      apply_higher-stays op _ ops out refl (stays-prefix op n e o (omega (arith, less, h)));
}

pub IsBelow-mono : (m n : ℕ) (ops : List Bytes) → m ≤ n → IsBelow m ops → IsBelow n ops
IsBelow-mono m n ops h b = record {
  holds = λ op k out e l. b.holds op k out e (omega (arith, h, l));
}
