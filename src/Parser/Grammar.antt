-- ===== src/Parser/Grammar.antt =====
-- The expressions that src/Parser/Parser.cpp is to read, as a grammar over the binding strengths of
-- the operators: their tokens, and the trees that they stand for.
use voidscript.Base.{
  ℕ, suc, ◌+◌, ◌≤◌, ◌<◌, ◌≡◌, Bool, true, false, ◌||◌, List, ◌∷◌, Bytes, codes, bytes_eq,
}
use voidscript.Lexer.Tokens.{
  Token, TokenType, identifier, variable_identifier, keyword, number, operator_relational,
  operator_logical, operator_arithmetic, punctuation,
}
use voidscript.Parser.Cursor.{identifier_name}
use voidscript.Parser.Literals.{Numerals, from_string}
use voidscript.Parser.Syntax as Syntax
use voidscript.Parser.Syntax.{ParsedExpr, ParsedArgs}

-- Where a token stands in the input.
pub record Place : Type 0 where
  pub start_pos : ℕ
  pub end_pos : ℕ
  pub line_number : ℕ
  pub column_number : ℕ

abbrev pub token : Place → TokenType → Bytes → Token
token p kind text = record {
  kind = kind;
  value = text;
  lexeme = text;
  start_pos = p.start_pos;
  end_pos = p.end_pos;
  line_number = p.line_number;
  column_number = p.column_number;
}

pub data Infix : Type 0 where
  or and bit_or bit_xor bit_and eq ne lt gt le ge shift_left shift_right add sub mul div rem : Infix

pub data Prefix : Type 0 where
  neg plus bang tilde : Prefix

abbrev pub infix_text : Infix → Bytes
infix_text or = codes "||"
infix_text and = codes "&&"
infix_text bit_or = codes "|"
infix_text bit_xor = codes "^"
infix_text bit_and = codes "&"
infix_text eq = codes "=="
infix_text ne = codes "!="
infix_text lt = codes "<"
infix_text gt = codes ">"
infix_text le = codes "<="
infix_text ge = codes ">="
infix_text shift_left = codes "<<"
infix_text shift_right = codes ">>"
infix_text add = codes "+"
infix_text sub = codes "-"
infix_text mul = codes "*"
infix_text div = codes "/"
infix_text rem = codes "%"

abbrev pub infix_kind : Infix → TokenType
infix_kind or = operator_logical
infix_kind and = operator_logical
infix_kind eq = operator_relational
infix_kind ne = operator_relational
infix_kind lt = operator_relational
infix_kind gt = operator_relational
infix_kind le = operator_relational
infix_kind ge = operator_relational
infix_kind _ = operator_arithmetic

-- The binding strength, as in C.
abbrev pub strength : Infix → ℕ
strength or = 0
strength and = 1
strength bit_or = 2
strength bit_xor = 3
strength bit_and = 4
strength eq = 5
strength ne = 5
strength lt = 6
strength gt = 6
strength le = 6
strength ge = 6
strength shift_left = 7
strength shift_right = 7
strength add = 8
strength sub = 8
strength mul = 9
strength div = 9
strength rem = 9

abbrev pub prefix_text : Prefix → Bytes
prefix_text neg = codes "-"
prefix_text plus = codes "+"
prefix_text bang = codes "!"
prefix_text tilde = codes "~"

-- A variable is written with a `$` in front; a word is `true`, `false` or the like.
pub data Atom : Type 0 where
  name_atom number_atom word_atom : Bytes → Atom

abbrev pub atom_token : Place → Atom → Token
atom_token p (name_atom name) = token p variable_identifier (b'$' ∷ name)
atom_token p (number_atom text) = token p number text
atom_token p (word_atom text) = token p keyword text

-- `this` has a meaning of its own.
abbrev pub IsPlain : Atom → Type 0
IsPlain (name_atom name) = bytes_eq name (codes "this") ≡ false
IsPlain (number_atom text) = Unit
IsPlain (word_atom text) = bytes_eq text (codes "this") ≡ false

-- A phrase is an expression with its conditionals; a tree is one without. The arguments of a call
-- are none, or a list.
mutual
  pub data Tree : Type 0 where
    atom : Place → Atom → Tree
    group : Place → Tree → Place → Tree
    prefix : Place → Prefix → Tree → Tree
    infix_of : Tree → Place → Infix → Tree → Tree
    member_of : Tree → Place → Place → Bytes → Tree
    element : Tree → Place → Phrase → Place → Tree
    call_of : Place → Bytes → Place → Arguments → Place → Tree

  pub data Phrase : Type 0 where
    simple : Tree → Phrase
    conditional : Tree → Place → Phrase → Place → Phrase → Phrase

  pub data Arguments : Type 0 where
    none_given : Arguments
    given : Items → Arguments

  pub data Items : Type 0 where
    last_item : Phrase → Items
    item : Phrase → Place → Items → Items

-- The tokens of a tree, before those of `rest`.
unfoldable mutual
  pub tree_tokens : Tree → List Token → List Token
  tree_tokens (atom p a) rest = atom_token p a ∷ rest
  tree_tokens (group p t q) rest =
      token p punctuation (codes "(") ∷ tree_tokens t (token q punctuation (codes ")") ∷ rest)
  tree_tokens (prefix p o t) rest = token p operator_arithmetic (prefix_text o) ∷ tree_tokens t rest
  tree_tokens (infix_of l p o r) rest =
      tree_tokens l (token p (infix_kind o) (infix_text o) ∷ tree_tokens r rest)
  tree_tokens (member_of t p q name) rest =
      tree_tokens t (token p punctuation (codes "->") ∷ token q identifier name ∷ rest)
  tree_tokens (element t p i q) rest =
      tree_tokens t
        (token p punctuation (codes "[") ∷ phrase_tokens i (token q punctuation (codes "]") ∷ rest))
  tree_tokens (call_of p name q args r) rest =
      token p identifier name
      ∷ token q punctuation (codes "(")
      ∷ arguments_tokens args (token r punctuation (codes ")") ∷ rest)

  pub phrase_tokens : Phrase → List Token → List Token
  phrase_tokens (simple t) rest = tree_tokens t rest
  phrase_tokens (conditional t p a q b) rest = tree_tokens t (
      token p punctuation (codes "?")
      ∷ phrase_tokens a (token q punctuation (codes ":") ∷ phrase_tokens b rest))

  pub arguments_tokens : Arguments → List Token → List Token
  arguments_tokens none_given rest = rest
  arguments_tokens (given items) rest = items_tokens items rest

  pub items_tokens : Items → List Token → List Token
  items_tokens (last_item a) rest = phrase_tokens a rest
  items_tokens (item a p items) rest =
      phrase_tokens a (token p punctuation (codes ",") ∷ items_tokens items rest)

module _ (num : Numerals) where
  abbrev pub atom_meaning : Atom → ParsedExpr
  atom_meaning (name_atom name) = Syntax.variable name
  atom_meaning (number_atom text) = Syntax.literal (from_string num text)
  atom_meaning (word_atom text) = Syntax.literal (from_string num text)

  -- The tree that the parser is to make.
  unfoldable mutual
    pub tree_meaning : Tree → ParsedExpr
    tree_meaning (atom p a) = atom_meaning a
    tree_meaning (group p t q) = tree_meaning t
    tree_meaning (prefix p o t) = Syntax.unary (prefix_text o) (tree_meaning t)
    tree_meaning (infix_of l p o r) = Syntax.binary (infix_text o) (tree_meaning l) (tree_meaning r)
    tree_meaning (member_of t p q name) =
        Syntax.binary (codes "->") (tree_meaning t) (Syntax.variable (identifier_name name))
    tree_meaning (element t p i q) = Syntax.binary (codes "[]") (tree_meaning t) (phrase_meaning i)
    tree_meaning (call_of p name q args r) = Syntax.call name (arguments_meaning args)

    pub phrase_meaning : Phrase → ParsedExpr
    phrase_meaning (simple t) = tree_meaning t
    phrase_meaning (conditional t p a q b) =
        Syntax.ternary (tree_meaning t) (phrase_meaning a) (phrase_meaning b)

    pub arguments_meaning : Arguments → ParsedArgs
    arguments_meaning none_given = Syntax.no_args
    arguments_meaning (given items) = items_meaning items

    pub items_meaning : Items → ParsedArgs
    items_meaning (last_item a) = Syntax.arg (phrase_meaning a) Syntax.no_args
    items_meaning (item a p items) = Syntax.arg (phrase_meaning a) (items_meaning items)

-- How strongly the outermost construct of a tree binds: accessors before prefix operators before
-- the others.
abbrev pub rank : Tree → ℕ
rank (infix_of l p o r) = strength o
rank (prefix p o t) = 10
rank (member_of t p q name) = 11
rank (element t p i q) = 11
rank _ = 12

-- Has the loop met an operand, so that a `[` is an index? A call does not count.
abbrev pub settles : Tree → Bool
settles (atom p a) = true
settles (group p t q) = settles t
settles (prefix p o t) = settles t
settles (infix_of l p o r) = settles l || settles r
settles (member_of t p q name) = true
settles (element t p i q) = true
settles (call_of p name q args r) = false

-- The operands of an operator bind more strongly than it; the left one may be as strong.
unfoldable mutual
  pub IsGrouped : Tree → Type 0
  IsGrouped (atom p a) = IsPlain a
  IsGrouped (group p t q) = IsGrouped t
  IsGrouped (prefix p o t) = IsGrouped t × 10 ≤ rank t
  IsGrouped (infix_of l p o r) =
      IsGrouped l × IsGrouped r × strength o ≤ rank l × strength o < rank r
  IsGrouped (member_of t p q name) = IsGrouped t × 11 ≤ rank t
  IsGrouped (element t p i q) = IsGrouped t × IsGroupedPhrase i × 11 ≤ rank t × (settles t ≡ true)
  IsGrouped (call_of p name q args r) = AreArgumentsGrouped args

  pub IsGroupedPhrase : Phrase → Type 0
  IsGroupedPhrase (simple t) = IsGrouped t
  IsGroupedPhrase (conditional t p a q b) = IsGrouped t × IsGroupedPhrase a × IsGroupedPhrase b

  pub AreArgumentsGrouped : Arguments → Type 0
  AreArgumentsGrouped none_given = Unit
  AreArgumentsGrouped (given items) = AreItemsGrouped items

  pub AreItemsGrouped : Items → Type 0
  AreItemsGrouped (last_item a) = IsGroupedPhrase a
  AreItemsGrouped (item a p items) = IsGroupedPhrase a × AreItemsGrouped items

-- How many tokens there are.
unfoldable mutual
  pub tree_size : Tree → ℕ
  tree_size (atom p a) = 1
  tree_size (group p t q) = 2 + tree_size t
  tree_size (prefix p o t) = suc (tree_size t)
  tree_size (infix_of l p o r) = suc (tree_size l + tree_size r)
  tree_size (member_of t p q name) = 2 + tree_size t
  tree_size (element t p i q) = 2 + (tree_size t + phrase_size i)
  tree_size (call_of p name q args r) = 3 + arguments_size args

  pub phrase_size : Phrase → ℕ
  phrase_size (simple t) = tree_size t
  phrase_size (conditional t p a q b) = 2 + (tree_size t + (phrase_size a + phrase_size b))

  pub arguments_size : Arguments → ℕ
  arguments_size none_given = 0
  arguments_size (given items) = items_size items

  pub items_size : Items → ℕ
  items_size (last_item a) = phrase_size a
  items_size (item a p items) = suc (phrase_size a + items_size items)
