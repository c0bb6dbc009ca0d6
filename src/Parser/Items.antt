-- ===== src/Parser/Items.antt =====
-- The lists of expressions that `parseExpressionList` of src/Parser/Parser.cpp reads, by the
-- grammar of its expressions.
use voidscript.Base.{
  ℕ, zero, suc, ◌+◌, ◌≤◌, ◌<◌, ◌≡◌, refl, sym, ap, ◌∙◌, false, ◌⊎◌, inl, inr, List, [], ◌∷◌, arith,
  Bytes, codes, length,
}
use voidscript.Lexer.Tokens.{Token, punctuation}
use voidscript.Parser.Cursor.{is_token, is_punctuation}
use voidscript.Parser.Grammar.{
  Place, token, name_atom, number_atom, word_atom, Tree, atom, group, prefix, infix_of, member_of,
  element, call_of, Phrase, simple, conditional, Arguments, none_given, given, Items, last_item,
  item, tree_tokens, phrase_tokens, arguments_tokens, items_tokens, phrase_meaning,
  arguments_meaning, items_meaning, IsGroupedPhrase, AreArgumentsGrouped, AreItemsGrouped,
  tree_size, phrase_size, arguments_size, items_size,
}
use voidscript.Parser.Lists.{list_items, parse_expression_list}
use voidscript.Parser.Literals.{Numerals}
use voidscript.Parser.Outcome.{Parser, parsed}
use voidscript.Parser.Shunting.{at_close, at_other, start_of}
use voidscript.Parser.Syntax.{ParsedExpr, ParsedArgs, no_args, arg}

-- The loop leaves an expression at such a token.
abbrev pub IsStopping : Token → Type 0
IsStopping t =
    ((next : Token) → start_of t next ≡ at_other) ⊎ ((next : Token) → start_of t next ≡ at_close)

-- What follows an expression without its conditionals, and what follows an expression.
pub data IsStop : List Token → Type 0 where
  stop_at : {t : Token} {more : List Token} → IsStopping t → IsStop (t ∷ more)

pub data IsEnd : List Token → Type 0 where
  end_at :
      {t : Token} {more : List Token}
      → IsStopping t
      → is_punctuation (codes "?") t ≡ false
      → IsEnd (t ∷ more)

pub IsEnd-IsStop : {ts : List Token} → IsEnd ts → IsStop ts
IsEnd-IsStop (end_at h other) = stop_at h

pub question-IsStop :
    (p : Place) (rest : List Token) → IsStop (token p punctuation (codes "?") ∷ rest)
unfolding start_of
question-IsStop p rest = stop_at (inl (λ next. refl))

-- The tokens begin with one that closes no list of arguments.
abbrev pub Begins : List Token → Type 0
Begins ts =
    (t : Token) × (more : List Token) × (ts ≡ t ∷ more) × (is_punctuation (codes ")") t ≡ false)

tree-Begins : (t : Tree) (rest : List Token) → Begins (tree_tokens t rest)
unfolding tree_tokens is_token
tree-Begins (atom p (name_atom name)) rest = (_, _, refl, refl)
tree-Begins (atom p (number_atom text)) rest = (_, _, refl, refl)
tree-Begins (atom p (word_atom text)) rest = (_, _, refl, refl)
tree-Begins (group p t q) rest = (_, _, refl, refl)
tree-Begins (prefix p o t) rest = (_, _, refl, refl)
tree-Begins (infix_of l p o r) rest = tree-Begins l _
tree-Begins (member_of t p q name) rest = tree-Begins t _
tree-Begins (element t p i q) rest = tree-Begins t _
tree-Begins (call_of p name q args r) rest = (_, _, refl, refl)

phrase-Begins : (q : Phrase) (rest : List Token) → Begins (phrase_tokens q rest)
unfolding phrase_tokens
phrase-Begins (simple t) rest = tree-Begins t rest
phrase-Begins (conditional t p a q b) rest = tree-Begins t _

items-Begins : (items : Items) (rest : List Token) → Begins (items_tokens items rest)
unfolding items_tokens
items-Begins (last_item a) rest = phrase-Begins a rest
items-Begins (item a p items) rest = phrase-Begins a _

mutual
  unfolding tree_tokens tree_size

  pub length-tree_tokens :
      (t : Tree) (rest : List Token) → length (tree_tokens t rest) ≡ tree_size t + length rest
  length-tree_tokens (atom p a) rest = omega arith
  length-tree_tokens (group p t q) rest = omega (arith, length-tree_tokens t _)
  length-tree_tokens (prefix p o t) rest = omega (arith, length-tree_tokens t rest)
  length-tree_tokens (infix_of l p o r) rest =
      omega (arith, length-tree_tokens l _, length-tree_tokens r rest)
  length-tree_tokens (member_of t p q name) rest = omega (arith, length-tree_tokens t _)
  length-tree_tokens (element t p i q) rest =
      omega (arith, length-tree_tokens t _, length-phrase_tokens i _)
  length-tree_tokens (call_of p name q args r) rest = omega (arith, length-arguments_tokens args _)

  pub length-phrase_tokens :
      (q : Phrase) (rest : List Token) → length (phrase_tokens q rest) ≡ phrase_size q + length rest
  length-phrase_tokens (simple t) rest = length-tree_tokens t rest
  length-phrase_tokens (conditional t p a q b) rest =
      omega (arith, length-tree_tokens t _, length-phrase_tokens a _, length-phrase_tokens b rest)

  length-arguments_tokens :
      (a : Arguments) (rest : List Token)
      → length (arguments_tokens a rest) ≡ arguments_size a + length rest
  length-arguments_tokens none_given rest = omega arith
  length-arguments_tokens (given items) rest = length-items_tokens items rest

  pub length-items_tokens :
      (items : Items) (rest : List Token)
      → length (items_tokens items rest) ≡ items_size items + length rest
  length-items_tokens (last_item a) rest = length-phrase_tokens a rest
  length-items_tokens (item a p items) rest =
      omega (arith, length-phrase_tokens a _, length-items_tokens items rest)

module _ (num : Numerals) (k : ℕ) (expr : Parser ParsedExpr) where
  -- A parser of the phrases of a size.
  pub record Reads : Type 0 where
    pub reads :
        (q : Phrase) (rest : List Token)
        → IsGroupedPhrase q
        → phrase_size q ≤ k
        → IsEnd rest
        → expr (phrase_tokens q rest) ≡ parsed (phrase_meaning num q, rest)

module _ (expr : Parser ParsedExpr) (close : Bytes) where
  last-read :
      (fuel : ℕ) (e : ParsedExpr) (ts rest : List Token) (p : Place)
      → expr ts ≡ parsed (e, token p punctuation (codes ")") ∷ rest)
      → list_items expr (suc fuel) close ts
        ≡ parsed (arg e no_args, token p punctuation (codes ")") ∷ rest)
  unfolding list_items
  last-read fuel e ts [] p h = rw h refl
  last-read fuel e ts (v ∷ rest) p h = rw h refl

  item-read :
      (fuel : ℕ) (e : ParsedExpr) (es : ParsedArgs) (v : Token) (ts ys zs : List Token) (p : Place)
      → expr ts ≡ parsed (e, token p punctuation (codes ",") ∷ v ∷ ys)
      → is_punctuation close v ≡ false
      → list_items expr fuel close (v ∷ ys) ≡ parsed (es, zs)
      → list_items expr (suc fuel) close ts ≡ parsed (arg e es, zs)
  unfolding list_items
  item-read fuel e es v ts ys zs p h other l = rw (h, other, l) refl

module _ (expr : Parser ParsedExpr) where
  no_arguments-read :
      (p q : Place) (rest : List Token)
      → parse_expression_list expr
          (codes "(")
          (codes ")")
          (token p punctuation (codes "(") ∷ token q punctuation (codes ")") ∷ rest)
        ≡ parsed (no_args, rest)
  unfolding parse_expression_list
  no_arguments-read p q [] = refl
  no_arguments-read p q (v ∷ rest) = refl

  arguments-read :
      (p q : Place) (args : ParsedArgs) (v : Token) (ys rest : List Token)
      → is_punctuation (codes ")") v ≡ false
      → list_items expr (suc (length (v ∷ ys))) (codes ")") (v ∷ ys)
        ≡ parsed (args, token q punctuation (codes ")") ∷ rest)
      → parse_expression_list expr
          (codes "(")
          (codes ")")
          (token p punctuation (codes "(") ∷ v ∷ ys)
        ≡ parsed (args, rest)
  unfolding parse_expression_list
  arguments-read p q args v ys [] other l = rw (other, l) refl
  arguments-read p q args v ys (w ∷ rest) other l = rw (other, l) refl

pub close-IsEnd : (p : Place) (rest : List Token) → IsEnd (token p punctuation (codes ")") ∷ rest)
unfolding start_of
close-IsEnd p rest = end_at (inr (λ next. refl)) refl

pub comma-IsEnd : (p : Place) (rest : List Token) → IsEnd (token p punctuation (codes ",") ∷ rest)
unfolding start_of
comma-IsEnd p rest = end_at (inl (λ next. refl)) refl

pub bracket-IsEnd : (p : Place) (rest : List Token) → IsEnd (token p punctuation (codes "]") ∷ rest)
unfolding start_of
bracket-IsEnd p rest = end_at (inl (λ next. refl)) refl

pub colon-IsEnd : (p : Place) (rest : List Token) → IsEnd (token p punctuation (codes ":") ∷ rest)
unfolding start_of
colon-IsEnd p rest = end_at (inl (λ next. refl)) refl

module _ (num : Numerals) (k : ℕ) (expr : Parser ParsedExpr) (r : Reads num k expr) where
  items-read :
      (items : Items) (fuel : ℕ) (p : Place) (rest : List Token)
      → AreItemsGrouped items
      → items_size items ≤ k
      → items_size items < fuel
      → list_items expr fuel
          (codes ")")
          (items_tokens items (token p punctuation (codes ")") ∷ rest))
        ≡ parsed (items_meaning num items, token p punctuation (codes ")") ∷ rest)
  unfolding items_tokens items_meaning items_size AreItemsGrouped
  items-read items zero p rest g small enough = absurd (omega (arith, enough))
  items-read (last_item a) (suc fuel) p rest g small enough =
      last-read expr (codes ")") fuel (phrase_meaning num a) _ rest p
        (r.reads a _ g small (close-IsEnd p rest))
  items-read (item a q items) (suc fuel) p rest (g, gs) small enough =
      let zs = token p punctuation (codes ")") ∷ rest in
      let (v, ys, same, other) = items-Begins items zs in
      item-read expr (codes ")") fuel (phrase_meaning num a) (items_meaning num items) v _ ys zs q
        (r.reads a _ g (omega (arith, small)) (comma-IsEnd q _)
          ∙ ap (λ ts. parsed (phrase_meaning num a, token q punctuation (codes ",") ∷ ts)) same)
        other
        (ap (list_items expr fuel (codes ")")) (sym same)
          ∙ items-read items fuel p rest gs (omega (arith, small)) (omega (arith, enough)))

  pub call_arguments-read :
      (args : Arguments) (p q : Place) (rest : List Token)
      → AreArgumentsGrouped args
      → arguments_size args ≤ k
      → parse_expression_list expr (codes "(") (codes ")") (
          token p punctuation (codes "(")
          ∷ arguments_tokens args (token q punctuation (codes ")") ∷ rest))
        ≡ parsed (arguments_meaning num args, rest)
  unfolding arguments_tokens arguments_meaning arguments_size AreArgumentsGrouped
  call_arguments-read none_given p q rest g small = no_arguments-read expr p q rest
  call_arguments-read (given items) p q rest g small =
      let zs = token q punctuation (codes ")") ∷ rest in
      let (v, ys, same, other) = items-Begins items zs in
      ap
        (λ ts.
          parse_expression_list expr (codes "(") (codes ")") (token p punctuation (codes "(") ∷ ts))
        same
      ∙ arguments-read expr p q (items_meaning num items) v ys rest other (
          ap (λ ts. list_items expr (suc (length ts)) (codes ")") ts) (sym same)
          ∙ items-read items (suc (length (items_tokens items zs))) q rest g small
              (omega (arith, length-items_tokens items zs)))
