-- ===== src/Parser/Halts/Lists.antt =====
-- The lists of src/Parser/Parser.cpp end where the parser of expressions does.
use voidscript.Base.{ℕ, zero, suc, ◌≤◌, ◌<◌, Bytes, codes, length, arith}
use voidscript.Lexer.Tokens.{punctuation}
use voidscript.Parser.Halts.{
  Late, Early, Early-Late, Early-le, Late-pure, Late-choose, Late-bind, Early-bind, Looks-bind,
  Looks-current_token, Early-after, Early-expect_name, Early-expect_token, Late-match_token,
  halting,
}
use voidscript.Parser.Lists.{
  at_punctuation, is_type_keyword, skip_type, list_items, parse_expression_list, member_items,
  parse_members,
}
use voidscript.Parser.Outcome.{Parser}
use voidscript.Parser.Syntax.{ParsedExpr, arg, no_args, member_of, no_members}

-- A parser that bounds its loop by the tokens that are left.
pub Late-bounded :
    {A : Type 0} {k : ℕ} (p : ℕ → Parser A)
    → ((fuel m : ℕ) → m < fuel → m ≤ k → Late m (p fuel))
    → Late k (λ ts. p (suc (length ts)) ts)
Late-bounded p h = record {
  at = λ ts l. (h (suc (length ts)) (length ts) (omega arith) l).at ts (omega arith);
}

pub Late-at_punctuation : {k : ℕ} (text : Bytes) → Late k (at_punctuation text)
Late-at_punctuation text = search halting depth 20

Late-skip_type : {k : ℕ} → Late k skip_type
unfolding skip_type
Late-skip_type = search (halting, Late-at_punctuation) depth 20

module _ (k : ℕ) (expr : Parser ParsedExpr) (e : Early k expr) where
  Early-list_items :
      (fuel m : ℕ) (close : Bytes) → m < fuel → m ≤ k → Early m (list_items expr fuel close)
  unfolding list_items
  Early-list_items zero m close h l = absurd (omega (arith, h))
  Early-list_items (suc fuel) m close h l = Early-bind _ _ (Early-le l e) λ a j r.
      Late-bind _ _ (Late-match_token punctuation (codes ",")) λ comma.
        Late-choose comma _ _
          (Late-bind _ _ (Late-at_punctuation close) λ closed.
            Late-choose closed _ _ (Late-pure (arg a no_args)) (
              Late-bind _ _
                (Early-Late
                  (Early-list_items fuel j close (omega (arith, h, r)) (omega (arith, l, r))))
                λ rest. Late-pure (arg a rest)))
          (Late-pure (arg a no_args))

  pub Early-parse_expression_list :
      (left close : Bytes) → Early (suc k) (parse_expression_list expr left close)
  unfolding parse_expression_list
  Early-parse_expression_list left close =
      Early-bind _ _
        (Early-bind _ _ (Early-expect_token punctuation left) λ u j r. Late-at_punctuation close)
        λ closed j r.
          Late-bind _ _
            (Late-choose closed _ _ (Late-pure no_args) (
              Late-bounded (λ fuel. list_items expr fuel close)
                λ fuel m h l. Early-Late (Early-list_items fuel m close h (omega (arith, l, r)))))
            λ args.
              Late-bind _ _ (Early-Late (Early-expect_token punctuation close)) λ u. Late-pure args

  Early-member_items : (fuel m : ℕ) → m < fuel → m ≤ suc k → Early m (member_items expr fuel)
  unfolding member_items
  Early-member_items zero m h l = absurd (omega (arith, h))
  Early-member_items (suc fuel) m h l = Looks-bind _ _ Looks-current_token λ t.
      Early-bind _ _
        (Early-after _ _ (Late-choose (is_type_keyword t.kind) _ _ Late-skip_type (Late-pure tt))
          λ u. Early-expect_name "Expected identifier for object key")
        λ key j r.
          Late-bind _ _
            (Late-bind _ _ (Early-Late (Early-expect_token punctuation (codes ":")))
              λ u. Early-Late (Early-le (omega (arith, l, r)) e))
            λ value. Late-bind _ _ (Late-match_token punctuation (codes ",")) λ comma.
              Late-choose comma _ _
                (Late-bind _ _
                  (Early-Late
                    (Early-member_items fuel j (omega (arith, h, r)) (omega (arith, l, r))))
                  λ rest. Late-pure (member_of key value rest))
                (Late-pure (member_of key value no_members))

  pub Late-parse_members : Late (suc k) (parse_members expr)
  unfolding parse_members
  Late-parse_members = Late-bind _ _ (Late-at_punctuation (codes "}")) λ closed.
      Late-bind _ _
        (Late-choose closed _ _ (Late-pure no_members) (
          Late-bounded (λ fuel. member_items expr fuel)
            λ fuel m h l. Early-Late (Early-member_items fuel m h l)))
        λ ms.
          Late-bind _ _ (Early-Late (Early-expect_token punctuation (codes "}"))) λ u. Late-pure ms
