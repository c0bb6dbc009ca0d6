-- ===== src/Lexer/Stream.antt =====
-- The tokens of a whole input.
use mathlib.Core.Path.{subst}
use voidscript.Base.Dict.{Dict, lookup, insert, lookup-insert}
use voidscript.Base.{
  ℕ, zero, suc, ◌+◌, ◌-◌, ◌≤◌, ◌<◌, true, false, ◌≡◌, refl, none, some, Option-cases, Bytes, List,
  ◌==◌, length, if◌then◌else◌, arith, inl, inr, Bool-cases, [], ◌∷◌, get_or, bytes_eq_iff,
}
use voidscript.Lexer.Advances.{
  Advances, stay, move, Advances-position, position-advance, skip-Advances,
}
use voidscript.Lexer.Cursors.{
  Cursor, start_cursor, peek, is_at_end, advance, create_token, skip_whitespace_and_comments,
}
use voidscript.Lexer.Matched.{Matched, created, token-Matched, IsInner}
use voidscript.Lexer.Matchers.{match_token, next_token}
use voidscript.Lexer.Tokenize.{
  Lexer, token_loop, add_namespace_input, get_tokens, tokenize_namespace,
}
use voidscript.Lexer.Tokens.{Token, end_of_file, is_eof}
use voidscript.Symbols.Container.{SymbolContainer, no_scope, enter}
use voidscript.Value.{Result, ok, throws}

-- The newlines among the first bytes of a text.
unfoldable pub newlines : Bytes → ℕ → ℕ
newlines [] p = 0
newlines (c ∷ s) zero = 0
newlines (c ∷ s) (suc p) = (if c == 10 then 1 else 0) + newlines s p

newlines-suc :
    (s : Bytes) (p : ℕ) → newlines s (suc p) ≡ newlines s p + (if get_or s p 0 == 10 then 1 else 0)
unfolding newlines
newlines-suc [] p = ground arith
newlines-suc (c ∷ []) zero = ground arith
newlines-suc (c ∷ d ∷ s) zero = ground arith
newlines-suc (c ∷ s) (suc p) = ground (arith, newlines-suc s p)

newlines-zero : (s : Bytes) → 1 ≡ 1 + newlines s 0
unfolding newlines
newlines-zero [] = refl
newlines-zero (c ∷ s) = refl

module _ (input : Bytes) where
  -- The line that a cursor states is the one that it stands on.
  abbrev pub IsLocated : Cursor → Type 0
  IsLocated s = s.line ≡ 1 + newlines input s.position

  advance-IsLocated : (s : Cursor) → IsLocated s → IsLocated (advance input s)
  unfolding advance peek
  advance-IsLocated s h =
      let e : s.position + 0 ≡ s.position = omega arith in
      ground (arith, newlines-suc input s.position, e)

  Advances-IsLocated : {s t : Cursor} → Advances input s t → IsLocated s → IsLocated t
  Advances-IsLocated stay h = h
  Advances-IsLocated {s = s} (move p) h = Advances-IsLocated p (advance-IsLocated s h)

  -- The tokens of the input from a position on. The last is END_OF_FILE at the end of the input,
  -- and empty; each other has a type of its own and at least one byte, and starts where the one
  -- before ends, or later. Each states the line on which it ends.
  pub data IsStream : ℕ → List Token → Type 0 where
    last :
        {from : ℕ} {t : Token}
        → t.kind ≡ end_of_file
        → from ≤ t.start_pos
        → length input ≤ t.start_pos
        → t.end_pos ≡ t.start_pos
        → t.line_number ≡ 1 + newlines input t.end_pos
        → IsStream from (t ∷ [])
    next :
        {from : ℕ} {t : Token} {ts : List Token}
        → IsInner t.kind
        → from ≤ t.start_pos
        → t.start_pos < t.end_pos
        → t.line_number ≡ 1 + newlines input t.end_pos
        → IsStream t.end_pos ts
        → IsStream from (t ∷ ts)

  token_loop-last :
      (fuel : ℕ) (s a : Cursor) (t : Token)
      → next_token input s ≡ (t, a)
      → is_eof t.kind ≡ true
      → token_loop input (suc fuel) s ≡ some (t ∷ [], a)
  unfolding token_loop
  token_loop-last fuel s a t e h =
      subst (λ p. is_eof p.0.kind ≡ true → token_loop input (suc fuel) s ≡ some (p.0 ∷ [], p.1)) e
        (λ h'. rw (h', token_loop) refl) h

  token_loop-next :
      (fuel : ℕ) (s a b : Cursor) (t : Token) (ts : List Token)
      → next_token input s ≡ (t, a)
      → is_eof t.kind ≡ false
      → token_loop input fuel a ≡ some (ts, b)
      → token_loop input (suc fuel) s ≡ some (t ∷ ts, b)
  unfolding token_loop
  token_loop-next fuel s a b t ts e h e' =
      subst
        (λ p.
          is_eof p.0.kind ≡ false
          → token_loop input fuel p.1 ≡ some (ts, b)
          → token_loop input (suc fuel) s ≡ some (p.0 ∷ ts, b))
        e (λ h' r. rw (h', token_loop, r) refl) h e'

  -- The tokens from a cursor on, read to the end.
  abbrev Reads : ℕ → Cursor → Type 0
  Reads fuel s =
      (ts : List Token) × (end : Cursor) × (token_loop input fuel s ≡ some (ts, end))
      × IsStream s.position ts

  abbrev eof_token : Cursor → Token
  eof_token u = create_token input end_of_file u.position u.position [] u

  next_token-end :
      (s : Cursor)
      → is_at_end input (skip_whitespace_and_comments input s) ≡ true
      → next_token input s
        ≡ (eof_token (skip_whitespace_and_comments input s), skip_whitespace_and_comments input s)
  unfolding next_token match_token
  next_token-end s h = rw h refl

  Reads-last :
      (fuel : ℕ) (s u : Cursor)
      → next_token input s ≡ (eof_token u, u)
      → s.position ≤ u.position
      → IsLocated u
      → is_at_end input u ≡ true
      → Reads (suc fuel) s
  unfolding create_token is_at_end
  Reads-last fuel s u e le loc h = (
    eof_token u ∷ [],
    u,
    token_loop-last fuel s u (eof_token u) e refl,
    last refl le (ground arith) refl loc,
  )

  Reads-next :
      (fuel : ℕ) (s u : Cursor) (p : Token × Cursor)
      → next_token input s ≡ p
      → s.position ≤ u.position
      → IsLocated u
      → Matched input u p
      → ((v : Cursor) → u.position < v.position → IsLocated v → Reads fuel v)
      → Reads (suc fuel) s
  unfolding create_token
  Reads-next fuel s u _ e le loc (created {after = a} t v inner moved) later =
      let moves : u.position < a.position =
        omega (arith, Advances-position input moved, position-advance input u) in
      let loc_a = Advances-IsLocated (move moved) loc in
      let (ts, b, e', stream) = later a moves loc_a in
      (
        create_token input t u.position a.position v a ∷ ts,
        b,
        token_loop-next fuel s a b _ ts e inner e',
        next inner le moves loc_a stream,
      )

  reads : (fuel : ℕ) (s : Cursor) → IsLocated s → length input - s.position < fuel → Reads fuel s
  reads zero s loc h = absurd (omega arith)
  reads (suc fuel) s loc h =
      let u = skip_whitespace_and_comments input s in
      let skipped = skip-Advances input s in
      let le = Advances-position input skipped in
      let loc_u = Advances-IsLocated skipped loc in
      elim (Bool-cases (is_at_end input u)) [
        | inl e ↦ Reads-last fuel s u (next_token-end s e) le loc_u e
        | inr e ↦
            Reads-next fuel s u (match_token input u) (unfold next_token in refl) le loc_u
              (token-Matched input u e)
              (λ v lt loc_v. reads fuel v loc_v (unfold is_at_end in ground arith))
      ]

  pub token_loop-IsStream :
      (ts : List Token) × (end : Cursor) × (token_loop input (length input + 2) start_cursor
        ≡ some (ts, end))
      × IsStream 0 ts
  token_loop-IsStream = reads (length input + 2) start_cursor (newlines-zero input) (omega arith)

lookup-insert_same {ℓ} :
    {V : Type ℓ} (key : Bytes) (v : V) (m : Dict V) → lookup key (insert key v m) ≡ some v
lookup-insert_same key v m = ground (arith, lookup-insert key key v m, bytes_eq_iff key key)

-- What a run of `tokenizeNamespace` gives: the namespace has to be a scope, which it enters.
abbrev pub tokenized :
    Bytes → List Token → Lexer → SymbolContainer → Result (List Token × Lexer × SymbolContainer)
tokenized ns ts after c = elim (lookup ns c.scopes) [
  | none ↦ throws no_scope
  | some _ ↦ ok (ts, after, record c { stack = ns ∷ c.stack })
]

tokenize_namespace-run :
    (ns input : Bytes) (ts : List Token) (end : Cursor) (l : Lexer) (c : SymbolContainer)
    → lookup ns l.inputs ≡ some input
    → lookup ns l.cursors ≡ some start_cursor
    → token_loop input (length input + 2) start_cursor ≡ some (ts, end)
    → tokenize_namespace ns l c
      ≡ some (
          tokenized ns ts
            (record {
              inputs = l.inputs;
              cursors = insert ns end l.cursors;
              tokens = insert ns ts l.tokens;
            })
            c)
unfolding tokenize_namespace
tokenize_namespace-run ns input ts end l c h k e = elim (Option-cases (lookup ns c.scopes)) [
  | inl missing ↦ rw (h, tokenize_namespace, missing, enter, tokenized) refl
  | inr (table, found) ↦ rw (h, tokenize_namespace, found, enter, k, e, tokenized) refl
]

-- Adding an input to a lexer and tokenizing it ends. Where the namespace is no scope of the
-- container it throws; else it gives the tokens of the input from its start, keeps them for
-- `getTokens`, and enters the scope, whatever the lexer held before.
pub tokenize_namespace-add_namespace_input :
    (ns input : Bytes) (l : Lexer) (c : SymbolContainer)
    → (ts : List Token) × (after : Lexer) × (tokenize_namespace ns
          (add_namespace_input ns input l)
          c
        ≡ some (tokenized ns ts after c))
      × (get_tokens ns after ≡ ts)
      × IsStream input 0 ts
unfolding add_namespace_input get_tokens
tokenize_namespace-add_namespace_input ns input l c =
    let (ts, end, e, stream) = token_loop-IsStream input in
    (
      ts,
      record {
        inputs = insert ns input l.inputs;
        cursors = insert ns end (insert ns start_cursor l.cursors);
        tokens = insert ns ts l.tokens;
      },
      tokenize_namespace-run ns input ts end (add_namespace_input ns input l) c
          (lookup-insert_same ns input l.inputs) (lookup-insert_same ns start_cursor l.cursors) e,
      rw (lookup-insert_same ns ts l.tokens, get_tokens) refl,
      stream,
    )
