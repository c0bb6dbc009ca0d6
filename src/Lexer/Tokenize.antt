-- ===== src/Lexer/Tokenize.antt =====
-- src/Lexer/Lexer.cpp: `tokenizeNamespace`, `addNamespaceInput` and `getTokens`.
use voidscript.Base.Dict.{Dict, lookup, insert}
use voidscript.Base.{
  ℕ, zero, suc, ◌+◌, true, false, List, [], ◌∷◌, Option, none, some, Bytes, length,
}
use voidscript.Lexer.Cursors.{Cursor, start_cursor}
use voidscript.Lexer.Matchers.{next_token}
use voidscript.Lexer.Tokens.{Token, is_eof}
use voidscript.Symbols.Container.{SymbolContainer, enter}
use voidscript.Value.{Result, ok, throws, undefined_behaviour}

-- The do-while loop, with fuel for its rounds; nothing where the fuel is used up.
unfoldable pub token_loop : Bytes → ℕ → Cursor → Option (List Token × Cursor)
unfolding next_token
token_loop input zero s = none
token_loop input (suc fuel) s =
    let (t, after) = next_token input s in
    elim (is_eof t.kind) [
      | true ↦ some (t ∷ [], after)
      | false ↦ elim (token_loop input fuel after) [
        | none ↦ none
        | some (ts, last) ↦ some (t ∷ ts, last)
      ]
    ]

-- The state of a `Lexer`: `inputs_`, the cursors, and `tokens_`.
pub record Lexer : Type 0 where
  pub inputs : Dict Bytes
  pub cursors : Dict Cursor
  pub tokens : Dict (List Token)

-- `addNamespaceInput`
unfoldable pub add_namespace_input : Bytes → Bytes → Lexer → Lexer
unfolding insert
add_namespace_input ns input l = record {
  inputs = insert ns input l.inputs;
  cursors = insert ns start_cursor l.cursors;
  tokens = l.tokens;
}

abbrev or_start : Option Cursor → Cursor
or_start none = start_cursor
or_start (some s) = s

-- `getTokens`
unfoldable pub get_tokens : Bytes → Lexer → List Token
unfolding lookup
get_tokens ns l = elim (lookup ns l.tokens) [ none ↦ [] | some ts ↦ ts ]

-- `tokenizeNamespace`: the tokens, the lexer afterwards, and the container of symbols, in which the
-- namespace is entered; `enter` throws where it is no scope. An input and a cursor are always added
-- together.
unfoldable pub tokenize_namespace :
    Bytes → Lexer → SymbolContainer → Option (Result (List Token × Lexer × SymbolContainer))
unfolding lookup insert token_loop enter
tokenize_namespace ns l c = elim (lookup ns l.inputs) [
  | none ↦ some (ok ([], l, c))
  | some input ↦ elim (enter ns c) [
    | throws e ↦ some (throws e)
    | undefined_behaviour ↦ some undefined_behaviour
    | ok entered ↦ elim (token_loop input (length input + 2) (or_start (lookup ns l.cursors))) [
      | none ↦ none
      | some (ts, last) ↦ some (
          ok (
            ts,
            record {
              inputs = l.inputs;
              cursors = insert ns last l.cursors;
              tokens = insert ns ts l.tokens;
            },
            entered,
          ))
    ]
  ]
]
