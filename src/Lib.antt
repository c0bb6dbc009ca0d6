-- ===== src/Lib.antt =====
-- VoidScript, the interpreter of a scripting language in C++: a model of its core, and what holds
-- of it.
--
-- A script is cut into tokens by the lexer (src/Lexer), parsed into operations, and run by the
-- interpreter (src/Interpreter), which keeps its variables, functions and classes in the scopes of a
-- symbol container (src/Symbols) and computes on the values of src/Symbols/Value.hpp. Native
-- functions come from modules (src/Modules/BuiltIn).
--
--  * Base: lists, byte strings, integers, maps and loops that the other files share.
--  * Value: src/Symbols/Value.hpp, Value.cpp and VariableTypes.hpp. A `Value` is the data with its
--    type tag; a null value keeps its tag. `Value.Print` is `Value::toString`, `Value.Maps` the
--    arrays of a script, which are maps from decimal indices, `Value.Floats` the floating-point
--    unit, a parameter of the definitions that use it. `Result` is how a routine ends: with a value,
--    by a throw, or in what C++ leaves undefined.
--  * Encoding: src/Modules/BuiltIn/EncodingModule.hpp. Each function takes the list of its
--    arguments (`url_encode` is `UrlEncode`).
--  * Csv: src/Modules/BuiltIn/CsvModule.hpp (`parse` is `Parse`, `encode` is `Encode`).
--  * Symbols: src/Symbols. `Symbols.Table` is `SymbolTable`, `Symbols.Container` the stack of scopes
--    of `SymbolContainer`, with the innermost scope first, `Symbols.Container.Add` what adds a
--    symbol, `Symbols.Container.Lookup` what looks one up through the stack, and
--    `Symbols.Container.Calls` the exit of a call (src/Interpreter/Nodes/Expression).
--    `Symbols.Classes` is the registry of classes, with their properties and methods.
--  * Operators: src/Interpreter/Nodes/Expression, `evaluate` of the binary and unary operators and of
--    the access to an element, on the values of the operands, and src/Symbols/NumericCoercion.hpp.
--    An `int` is an integer in the 32-bit range; a result outside it is undefined behaviour.
--  * Lexer: src/Lexer. A `Cursor` is the position, line and column of one namespace; the matchers
--    give the token and the cursor after it. `tokenizeNamespace` enters the namespace in the symbol
--    container, which it takes and gives back.
--  * Parser: the parser of expressions, `parseParsedExpression` of src/Parser/Parser.cpp, with
--    src/Parser/ParsedExpression.hpp and StringInterpolation.hpp, `applyOperator` and `pushOperand` of
--    src/Lexer/Operators.hpp and `fromString` of src/Symbols/Value.cpp. A parser takes the tokens from
--    the current one on and gives those that it leaves. `Parser.Rounds` has a definition for each
--    branch of the loop, `Parser.Expression` the loop and what follows it; the top of a stack comes
--    first. `Numerals` is the floating-point unit with `std::stod`, a parameter. The file, line and
--    column of a node are left out. `Parser.Grammar` is the grammar that the parser is measured by;
--    `Parser.Stacks`, `Parser.Runs`, `Parser.Items`, `Parser.Reads`,
--    `Parser.Halts`, `Parser.Literals.RoundTrip` and `Parser.Interpolation.RoundTrip` hold proofs.
--  * Interpreter: src/Interpreter. `Interpreter.Syntax` are the nodes, `Interpreter.Outcome` how a
--    node ends: by itself, by a C++ exception (`broke`, `continued` and `returned` are the control
--    flow signals, `failed` a `std::exception`), in undefined behaviour, or without fuel, each with
--    the state of the container and the next number of a call. `Interpreter.Variables` are
--    declarations and assignments, `Interpreter.Functions` how a call finds and enters a function,
--    `Interpreter.Nodes` the parts that nodes share, `Interpreter.Steps` and
--    `Interpreter.Statements` `evaluate` and `interpret` of each node. `Interpreter.Scopes`,
--    `Interpreter.Fuel`, `Interpreter.Failures`, `Interpreter.Types` and `Interpreter.Leaks` hold
--    proofs. A `Program` is what surrounds the nodes: the operations of
--    each function, the classes, the native functions, and the text of an exception, which is taken
--    without the position in the file.
--  * Tests: definitions at fixed inputs.
--
-- A loop of the lexer has the length of the input for fuel (`Base.Loops.loop`), which is more than
-- the rounds it can make, since each round moves the position of the cursor, and a cursor at the end
-- of the input leaves the loop. The loop over the tokens has two more, and is proved to end with the
-- last token in hand. Reading an array has one more than its members for fuel, and printing a
-- number one more than the number. The search of a property through the parents of a class has one
-- more than the registered classes, which is proved to be enough.
--
-- The parser takes fuel for the depth of expressions in expressions; its loops have one more than the
-- tokens that are left.
--
-- The interpreter takes fuel for the depth of its nodes and for the rounds of each loop, since a
-- script need not end.
--
-- Not modelled: the parser of statements, of types outside an object literal, and of definitions;
-- assignments to properties and elements, declarations of functions, classes and enums, and methods;
-- what the interpreter does with the registry of classes, of which a declaration asks for the
-- properties of a class only; the other native modules, the compiler and the front ends. A
-- `ValuePtr` is the value that it points to: sharing between pointers is left out. The counters of
-- the lexer and of the call frames do not wrap around. The text of a message that is put together
-- from parts is given by its parts.
pub mod Base
pub mod Value
pub mod Encoding
pub mod Csv
pub mod Symbols
pub mod Operators
pub mod Lexer
pub mod Parser
pub mod Interpreter
pub mod Tests
