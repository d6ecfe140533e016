-- ===== src/Lib.antt =====
-- The joosc compiler, a compiler of Joos (a subset of Java) to i386 assembly: its lexer, the
-- weeder's rules on modifiers and integers, the parser's trees of binary operators, the parts of its
-- semantic analysis that do not need the table of a program's classes, the builder of intermediate
-- code, the layout of objects and the code of methods.
--
-- The program's parts and how they interact. `base/` has files, positions and errors. `lexer/` cuts
-- the bytes of each file into tokens (`LexJoosFiles`), drops comments and white space
-- (`StripSkippableTokens`) and reports tokens that Joos does not have. `parser/` makes a tree of
-- `ast/` from them, which `weeder/` checks. `types/` resolves and checks types; its type checker keeps
-- the local variables in a `SymbolTable` and decides conversions in `typechecker_utils.cpp`; then
-- `constant_folding.cpp` replaces constant expressions and collects the strings, and
-- `dataflow_visitor.cpp`, which needs the folded conditions, checks that code is reachable and that
-- methods return. `ir/` generates intermediate code: `StreamBuilder` appends the operations of a
-- method. `backend/common/offset_table.cpp` lays out the objects of all classes, and
-- `backend/i386/writer.cpp` reads the operations and writes assembly.
--
-- What models what:
--   Common         C++ that throws (`Outcome`, from `CHECK` in std.h), with an object that it changes
--                  (`Stateful`, in States) and what holds at its end (Ends), `std::map` (Maps),
--                  signed offsets (Integers), Boolean tests, lists
--   Base           base/file.h, base/file.cpp: `PosRange`, `File::At`, `FindLineStarts`,
--                  `IndexToLineCol`
--   Ast            ast/ids.h, ast/ids.cpp, and the part of ast/ast.h that the passes below visit;
--                  Modifiers has its `ModifierList`
--   Lexer          lexer/lexer.h, lexer/lexer.cpp, lexer/lexer_error.h: TokenType has the table
--                  `kEntries`; State, Step, Literals and Run have `LexState`, the state functions,
--                  `Run` and `LexJoosFile`; Escapes has `ConvertStringEscapes`; Operators has the
--                  classes of operators. Lexeme tells tokens and errors by what stands in a file; the others
--                  prove.
--   Parser         Precedence has `FixPrecedence` of parser/parser.cpp, on operands of any type
--   Weeder         Modifiers has weeder/modifier_visitor.cpp, and IntRange has `ConvertInt` of
--                  weeder/int_range_visitor.cpp
--   Types          Conversions has types/typechecker_utils.cpp, Symbols has types/symbol_table.cpp,
--                  Reachability has `ReachabilityVisitor` of types/dataflow_visitor.cpp, Folding has
--                  types/constant_folding.cpp, Info has the records of types/type_info_map.h. Their
--                  child modules prove.
--   Ir             Size has ir/size.cpp, Stream has ir/stream.h, Builder has ir/stream_builder.cpp
--                  and the memory handles of ir/mem.h; Script has a client's calls of the builder,
--                  and Script/Draft what each promises, without the vector of arguments
--   Backend        Offsets has `BuildTypeSizesAndFieldOffsets` of backend/common/offset_table.cpp; its
--                  children Methods, Interfaces and Table have the vtables, the itables, and static
--                  fields, native methods and the whole table. Asm has the lines of
--                  backend/common/asm_writer.h, and Writer has `WriteFunc` and `FuncWriter` of
--                  backend/i386/writer.cpp: Memory, Arithmetic and Calls have the operations, Func
--                  the method, Tables the printing of vtables, itables, static fields and stack
--                  frames. A record, `Context`, has the offset table, the file, and as a parameter
--                  what the writer asks of the table of classes. The other modules prove.
--
-- Stateful code takes its state and gives it back; what throws is an `Outcome`; errors that the code
-- appends to a list are part of the state or of the result. Vectors that are used as stacks are
-- lists with the top first. An `i32` is its 32-bit pattern, and undefined arithmetic throws.
--
-- Fuel. A loop of the lexer takes one more than the number of bytes left, since every round but the
-- last consumes a byte. `Run` takes two rounds for every byte, one of `Start` and one of the state
-- function that it chose, and two more. `ConvertStringEscapes` takes one more than the length of its
-- text, since every round consumes a byte. The digits of an `i32` are at most ten. The loop of
-- `FixPrecedence` takes two rounds for every operand and operator, and one more.
-- Running out of fuel throws, so a result that says that nothing is thrown says that there was enough.
--
-- Ids of memories and labels wrap around at 2 ^ 64. Byte counts of the offset table are numbers without
-- a bound, since a program has far fewer than 2 ^ 32 bytes of fields, and so are the stack offsets of a
-- method, which are signed. The destructor of a `Mem` is a call of `dealloc_mem`, which the client makes,
-- except in `neq`, whose temporary does not leave it.
--
-- Not modelled: the parser but `FixPrecedence`, the weeder's other rules, type sets, the table of classes
-- but its records, the type checker's visitors, the order of field initializers, the generator of
-- intermediate code, and the order of the files that the i386 writer prints with their strings,
-- initializers and entry point, which are components of their own or parts of one; and putting the
-- arguments into the lines of assembly, reading files and walking directories, the printing of errors,
-- the command line, the runtime library in Java and assembly, and tests, which are input and output or
-- not the program.
pub mod Ast
pub mod Backend
pub mod Base
pub mod Common
pub mod Ir
pub mod Lexer
pub mod Parser
pub mod Types
pub mod Weeder
