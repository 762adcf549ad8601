-- ===== src/Lib.antt =====
-- OrtaVM: a virtual machine for a small assembly language. The assembler (src/asm.h) fills a program
-- of instructions and labels; the machine (src/orta.h) runs it, on fifteen registers, a stack of words,
-- a stack of return addresses, global and local variables, and the C heap.
--
-- The parts, each with the files that model it:
--
-- - Words and registers: Word, Register. A `Word` is its tag and its eight bytes as a number; `get_type`
--   and the register table.
-- - Stacks: Stack, for `XStack`. A list of words, the top first, and its capacity; a push on a full stack
--   answers false and is lost, a pop of an empty one gives the null pointer.
-- - Instructions: Instruction, the enumeration and the table `instructions` of names and argument counts.
-- - Programs: Program, for `Program`, `add_instruction`, `add_label` and `find_label`. An array is a list of
--   its used cells and a capacity, and a write behind the capacity is `undefined`.
-- - Operands: Number (`strtol`, `atoi`, printing), Operand (`is_number`, `is_float`, `is_string`, and so on).
-- - Variables: Variables, for `getvar`, `setvar`, `is_variable`. The current scope is the globals or a local
--   list.
-- - The machine: Vm, for `OrtaVM`, with what the code keeps in globals and in the process: the scope, the
--   heap and the printed lines, the last first.
-- - The handlers: Exec, the switch of `execute_instruction`, and its children: Push (push, mov, pop, load,
--   store), Arith, Compare, Jump (jmp, jmpif, call, ret), Text (print, merge, here, ovm), StackOps (dup, swap,
--   drop, rotl, rotr, cast, sizeof), Scope (variables, inc, dec), Alloc (alloc, free), System (xcall), Memory
--   (readmem, writemem, cpymem, memcmp), Sprintf.
-- - Expressions: Eval, for `eval`.
-- - Runs: Run, for `execute_program`: the start at the entry label, and the loop. Run.Loop has the steps of a
--   run, and Run.Sized the shape of a machine along a run; Run.Sized.Whole
--   composes the assembler and the run.
-- - Bytecode files: Flags, for `add_flag` and `set_flags`; Xbin, for `create_xbin`, and Xbin.Load, for
--   `load_xbin` and `load_bytecode_from_memory`. A file is the list of its bytes.
-- - The assembler: Asm, for src/asm.h. Asm.Lexer reads a token; Asm.Tokens has `tokenize` and the token
--   streams; Asm.Defines and Asm.Locals hold the preprocessor's state, its definitions and local labels;
--   Asm.Preprocess is `preprocess_file`; Asm.Parse is `parse_program`, which fills a program.
-- - Allocators: Allocator, for src/libs/allocator.h, with Arena, Region and Pool. An arena has the bytes of its
--   buffer; a pointer into it is an offset. A pool's list of free blocks goes through the links of the blocks.
-- - Bundles: Bundle, for `BundleFiles` and `UnbundleFiles` of src/xbd.c. A bundle is the list of its bytes, and
--   the file system a map from names to contents.
-- - The debugger: Debugger, for the breakpoints, `step`, `continue` and the commands of src/xd.c.
-- - The compiler: Nyva, for src/nyva.c, which writes assembly text for a small language. Nyva.Preprocess removes
--   comments and types; Nyva.Tokens and Nyva.Lexer are `tokenize`; Nyva.Syntax is `ASTNode`; Nyva.Parser has
--   expressions and Nyva.Statements the rest of `parse`; Nyva.Emit is the state of the code generator and what
--   `codegen_emit` writes, one constructor for each format; Nyva.Codegen generates expressions and Nyva.Generate
--   statements; Nyva.Compile is imports, `compile` and `main`; Nyva.Escape is `escape_string`.
-- - Hex: src/libs/xhex.h, the hexadecimal dump and its reverse. `dump_loop` and `reverse_loop` are the outer
--   loops of `xhex_print_hex_dump` and `xhex_reverse_hex_dump`, `cells` and `line_bytes` the inner ones.
-- - Builder: src/libs/sb.h, the string builder.
-- - Int32, Floats, Heap, Platform, Result: what the C code stands on.
--
-- How C is read. `Result` has three ways to end: `ok`, `exit` for the process that ends (`EERROR`, and
-- the vector library out of range), and `undefined` for what C does not define, such as a read through a
-- dangling pointer. An `int` is its bit pattern below 2 ^ 32, with wrap-around written out; a `size_t` wraps
-- at 2 ^ 64. A store to a short member of the union of a word clears the other bytes. The heap is a list of
-- live blocks; an address is not used twice, and allocation does not fail.
--
-- Arguments of the model. `Floats` holds the operations of C on floats, on their bits. `Platform` adds
-- `strcmp`, `memcmp`, `strtoull`, the text of a pointer, the address of the machine's stack and
-- `call_dynlib_function` for a library that `xcall` loads. The handler of `sprintf` is an argument of
-- the dispatcher, which `exec_sprintf` fills, and that has what `snprintf` writes for one conversion
-- as its own argument. The files that the compiler reads are a map from names to texts that end at their first
-- byte 0. `read_file` of the assembler is an argument that gives the text of a file, if
-- there is one, up to its first byte 0. The formats that it passes to `sscanf` are written out as C
-- defines them. The container library of src/libs is taken as lists.
--
-- Fuel. The loop of `execute_program` need not end, so `run_loop` takes fuel and answers `none` without it.
-- The loop of `eval` takes the length of the text and one more, since every round passes a byte of it.
--
-- The loops of the assembler take fuel too, and with it answers are `Result.Fueled`: `tokenize` one round more
-- than there are characters, `preprocessor_expand_defines` likewise, `parse_program` one more than there are
-- tokens, and `preprocess_file` seven levels of files, since a file on the sixth level is empty.
--
-- The parser of the compiler takes eight rounds for each token and eight more: a call that reads no token goes
-- to one of a lower rank, of which there are seven. Imports take 65, since the array of imported files has 64
-- places. The lexer's loop is bounded by the room in its array of 1024 tokens, behind which a token is written
-- outside it. In the compiler `fprintf` with NULL for a text prints as glibc does and goes on to `exit`; a label
-- counter does not overflow; a write behind a buffer or an array, a freed label and a missing text that is
-- copied are `undefined`.
--
-- The dump takes fuel for one round more than there are bytes, the reverse for a round for each character;
-- `Options.limit` is the field `length` of the C structure.
--
-- Not modelled: of src/libs/allocator.h what is copied into the blocks of regions and pools, and the dumps; of
-- src/xd.c and src/xbd.c the printing and `main`; what src/nyva.c frees, the command line, the shell and the
-- converters, the options and files of src/libs/xhex.h, the copied
-- libraries (vector, str, xthread), and the superseded machine in v1.
pub mod Prelude
pub mod Number
pub mod Register
pub mod Instruction
pub mod Floats
pub mod Word
pub mod Stack
pub mod Result
pub mod Heap
pub mod Program
pub mod Int32
pub mod Vm
pub mod Operand
pub mod Variables
pub mod Platform
pub mod Exec
pub mod Flags
pub mod Eval
pub mod Run
pub mod Allocator
pub mod Xbin
pub mod Asm
pub mod Bundle
pub mod Debugger
pub mod Nyva
pub mod Hex
pub mod Builder
mod Tests
