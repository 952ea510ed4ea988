-- ===== src/Lib.antt =====
-- A model of the C code of the Wren virtual machine that this toolkit builds on (lib/wren/src), with
-- proofs of what its components promise.
--
-- The parts, and how they meet: the compiler (lib/wren/src/vm/wren_compiler.c) turns source text into
-- bytecode, the interpreter (wren_vm.c) runs it on values and objects (wren_value.c), and both use the
-- helpers of wren_utils.c. The compiler keeps its constants in the same hash table that programs use.
--
-- - Base: shared names, lists indexed by native numbers, Boolean tests, integers, and masks of words
--   as arithmetic.
-- - Utf8: wrenUtf8EncodeNumBytes, wrenUtf8Encode, wrenUtf8Decode and wrenUtf8DecodeNumBytes of
--   lib/wren/src/vm/wren_utils.c. A byte pointer with its length is a list.
-- - Bytecode.Code: the instructions of lib/wren/src/vm/wren_opcodes.h with their numbers and stack
--   effects. Bytecode.Operands: getNumArguments of wren_compiler.c. Bytecode.Dump: how far
--   dumpInstruction and wrenDumpCode of wren_debug.c read. Bytecode.Emit: emitByte to emitJump and
--   patchJump, over the fields of a Compiler that they use. Bytecode.Loops: startLoop, testExitLoop
--   and endLoop. The upvalue count of a function constant is a parameter.
-- - Map: findEntry, insertEntry, resizeMap, wrenMapGet, wrenMapSet, wrenMapClear and wrenMapRemoveKey
--   of lib/wren/src/vm/wren_value.c. An entry is empty, deleted, or a key with a value. Keys are an
--   interface of an equality and a hash, with the laws that the equality is one and that equal keys
--   have one hash. Map.Values and Map.Equality fill it with wrenValuesEqual and hashValue, on all keys
--   but ranges with an end -0.0, for which the laws do not hold, and Map.Program says what the
--   operations do on these keys. Allocation is left out. A write through the NULL slot that
--   findEntry gives for a full table is the result none.
-- - Scopes: addLocal to resolveNonmodule of lib/wren/src/vm/wren_compiler.c: local variables, block
--   scopes and upvalues. A chain of compilers is a list, innermost first. A write behind the array of
--   a compiler's upvalues is the result none. Variables of a module are left out.
-- - Index: validateIndexValue and calculateRange of lib/wren/src/vm/wren_primitive.c, and the index
--   that list_subscript of wren_core.c reads. A double is an integer, an infinity, or what fails
--   the check for integers.
-- - Paths: lib/wren/src/cli/path.c on POSIX. A buffer is a list of characters with a capacity.
-- - Gc: wrenGrayObj to wrenBlackenObjects of lib/wren/src/vm/wren_value.c, wrenMarkCompiler of
--   wren_compiler.c, wrenBlackenSymbolTable of wren_utils.c and wrenCollectGarbage of wren_vm.c.
--   Addresses are numbers, memory is a function of them, the list of all objects is a list, and an
--   object keeps of its fields those that refer to others, but for the class of an object that is of
--   a class of the core library. Bytes in use are not counted.
-- - Strings: hashString, wrenNewStringLength, wrenStringFind, wrenStringFromCodePoint,
--   wrenStringFromByte and wrenStringCodePointAt of lib/wren/src/vm/wren_value.c.
-- - Fibers: runFiber and the primitives of fibers in lib/wren/src/vm/wren_core.c, runtimeError and
--   CODE_RETURN of wren_vm.c. Fibers are places in a list; stacks and call frames have the top first,
--   and a value is a number, null or an error message. Fibers.Interpreter puts the primitives
--   together with what runInterpreter does after them; Fibers.Runs is any sequence of these.
-- - Closures: captureUpvalue and closeUpvalues of lib/wren/src/vm/wren_vm.c, and the instructions
--   that read, write and discard captured variables. A pointer into the stack is the number of a slot,
--   an upvalue's address its place among all upvalues.
-- - Buffers: the buffers of DEFINE_BUFFER in lib/wren/src/vm/wren_utils.h, wrenPowerOf2Ceil of
--   wren_utils.c, wrenListInsert and wrenListRemoveAt of wren_value.c. The elements in use are a list;
--   the C null value is a parameter, and an access of wrenListInsert out of bounds is the result none.
-- - Symbols: wrenSymbolTableFind, wrenSymbolTableAdd and wrenSymbolTableEnsure of wren_utils.c.
-- - Interpreter: the loop of runInterpreter in lib/wren/src/vm/wren_vm.c, and its instructions but for
--   calls, returns, classes and imports. A call frame keeps what does not change while it runs; an
--   access out of range is the result none, the operands are taken to be in the code.
--   Interpreter.Agreement compares the instructions with the compiler's tables, and Interpreter.Runs
--   the stack with what the compiler reckons.
-- - Lexer: isName to nextToken of lib/wren/src/vm/wren_compiler.c. A pointer into the source is the
--   text from there on, with its NUL; a read behind the NUL is the result none. An int of an escape
--   is its 32 bits. The C library's strtod and strtoll are parameters; of the error messages only
--   their kind is kept. Lexer.Spelling is how tokens are written, Lexer.RoundTrip reads them again,
--   and Lexer.Safety is about the bounds of the source.
--
-- Loops: the probe loop of findEntry runs at most one round for each slot; the scan of endLoop has one
-- round of fuel for each byte of the code and one more, and every round steps on by a byte at least.
-- The loop of pathNormalize has a round for each character and one more, and each round takes a
-- character; the growing of a buffer has a round for each byte asked for, and each round doubles it.
-- The search in a string has a round for each byte of the haystack and one more, and each round moves
-- on by a byte at least. Marking has a round for each object and one more, since an object is queued
-- once. The walk of runtimeError has a round for each fiber and one more, and each unhooks a fiber.
-- The loops of nextToken and readString have a round for each character left and one more, and each
-- round takes a character; the other loops of the lexer run over the characters left.
--
-- Not modelled: the parser, the formatting and slices of strings, calls, classes and imports in the
-- interpreter, most primitives of the core library, the embedding interface, the optional modules, the
-- command line and its modules but for paths, libuv (a third-party library) and the Haxe binding
-- generator.
pub mod Base
pub mod Utf8
pub mod Bytecode
pub mod Map
pub mod Scopes
pub mod Paths
pub mod Index
pub mod Gc
pub mod Strings
pub mod Fibers
pub mod Closures
pub mod Buffers
pub mod Symbols
pub mod Lexer
pub mod Interpreter
