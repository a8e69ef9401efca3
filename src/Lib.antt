-- ===== src/Lib.antt =====
-- Verification of cpplua, a C++ port of Lua 5.1.
--
-- The program compiles Lua text to bytecode and runs it. This library models the parts that stand
-- between text and machine: the lexer, the format of instructions, the code generator, the checker of
-- bytecode, the writer and loader of precompiled chunks with the streams under them; and of the run-time
-- system tables, interned strings, the open upvalues and the string library.
--
-- Parts and files:
-- - Opcodes: lopcodes.h and lopcodes.cpp. OpCode has the opcodes of enum OpCode; op_num is a
--   constructor's number; getarg_a, setarg_a, create_abc and so on are the macros GETARG_A, SETARG_A
--   and CREATE_ABC. An instruction is a natural number below 2 ^ 32; the macros are written with
--   division and remainder.
-- - Object: lobject.cpp. int2fb, fb2int, log2 and chunkid are luaO_int2fb and so on. Loops run on fuel:
--   30 rounds halve any 32-bit number away, 4 rounds shift it away by bytes.
-- - Memory: lmem.cpp and the macros of lmem.h. realloc is luaM_realloc_; the host's allocator is a
--   field, a function from sizes to whether the request is granted.
-- - Zio: lzio.cpp. A Zio has the counter, the bytes that are left in the buffer, and the blocks that the
--   host's reader will give, the end of the list being a reader that gives none.
-- - Proto: the functions of lobject.h. CheckCode: luaG_checkcode in ldebug.cpp; symb_loop is the loop of
--   symbexec, whose position grows in each round, so that as many rounds as instructions are enough.
--   A read outside an array is the outcome `fault`, fuel that ran out is `stuck`.
--   Operands has what the checks of one instruction ask of its operands.
-- - Chunk: Dump is ldump.cpp over the host's writer, which answers a status for each block; Undump is
--   lundump.cpp over a Zio, and calls checkcode as LoadFunction calls luaG_checkcode. The fuel of
--   load_function is the depth to which functions are nested. Encoding is the format as lists of bytes.
-- - Table: ltable.cpp. Nodes are known by their index, the values that a lookup points to are a Slot.
--   Walks along a chain have as much fuel as there are nodes. The arithmetic of lua_Number is the
--   record Numbers. Rehash has the counting and resizing, Traverse luaH_next and luaH_getn.
-- - Codegen: lcode.cpp. FuncState is the record of lparser.h with the arrays of its Proto. A jump list has
--   as much fuel as there are instructions. Expr has the expressions, Operators the operators; arithmetic
--   on numbers is a record. The limit of its registers is the one that CheckCode tests.
-- - Upvalues: lfunc.cpp. State has the chain openupval as a list, the links of the double list behind uvhead
--   as functions on ids, the stack, and the closed upvalues with their values. findupval and close are
--   luaF_findupval and luaF_close; the marks are those of lgc.h. Locals: luaF_getlocalname of lfunc.cpp.
-- - Strings: lstring.cpp. StringTable has the slots as a function from numbers to chains; intern is
--   luaS_newlstr, resize luaS_resize. Slots are chosen by the remainder, as sizes are powers of two.
-- - Strlib: lstrlib.cpp. Pattern has the matcher: MatchState is the record of match with its capture array,
--   pointers are offsets, and match recurs on fuel, the pattern's length plus one, as every recursive call
--   stands further on in the pattern. Find has string.find, string.match and the iterator of string.gmatch,
--   Replace string.gsub, Slice the functions on positions and bytes, Format scanformat and addquoted. Tables
--   and functions given to gsub are functions from values to answers. The stack of a call counts in
--   str_byte, whose first argument is the number of slots that are taken.
-- - Lexer: llex.cpp over a Zio. LexState is the record of llex.h; llex, read_string and read_long_string are
--   the functions of that name, on fuel that the characters left bound. luaO_str2d and the decimal point of
--   the locale are parameters. What Format quotes, Lexer reads.
-- - Prelude: tests, lists, integers, bits and outcomes that the parts share. Tests: concrete inputs.
--
-- Bounds: an int and an Instruction have 32 bits, a size_t and a lua_Number 64, and MAX_INT is 2 ^ 31 - 3;
-- the machine is little-endian. Strings are their bytes, as interned strings are equal when their bytes are.
--
-- Not modelled: the interpreter loop, calls and coroutines, the garbage collector, the parser,
-- the host interface, the other libraries for scripts and string.format's calls of
-- sprintf, which are glue over C or need the whole interpreter state; the texts of messages; addresses
-- of objects; failure of allocations outside Memory; a rehash inside a resize of a table.
pub mod Prelude
pub mod Opcodes
pub mod Object
pub mod Memory
pub mod Zio
pub mod Proto
pub mod CheckCode
pub mod Chunk
pub mod Table
pub mod Codegen
pub mod Upvalues
pub mod Locals
pub mod Strings
pub mod Strlib
pub mod Lexer
pub mod Tests
