-- ===== src/Lib.antt =====
-- Verification of the C code of Ern-OS: the runtime and the compiler that
-- toolchain/epc_bootstrap.c holds. The file is one program: a runtime of growable lists, maps,
-- deques, strings and a collector, and on top of it the Ernos compiler, which keeps its tokens
-- and its syntax tree in the runtime's lists.
--
-- Which file models which part (all line numbers and names are those of
-- toolchain/epc_bootstrap.c):
--   EpList    the growable list: create_list, append_list, get_list, set_list, length_list,
--             pop_list, remove_list. EpList/Spec is the sequence that it stands for.
--   Deque     the ring buffer EpDeque: deque_resize and the pushes and pops at both ends.
--   Channel   the channels between threads: create_channel, send_channel, receive_channel,
--             channel_try_recv and channel_has_data, each as one step under the channel's lock,
--             in any order.
--   EpMap     the map with linear probing: create_map, map_insert with map_resize, map_get_val,
--             map_contains, map_delete, map_keys, map_values, map_size. EpMap/Spec is the finite
--             map that it stands for.
--   Bytes     C strings as lists of bytes, and the string functions, one child for each:
--             Search (string_index_of, string_contains), Replace, Split, Trim, Base64,
--             Builder (ep_sb_*), Digits (parse_int, cg_int_to_str), Paths (get_file_stem,
--             get_file_dir).
--   Ast       the nodes of the syntax tree, make_node_*, as the lists that they are.
--   Lexer     the compiler's lexer: match_next_word, lex_string_body and tokenize_source.
--   Parser    the parser, parse_program and the functions it calls, on a state that is passed on:
--             State (the tokens and flags), Lists, Calls and Expr (expressions), Statement and
--             Program. Ends is what it is to end with the flags restored, and Steps, Serves,
--             ExprEnds, StatementEnds and ProgramEnds show it of each function; Stops is where
--             parse_program stops. Print is a printer of expressions, View what the state shows of
--             the tokens, and Operators, Reads and Printed show how parse_expr reads them.
--             Source prints programs of imports and constants, and Lines and Sourced show how
--             parse_program reads those.
--   Fold      the optimiser: opt_fold_expr, opt_fold_stmts and optimize_program, on trees with a
--             constructor for each kind of node that they look at. Fold/Meaning is what a meaning
--             of a program is, and Fold/Constants has rules for what is constant.
--   SymbolMap the maps of the code generator: map_get, map_contains_key and map_put.
--   Escape    the literals of the code generator, escape_string, and how the lexer reads them.
--   Base      shared helpers: tests, lists, integers, memory blocks.
--
-- Numbers. A `long long` is an integer of Base/Int where its sign matters, and a natural number
-- where the code keeps it from being negative. `size_t` arithmetic that wraps is written out
-- with its modulus, and so are an int and a `long long` where they can overflow: the `int count`
-- of string_replace, and the values of parse_int and cg_int_to_str; where C leaves the overflow of
-- a signed number undefined, it is taken to wrap around. A pointer that the code tests against
-- NULL, or with EP_BADPTR, is an option. Memory that was allocated and not written holds a value about which nothing is assumed.
--
-- Fuel. A loop that is no recursion on a list takes fuel: the loops of string_split and
-- string_replace one more than the length of the text, of which every round takes a byte at
-- least; the loop of cg_int_to_str the number itself, which every round divides by ten; the
-- growing loop of ep_sb_append the size that is needed, since every round adds a byte at least.
-- The probing loops of EpMap take the capacity, which is the number of steps around the table:
-- the reading ones stop there themselves, and the writing ones meet a free slot before.
-- The loops of the lexer take the length of the source, in which every round goes forward, and
-- the loops over a literal one more; the calls of tokenize_source for an interpolated expression
-- take the depth to which they nest, of which one more than the length of the text is enough,
-- since the expression is shorter than the literal around it.
-- The functions of the parser call each other behind a token that they have consumed, so calls
-- as deep as there are tokens are enough, and so are as many rounds for each of their loops.
-- The theorems below hold of the results, so the fuel is enough.
--
-- Not modelled: a failing malloc, and what only calls the operating system (files, sockets,
-- threads, time, terminals). `strlen`, `strstr`, `strncmp`, `isspace` and `toupper` are read as C
-- defines them in its own locale; the text that `snprintf` writes for a number is a parameter,
-- and so are the addresses that `strdup` gives, where the map compares them with 0x100000. The
-- memory that a map follows a key into is taken to be readable.
pub mod Base
pub mod EpList
pub mod Deque
pub mod EpMap
pub mod Bytes
pub mod Ast
pub mod Escape
pub mod Fold
pub mod Lexer
pub mod SymbolMap
pub mod Parser
pub mod Channel
