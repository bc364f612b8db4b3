-- ===== src/Lib.antt =====
-- likwid-bench runs assembly kernels on the hardware threads of a machine and reports what it
-- measures. A kernel file describes streams, variables and metrics; formulas in it are evaluated
-- by the calculator, results and variables are kept in maps; bitmaps, roundings and stacks are
-- helpers.
--
-- This library models the parts of the C code that compute rather than drive the machine:
--
--   src/stack.c, include/stack.h      Stack, with Stack/Spec and Stack/Refine
--   src/bitmap.c, include/bitmap.h    Bitmap, with Bitmap/Bits and Bitmap/Create
--   include/bitmask.h                 Bitmask, with Bitmask/Rounding, Bitmask/Masks and Bitmask/Pow2
--   src/map.c, include/map.h          Map, with Map/Valid, Map/Find, Map/Stores and Map/Ops
--   src/calculator.c                  Calculator, with a module for each stage
--   src/bstrlib_helper.c              Bstrings, with Entries, Sorting, Removal, Tokens and Number
--   src/threads.c, likwid-bench.c     Threads, with Protocol, Queue and Parts
--   src/bench.c                       Bench
--   src/allocator.c                   Allocator, with Initialize
--   src/topology.c                    Topology
--   src/results.c                     Results, with Results/Entries and Results/Dictionary
--
-- Base has what they share: Boolean tests and lists over the native numbers, results that carry
-- an errno, C strings as lists of bytes and the bit operations of a machine word.
--
-- How the parts interact: `calculator_calc` (Calculator/Api) hands a formula that is no command
-- to `tokenize` (Calculator/Lexer), the tokens to `postfix` (Calculator/Machine), which calls
-- `evalStackPush`, `doOp` and `doFunc` (Calculator/Func) on an output stack, and reads the one
-- number left there. The stacks of the calculator are bounded lists of tokens, which is the
-- contract that Stack/Spec states for the array of src/stack.c. Functions keep the names of the
-- source, in lower case with underscores, without the prefixes that the module's name gives
-- (`calculator_setprecision` is Settings.set_precision, `create_bitmap` is Bitmap.create).
--
-- The main thread sends each worker of a group the commands to initialize, to run and to exit;
-- Threads/Protocol has the workers and the main thread as a step relation, in which a step is one
-- access to the shared state, and a barrier opens when all have come to it. The queue that a step
-- sends to and takes from is a list there, and a chain of nodes on a heap in Threads/Queue. Each
-- worker gets a part of every stream: Threads/Parts has its pointer and the checks on it, on top
-- of the sizes in Allocator. While it runs, a worker chooses how often it calls the kernel: Bench
-- has that loop, and its number of rounds is a parameter of Threads/Protocol.
--
-- Which hardware threads the workers are pinned to follows the order that the sort in Topology
-- gives them, a counting sort for each level of the machine.
--
-- A result is two maps of Map with byte strings as keys, which Results/Dictionary compares with
-- two functions from names to texts.
--
-- The meaning of formulas is stated apart from the code: Calculator/Formula has the grammar as
-- syntax trees and the tokens in which each is written, Calculator/Value the value of a tree by
-- recursion. Calculator/Order and Calculator/Emits connect the shunting-yard loop with them.
--
-- Parameters. `double`, libm, `strtod` and `printf` are the record Double of Calculator/Number,
-- with no laws; the theorems hold for every such type. The theorem on `calculator_calc` is about
-- a fixed precision and takes from `printf` that no number is printed as the token "|"; those on
-- its loop hold for every printing of numbers that returns. The hash table under the maps (a copy
-- of GLib's, src/ghash.c) is the record Hash with the laws Map/Valid.Laws; Map/Tests has an
-- instance. Whether `malloc` and `realloc` succeed, and in Map whether the key and the index get
-- their copies (Map.Memory), is a parameter in Stack, Bitmap, Map and Bstrings; in the calculator
-- they succeed. The comparisons and copies of the bstring library (`bstrcmp`, `bstrncmp`,
-- `bstr2cstr`), `posix_memalign` with the line size of the cache, the address that `malloc` gives
-- and the codes of the pthread calls in `send_cmd`, the time that a round of the kernel takes and
-- the comparison of times in `double` are parameters of the definitions that use them.
--
-- Bounds and fuel. Sizes and indices are natural numbers; where the C code computes with a
-- machine word that can wrap (the word count of a bitmap), the model wraps too. The loop of
-- `tokenize` runs on fuel of one more than the length of the string: every round takes one
-- character at least. `num2str` runs on fuel that its caller gives, since the loop of the
-- automatic precision need not end: 22 passes are enough wherever it ends. The counts of a map
-- are below INT_MAX as long as `realloc` gives no more entries than that. The loop of
-- `bstrListAdd` runs on fuel 33, more than the doublings from 1 to a number that is no `int`; the
-- sort and the deletions on as many rounds as the list has entries, of which each takes one away
-- or passes one; the timing loop on 61 rounds where it is said to end, since 10 doubled 60 times
-- is a 64-bit word. All other loops are structural. An `int` of the hardware threads is its
-- distance from INT_MIN. A run of the workers is any sequence of steps.
--
-- Not modelled: messages on the terminal, the stack `intermediate` of `postfix` (it only collects
-- what is freed at the end), ownership of token strings, the vendored src/ghash.c and
-- src/bstrlib.c, the creation, pinning and joining of threads, workers of more than one group,
-- half precision, and the parts that read files, load kernels or ask the system for its topology.
pub mod Base
pub mod Stack
pub mod Bitmap
pub mod Bitmask
pub mod Map
pub mod Calculator
pub mod Bstrings
pub mod Threads
pub mod Bench
pub mod Allocator
pub mod Topology
pub mod Results
