-- ===== src/Lib.antt =====
-- plcstub, a stub of the tag library libplctag: a model of its C code, and what it does.
--
-- The library keeps tags in a red-black tree, by their IDs. A tag has a name, a type, a buffer of
-- bytes, a mutex and a callback. The calls of the interface (src/plcstub.c) look a tag up in the
-- tree (src/tagtree.c), take its mutex, call the callback and read or write the buffer, whose
-- layout the tag's type gives (src/types.c). A first call starts the library: it makes the tags of
-- tags.inc. The metatag "@tags", whose ID is 1, lists the others; it is made when somebody looks
-- it up, and dropped when a tag is made. Messages go to stderr under a debug level (src/debug.c).
--
--   Base       shared names, lists, bytes of texts, C's signed integers as ℤ
--   Outcome    how a call ends: it returns, the process ends, it waits for ever, or behaviour is
--              undefined, with the reason
--   Types      src/types.c, include/types.h: type_t and its operations; Size, Dup and Free are proofs
--   Bytes      the bytes of a buffer: little-endian encodings and bounded accesses; Laws
--   Status     the status codes of libplctag.h and plc_tag_decode_error; Names
--   Debug      src/debug.c, include/debug.h; Laws
--   Env        what is taken as given: Rb the tree of include/sys/tree.h, Libc malloc and the mutexes;
--              and Heap, the nodes at their addresses
--   TagTree    src/tagtree.c: State (static variables, locks of include/lock_utils.h), Metatag (the
--              packed entries of include/plcstub.h), Ops (the operations, under their names in C);
--              Lookup, Order, Sound, Same, Nodes, Create, Remove, Listing,
--              Readback (a reader of the metatag's contents), Metanode and Startup are proofs
--   Api        src/plcstub.c: Access (the accessors and TYPEMAP), Attrib (the attribute strings of
--              plc_tag_create), Calls (the other calls, under their names in C); RoundTrip, Refusal,
--              Unknown, Create, Lifetime, Locking, Callbacks, Bounds, Stale and Size are
--              proofs
--   Session    sequences of calls by one thread: Spec says what they promise over the tags alone, View
--              maps a state to its tags. The theorems are in Refines, Clients, Program (from the start
--              of the program), Untouched (calls on other tags), Relist (the metatag made again) and
--              Drift (the size counter); Node, Invariant, Lift, Listed, Lookup, Change, Add, Calm,
--              Returns, Steps, Start and Frame are their lemmas
--   Threads    tag_tree_init alone, run by several threads, with the tags made as the lines of tags.inc;
--              Weights, Invariant, Made, Safety and Progress are proofs
--   Parallel   sequences of calls by several threads, a step at a time. A call is a program that is
--              cut at every operation on a lock: Actions is what stands between, Tree and Calls are
--              the programs (tree_remove_prog for tag_tree_remove, and so on), Discipline says which
--              locks a thread holds where. The theorems are in Obeys, Exclusion, Guard, Finite,
--              Deadlock, Serial and Single; Alone (which compares a program that runs alone with the
--              operation of TagTree or Api), Waits, Keeps, Fresh, Counts, Moves, Invariant,
--              Standing, Progress and Runs are their lemmas
--   Tests      runs, and the theorems at concrete inputs
--
-- An operation takes the state (TagTree.State) and returns an outcome with the new state. Numbers are
-- natural numbers with the wrap-around of the C type written out; an int is an integer, and INT_MAX + 1
-- is a fault. The sizes are those of an LP64 target. Values of the accessors are bit patterns; the
-- conversion of a status code to float or double is an argument of the getters. Every loop is a
-- recursion on the list it goes through, so there is no fuel.
--
-- Parameters: the tree, with the laws of an ordered set for the operations that are called; malloc,
-- which may fail, gives an address that no node has and that is not NULL; whether a mutex can be made.
-- Env holds an instance of each. The library's other allocations succeed or fail as malloc says, but
-- strdup of a field name is taken to succeed, and so is strdup("@tags"), whose result the code does not
-- test. A pthread call that would report an error is a blocked call or a fault in the model.
--
-- Not modelled: plc_tag_get_size by several threads; the races of actions on memory without a lock (an
-- action between two operations on locks happens at once); the order in which a lock admits those who
-- wait for it, so that any of them may be next; what callbacks do; the text of log messages inside the
-- calls; addresses of buffers and names, and the freeing of the latter.
pub mod Base
pub mod Outcome
pub mod Debug
pub mod Types
pub mod Api
pub mod Threads
pub mod Session
pub mod Parallel
pub mod Tests
pub mod TagTree
pub mod Env
pub mod Status
pub mod Bytes
