-- ===== src/Lib.antt =====
-- fapolicyd-analyzer: its library, its command line and its Python bindings.
--
-- The program reads the log of fapolicyd, one record a line, and prints rules that allow what the
-- log shows. All its own code is C. The parser (src/libfapolicyd-analyzer/parse.c) learns the keys
-- of a record from an exemplar line, then cuts each line in place and keeps pointers to the values
-- in two field arrays (field_array.c), one for the subject and one for the object. The command line
-- (src/cli/fapolicyd-analyzer.c) makes a rule of each record and keeps the rules in sets of strings
-- (util/hash_set.c); util/hash_table.c and util/array_list.c are further containers. table.c holds
-- tables of strings by columns with an index by value, which rpm.c fills with the installed
-- packages, their files and the digests (sha256.c) of these; match.c matches file names.
-- src/bindings/python/fapolicyanalyzer_wrap.c makes the library callable from Python.
--
-- Which file models what:
-- - Base.antt: shared names; C strings as the bytes before the terminator; lists indexed by
--   numbers; the codes of src/libfapolicyd-analyzer/error_codes.h; and what a call comes to, with
--   `abort()`, or the `exit` inside the library (sha256.c), and accesses outside the memory of
--   the program as outcomes of their own.
-- - Probe.antt: the open addressing of util/hash_set.c and util/hash_table.c, which differ in the
--   node only: `get_index`, `assign_node`, `free_index`, `rehash`, `grow`, `insert`, `remove`,
--   `initialize`, `clear` and `next` are the functions and blocks of those names there. A set or
--   a table is an array of optional nodes with its two counters.
-- - Fnv.antt: `_hash` of both files. HashSet.antt and HashTable.antt: the public functions,
--   `hash_set_add` as `HashSet.add` and so on.
-- - ArrayList.antt: util/array_list.c. A cell that was never written is `none`; `array_list_set`
--   is `put`.
-- - FieldArray.antt: field_array.c. Its arrays are null, freed or a block of pointers.
-- - Parse.antt: parse.c. A buffer is a list of bytes with what lies behind the terminator, a
--   pointer into it is an offset, and a `char *` that moves is a cursor (Parse/Cursor.antt);
--   reading past the buffer is a fault. `imbue_parser` is in Parse/Imbue.antt, `parse` in
--   Parse/Record.antt, the accessors in Parse/Context.antt. A record as text is in
--   Parse/Format.antt; the loops of `imbue_parser` over one are followed in Parse/Count.antt,
--   Parse/Sets.antt, Parse/Keys.antt and Parse/Taken.antt, that of `parse` in Parse/Steps.antt,
--   Parse/Fields.antt and Parse/Whole.antt, and on lines that it refuses in Parse/Reject.antt and
--   Parse/Refusing.antt.
-- - Sha256.antt: sha256.c (its block function in Sha256/Transform.antt), with the bytes that
--   `read` returns as an argument of `sha256_file`. Writing outside the block of 64 bytes is a
--   fault.
-- - UtArray.antt and UtHash.antt: what table.c uses of detail/utarray.h and detail/uthash.h,
--   copies of another project, as records of operations with their documented behaviour as laws,
--   and lists that fulfil them.
-- - Table.antt: table.c, `table_append_row` as `append_row` and so on, over these records; its
--   index in Table/Index.antt, where the structures that the hash links are numbered as they are
--   allocated.
-- - Rpm.antt and Rpm/Files.antt: rpm.c. The lines of a command, the status of a file and what
--   `read` gives are fields of `System`.
-- - Match.antt: match.c, with `fnmatch` as an argument.
-- - Cli.antt: src/cli/fapolicyd-analyzer.c up to `process_record`; Cli/Main.antt: `emit_rules`
--   and `main` from the first line of the log on, with the status of its `exit` and the printed
--   lines as its result (`Exit`). Cli/Main/Records.antt says what a log is, Cli/Main/Start.antt
--   treats `main` up to its loop, and Cli/Main/Log.antt and Cli/Main/Exits.antt have the theorems
--   on the whole.
-- - Bindings.antt: fapolicyanalyzer_wrap.c. What CPython says of an object is the record
--   `Python`. Bindings/Runtime.antt has the conversions of arguments and results,
--   Bindings/FieldArrays.antt, Bindings/Fields.antt and Bindings/Contexts.antt the wrappers
--   (`_wrap_field_array_set_key` is `wrap_set_key`), Bindings/Packing.antt bytes and pointers as
--   text. The memory behind the pointers is a `Heap`, where freed memory stays as such. A string
--   on it is all the bytes that were copied, embedded nulls included; the functions of C see it
--   up to the first one (`c_string`).
-- - Examples.antt: runs at concrete inputs.
--
-- A well-formed set or table of util/ (`IsValid`) has an array of the length that it records,
-- counts its nodes, has a vacant slot, finds each node where it stands, stores the hash of each
-- key, is at most one node over its load and has at least three slots. An array list that holds a
-- list of items (`Holds`) has them in its first cells. A field array is imbued with names
-- (`IsImbued`) when its key pointers lead to them in the exemplar and it has a cell for each value;
-- a context is ready for the keys of both sides (`IsReady`) when it holds an exemplar and each
-- array is imbued with its own. A table of table.c holds columns under names (`Holds` of
-- Table/Rows.antt) when its arrays have them as their items and all are equally long.
--
-- Numbers: `size_t` and `uint64_t` are natural numbers with their wrap-around at 2^64 written out
-- where the code can reach it; the `int` of a field array is its bit pattern. The byte counts that
-- array_list.c asks of `realloc` are taken without wrap-around, since they reach 2^64 only with
-- 2^61 pointers. The load test compares a float with 0.65; `over_load` in Probe.antt is that
-- comparison in whole numbers, exact up to 2^24 nodes. utarray counts its items in an `unsigned
-- int`, and doubles it, so its laws speak of fewer than 2^31 items.
--
-- Loops: the probe has fuel for as many rounds as there are slots, and the theorems say that it
-- returns; `parse` has fuel for each byte of the buffer and `imbue_parser` for each byte of the
-- exemplar; the loops of `emit_rules` and of the two value lookups have one round more than there
-- are slots or fields; the doubling loop of array_list.c has 65 rounds, more than a 64-bit capacity
-- can be doubled. The loops over rows and columns are counted. Running out of fuel is an outcome of
-- its own, which the theorems on the probe, on `imbue_parser`, on `parse`, on the lookups, on
-- `emit_rules` and on the doubling loop exclude.
--
-- Memory: whether an allocation succeeds is an argument of the function that asks for it, also of
-- the bindings, where a copy into memory that was refused is a fault. Construct functions of util/
-- that only allocate, and destroy functions, are left out, except where the bindings call them.
--
-- Not modelled: the vendored uthash and utarray (detail/), whose calls are parameters; in the
-- bindings the wrappers of rpm.h, sha256.h and table.h, and of the functions of parse.h that keep
-- or give pointers into a line (`parse` and the two field getters), since an address of the model
-- is that of a whole text; and the set-up of the module and its classes, which is glue around
-- CPython; how `main` opens its file; the tests.
pub mod Base
pub mod Probe
pub mod Fnv
pub mod HashSet
pub mod HashTable
pub mod ArrayList
pub mod FieldArray
pub mod Parse
pub mod Sha256
pub mod UtArray
pub mod UtHash
pub mod Table
pub mod Rpm
pub mod Match
pub mod Cli
pub mod Bindings
pub mod Examples
