-- ===== src/Lib.antt =====
-- A verification library for tdutils, the utility library of a messenger client (td/utils).
--
-- tdutils has no main loop: its parts are called by the layers above it, and each is used by itself.
-- The files model them one by one. A function keeps its source name; a loop is a function of its own,
-- by recursion on the data it consumes.
--
--   Base       what the models share: Boolean tests, arrays, masks, fields and sums of machine words,
--              bytes, equality of slices (td/utils/Slice.h), and Result (td/utils/Status.h), a value or an
--              error with its message.
--   Base64     td/utils/base64.cpp. The `_impl` templates take `is_url` as an argument. Values has
--              the alphabets, Groups and Decode the decoder's loops, Buffer what they write to, Encode
--              and Padding the encoder and the signs; RoundTrip, Validate and Canonical relate encoder, decoder and validator.
--   Container  td/utils/Container.h, the slot map with generations: `slots_` and `empty_slots_` as
--              they are, ids as uint64 numbers. Ids has the arithmetic, Validity the invariant,
--              Lookup, Creation, Retirement and Access the operations through get, History
--              sequences of calls by clients that use the ids
--              they were given, Limits the wrapped generation and the overfull table.
--   Misc       td/utils/misc.h and td/utils/misc.cpp: character classes in Chars, hex_encode,
--              hex_decode and buffer_to_hex in Hex, zero_encode and its relatives in RunLength. Integers
--              has to_integer and to_integer_safe for signed types and the printers they are compared
--              with, print_uint and print_int of td/utils/StringBuilder.cpp; Decimal and SafeIntegers
--              have their properties. Split has split, full_split, implode, lpad0, begins_with and
--              ends_with, Parts what full_split makes of a text. HexNumbers has hex_to_integer and
--              hex_to_integer_safe.
--   OrderedEvents  td/utils/OrderedEventsProcessor.h. State says what an array with an offset holds,
--              Deliver has the loop, Settle the lines after it, Add both branches of add, Sequence
--              calls of add one after the other.
--   ChangesProcessor  td/utils/ChangesProcessor.h. Pending has the changes that are not processed and
--              finish, Marks a finish among all changes, Sequence add and calls of both one after the
--              other.
--   Utf8       td/utils/utf8.h and td/utils/utf8.cpp; RoundTrip writes a character and reads it;
--              Check has check_utf8, Sizes one round of its loop, Accepts what it says of a character.
--   Heap       td/utils/Heap.h, the K-ary heap whose nodes know their positions. Moves has a round of
--              either loop as an exchange of two items, Up and Down what it does to the order, Sink
--              the loop of fix_down, Places an item put at a place, Contents the heap as a map from nodes
--              to keys; Insert, Erase, Fix and Calls the calls.
--   VectorQueue  td/utils/VectorQueue.h. Contents says which list a queue stands for, Refinement and
--              Readers compare the calls that change it and those that read it with the list.
--
--   Parser     td/utils/Parser.h, a cursor over a text; Reads compares its ways to read up to a symbol.
--   Json       td/utils/JsonBuilder.h and td/utils/JsonBuilder.cpp. Escapes and Strings have the string
--              printer and parser; Chunks, Chars, Leads and Multibyte what one printed character is
--              read as, RoundTrip whole strings, Sizes and Accepts the checks of the printer, Skipping
--              json_string_skip. Values has the value parser and do_json_skip, with Progress on how
--              it ends and Skip on their agreement. Printer has JsonBuilder and JsonValue::store, with
--              Begins, Ends, Nesting, Steps and Scopes on what its text is read as. Fields and
--              IntegerFields have the getters.
--
-- A Slice or a string is the list of its bytes, numbers below 256 where a theorem needs it. A w-bit
-- unsigned integer is a natural number with its wrap-around written out. A failed CHECK, and a read
-- out of range where the code would have one, is `none`. Allocation does not fail. The loops
-- of Heap run on fuel, `pos + 1` rounds up and the size of the array down, and so does `drain` of
-- OrderedEvents: it is given one round more than `end - begin`, which is
-- enough since each round raises `begin` by one and stops at `end`. A sequence number is assumed to
-- be below 2 ^ 64 - 1, so that its successor does not wrap. The loops over items and fields of
-- do_json_decode and do_json_skip run on the length of the text and one more. `depth` is `max_depth`
-- and one more, 101 in json_decode. The buffer of a StringBuilder has no end. Errors of the JSON
-- parser, of the getters and of to_integer_safe leave out the symbol, the name or the text that their
-- message shows. print_uint runs on one round more than the number it prints, full_split on one more
-- than the length of the text. A write behind the buffer of base64_decode_impl is an error of its own.
--
-- In Container the empty object `DataT()` is the argument `blank`. The sequences of calls in History
-- are what its constructors name: create while the table has room, and erase, extract and reset_id of
-- ids that were issued, while the generation of the slot can still grow; clear is no call of them.
--
-- Not modelled: the platform layer (td/utils/port), logging, files, clocks, compression and
-- cryptography, which are system or library calls; the concurrent queues and memory reclamation,
-- which rest on a weak memory model; wrappers that only move ownership; for_each of Container,
-- which calls its argument on the ids; and JSON numbers of floating point, which the standard
-- library prints and parses.
pub mod Base
pub mod Base64
pub mod ChangesProcessor
pub mod Container
pub mod Heap
pub mod Json
pub mod Misc
pub mod OrderedEvents
pub mod Parser
pub mod Utf8
pub mod VectorQueue
