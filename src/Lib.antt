-- ===== src/Lib.antt =====
-- libusual, a collection of code for writing server programs in C: containers, text handling, parsers
-- and buffers, each a pair usual/*.c and usual/*.h that the others call.
--
-- The parts that are modelled, each in the module of its name and the files in its directory:
-- Heap (usual/heap.c, usual/heap.h): the array is a memory with a fault outside `allocated`, one
--   function per C function (heap_push, heap_remove, bubble_up, ...), the save_pos callback writes
--   the user's memory of positions. The loops of bubble_up and bubble_down run on fuel, which the theorems show
--   to be enough.
-- Utf8 (usual/utf8.c, usual/utf8.h): a text is a list of bytes that ends where srcend points;
--   utf8_put_char returns the bytes that it stores.
-- Mbuf (usual/mbuf.h, usual/mbuf.c): Mbuf/State.antt has the struct and its initialisers,
--   Mbuf/Read.antt the functions that move the read cursor, Mbuf/Write.antt those that write, cut, copy and
--   compare. `none` is a fault: a byte loaded or stored outside the allocation, or the loop of
--   mbuf_make_room without an end. That loop has fuel 33, one more than the rounds after which a 32-bit
--   size has wrapped to 0; the theorems show that it is enough for up to 2^30 bytes in all.
-- AaTree (usual/aatree.c, usual/aatree.h): a subtree is a value, since every function of the source rewrites a
--   subtree and returns its root; NIL is constant, and a write to it is `none`.
--   Whether release_cb is NULL is a field, and a call through NULL is `none`.
-- Bits (usual/bits.h): the macros are functions of the width; fls and ffs are the loops for compilers
--   without the built-in functions, on as much fuel as the type has bits, which the theorems show to be enough.
-- Endian (usual/endian.h): the order of the host is an argument, memory is a function from addresses to
--   bytes, and memcpy of an integer stores or loads its bytes in that order.
-- PsRandom (usual/psrandom.c): the static variables are a record, what csrandom_bytes stores is the argument
--   `seed`. The loop of pseudo_random_range has fuel, one round for each value drawn; how many rounds it
--   takes depends on the values, so nothing is claimed about its end.
-- LinkedList (usual/list.h, usual/statlist.h, usual/list.c): the links of all nodes are a pair of functions of the
--   address, and each function makes the writes of the source in their order. The sort (LinkedList/Sort.antt) works on a
--   fragment as the list of its nodes; the loop that takes the nodes off the list has fuel, and
--   list_sort_lem shows that more fuel than nodes is enough.
-- PgUtil (usual/pgutil.c): quoting into a memory in which a store behind the destination is a fault. The loops of
--   pg_quote_literal and pg_quote_ident are copy_loop with the bytes at which they are left and the bytes that they
--   double; pg_is_reserved_word, a generated table, is a parameter. The length of a schema is an
--   int, so one of 2^31 bytes or more can be negative and fault. The parsing of arrays is not modelled.
-- Crc32 (usual/hashing/crc32.c): the table and the loop over the bytes.
-- SipHash (usual/hashing/siphash.c): SIP_ROUND1 with its assignments in order on a record of the four words, the loop over whole
--   blocks, which reads them with Endian's le64dec, and the switch as a recursion from its case down. The static
--   keys of siphash24_secure are a record, the results of csrandom an argument.
-- CbTree (usual/cbtree.c): objects are values of a type with the callback for their keys as a parameter; a child is a
--   node or an object, as the lowest bit of the pointer tells. Each loop goes down the tree and is a recursion on it.
--   CbTree/Critical.antt is about the first bit in which two keys differ, CbTree/Contract.antt and CbTree/Changes.antt about the
--   functions that users call, CbTree/AsIndex.antt makes of them what Index asks for.
-- Index (usual/cbtree.h): the record of the functions that StrPool and MDict call, with their laws over the objects in a row.
-- StrPool (usual/strpool.c): over any Index. A string is a value with its address; the field refcnt, which changes, is a
--   memory by address. The counters refcnt and count are int: an increment of the largest one is undefined, a fault,
--   and the theorems say how many references and strings there may be. What cx_alloc returns is an argument, of which StrPool/Get.antt supposes that no string of the pool
--   stands there. StrPool/Runs.antt is about any sequence of calls with the references that their callers hold.
-- MDict (usual/mdict.c): MDict.antt has the texts of URLs. urldec_str stores into a room of the size that its first loop
--   estimates, in a count without the limit of the source's int, behind which a store is a fault, as a read of an escape behind the text is; urlenc_str writes into a buffer of Mbuf, with an argument that tells when it
--   can grow. isalnum of the C library is a parameter, of which MDict/Whole.antt supposes that `%`, `+`, `&` and `=` are
--   no letters or digits. MDict/Dict.antt has the dictionary, over any Index as StrPool, and the texts of whole
--   dictionaries; the loop of mdict_urldecode has as much fuel as the text has bytes, which MDict/Decoding.antt shows to be
--   enough. mdict_free, which gives memory back, is not modelled.
-- Base: names of the libraries, tests on numbers, lists, steps that fail, 32-bit words and bit operations.
--
-- `unsigned` is a number with the remainder modulo 2 ^ 32 written out where the source can overflow,
-- `unsigned char` is a number below 256. The outcome of an allocation is an
-- argument, `granted`.
-- The parts call one another: strpool and mdict call cbtree through Index, mdict writes with mbuf_write_byte, cbtree finds the highest bit with fls, siphash24 reads words with le64dec and rotates them with rol64, list_sort and
-- statlist stand on the list operations, and pseudo_random_bytes stores words with le32enc, which its model writes out as bytes.
--
-- Not modelled: freeing of memory, the rest of usual/, which is input and output, a copy of libtls
-- (usual/tls), generated tables, or not treated yet (lists in shared memory, hash tables, parsers, the other hashes, digests,
-- allocators), and the build files and tests (mk, m4, test).
pub mod Base
pub mod Heap
pub mod SipHash
pub mod Utf8
pub mod Mbuf
pub mod AaTree
pub mod Bits
pub mod CbTree
pub mod Index
pub mod MDict
pub mod StrPool
pub mod Crc32
pub mod Endian
pub mod LinkedList
pub mod PgUtil
pub mod PsRandom
