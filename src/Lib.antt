-- ===== src/Lib.antt =====
-- Verification of the mulle-objc runtime: models of its components, translated from the C source,
-- with the theorems that make them correct. Paths are those of the repository.
--
-- The parts, and how they interact. A message is sent by looking up the implementation under the
-- method id, a 32-bit hash of the selector (Uniqueid), in the class's cache (Cache). A cache is a
-- table with open addressing that threads read and write without locks; when it gets full, it is
-- replaced behind a pivot (Cache.Pivot). What the cache does not have is searched in the class and
-- what it inherits from (Classsearch): in method lists (Methodlist, of Methods), which are sorted
-- by method id once (Search). The lists of instance variables, properties and protocols are
-- searched with copies of the same code (Ivarlist, Propertylist, Protocollist), and so are the
-- arrays of the ids of categories and protocols (Uniqueidarray). Classes and categories are
-- installed when what they depend on is there and wait in queues until then (Load); the calls of
-- their +load methods are collected in a queue (Callqueue). Methods, instance variables and
-- properties carry their types as texts (Signature), which say how arguments are passed. Objects
-- are counted references (Retain), unless the pointer itself holds a number (Taggedpointer), which
-- retain and release leave alone.
--
-- - Cache: src/mulle-objc-cache.c and .h. The record Cache is struct _mulle_objc_cache with its
--   entries; probe_entryoffset, add_functionpointer_entry and the other functions keep the names
--   of the source without the prefix _mulle_objc_cache_. Cache.Slots to Cache.Add have the proofs.
-- - Cache.Pivot: _mulle_objc_cachepivot_swap and the fill loops of src/mulle-objc-cache.c and
--   src/mulle-objc-impcache.c, on caches at addresses.
-- - Taggedpointer: src/mulle-objc-taggedpointer.h, on the bit patterns of pointers and floats.
-- - Retain: src/mulle-objc-retain-release.c and .h, on the pattern in _retaincount_1. The methods
--   of the class are a parameter, a record of functions on objects. Retain.Lifecycle has the
--   abstract life of an object. Retain.Threads makes each access to _retaincount_1 a step, and
--   interleaves those of several threads.
-- - Search: what src/mulle-objc-methodlist.c, -ivarlist.c, -propertylist.c, -protocollist.c and
--   the _bsearch functions next to them have in common; Search.Sorted, Search.Sorting,
--   Search.Walks.
-- - Method, Methodlist, Ivarlist, Propertylist, Protocollist: the types, comparisons and lists of
--   src/mulle-objc-method.c, src/mulle-objc-methodlist.c and so on.
-- - Uniqueid, Uniqueidarray: src/mulle-objc-uniqueid.c, src/mulle-objc-uniqueidarray.c and .h.
-- - Classsearch: src/mulle-objc-class-search.c: the classes, and the search over a class, its
--   mixins and its superclasses, with its modes and its callback. Classsearch.Descent follows
--   _mulle_objc_class_search_method_internal part by part; Classsearch.Linear writes down the
--   order in which the lists are searched.
-- - Signature: src/mulle-objc-signature.c and .h, and what src/mulle-metaabi.h has on parameters.
--   Signature.Parse is _mulle_objc_type_parse with what it calls; Signature.Encode has C types,
--   how the compiler writes them and the sizes that the runtime gives them, without the parser;
--   Signature.Clayout has the sizes and alignments of C, without the runtime. Signature.Walk goes
--   through a signature, Signature.Enumerator is the signature enumerator with the frame of an
--   invocation, Signature.Compare the comparisons, Signature.Binary the enumerator of fields, with
--   Signature.Flat for types that are not nested, and Signature.Metaabi the kinds of parameters.
-- - Load: src/mulle-objc-load.c and .h. Load has what a class or category depends on, Load.Enqueue
--   the wait queues, in which an entry is filed under the hash of the class it misses, and the
--   installation, which tries again what waits; Load.Missing to Load.Kept have the proofs;
--   Load.Strings is the table of hashed strings.
-- - Callqueue: src/mulle-objc-callqueue.c, and what src/mulle-objc-methodlist.c adds to it.
-- - Prelude has the shared names, tests on numbers, arrays and bits; Tests has runs and examples.
--
-- Numbers are natural numbers; where the source has a machine word, its remainder is written out. A
-- NULL pointer is 0, or `none` of an Option. Loops that a structure does not bound run on fuel: a
-- probe of the cache gets as many rounds as there are entries, and the theorems show that it ends
-- within them if an entry is free; the fill loop ends within two rounds; a binary search gets one
-- round more than there are entries; a search over classes needs as much fuel as there are
-- superclasses and two more, one of them for the mixins. `none` of such a function is a loop that
-- has not ended. The parser of type encodings gets two rounds for each byte and two more, which is
-- enough for every text; the comparison of fields takes its fuel as an argument. Loading gets one
-- call within another for each entry of the wait queues and of the file, since each is installed
-- once. The indices of a binary search are C ints, whose sum does not overflow below 2^30 entries;
-- this bound is not part of the model. Nor is the overflow of an int by an array length or by the
-- width of a bitfield from 2^31 on, or of an unsigned int by the length of a hashed string.
--
-- Third-party code is a parameter: the FNV-1a hash, the sort mulle_qsort_r, the concurrent pointer
-- array, mulle_address_align, and the methods of classes. What is asked of each stands in the
-- theorems that need it. Memory comes without failure, since the allocators end the process then; a
-- cache that was handed to the aba allocator stays readable.
--
-- Not modelled: interleaved additions to one cache; functions on arrays of objects; registration of
-- classes and protocols beyond what loading needs, +initialize; static strings and supers of a
-- loaded file; the callbacks of the parser of type encodings, which do nothing in the runtime;
-- output, dumps, the dynamic loader, and code that ends the process.
pub mod Prelude
pub mod Cache
pub mod Taggedpointer
pub mod Retain
pub mod Search
pub mod Uniqueid
pub mod Uniqueidarray
pub mod Method
pub mod Methodlist
pub mod Ivarlist
pub mod Propertylist
pub mod Protocollist
pub mod Signature
pub mod Load
pub mod Callqueue
pub mod Classsearch
mod Tests
