-- ===== src/Lib.antt =====
-- Verification of codesearch: trigram indexes of source code and the queries over them.
--
-- sparse/set.go is Sparse. Its `Add`, `Has` and `Reset` are `add`, `has` and `reset`.
-- index/write.go and index/read.go share byte formats: Index/Varint is `writeUvarint` and
-- `binary.Uvarint`, Index/Posting the posting lists (`write_ids`, the reader's `next`, its loops),
-- Index/Read the posting list index (`findList`, `postingList`, `postingAnd`, `postingOr`), and
-- Index/Answer is `postingQuery`. index/regexp.go is Index/StringSet (`stringSet`) and Index/Query
-- (`Query`, `andOr`, `implies`, `andTrigrams`).
-- Index/Analyze is `RegexpQuery`: Analyze/Walk is `analyze`, Analyze/Combine `concat` and `alternate`,
-- Analyze/Simplify `simplify`, Analyze/Sets the sets, and Analyze/Texts says which texts match.
-- Index/Add is `Add` of index/write.go with `addName` and `flushPost`, over the calls of a reader,
-- Index/Sort is `sortPost`, Index/Heap is `postHeap`, and Index/Merge is the inner loop of
-- `mergePost`. The files that are flushed are lists of entries.
-- Index/Renumber is the posting lists of `Merge` (index/merge.go): `postMapReader` reads a list with
-- the numbers of the merged index and `postDataWriter` writes it, in the loops of Renumber/Loops.
-- Renumber/Maps makes the maps of the ids from the paths and the names, which are lists there.
-- Renumber/Ids says what `nextId` returns, Renumber/Tables and Renumber/Lookup what the merged lists
-- are.
--
-- index2/read.go is Shard: `FindTrigram` (`find_trigram`) and `PostingQuery` over the bitmaps of the
-- roaring library, a record of operations; Shard/Loops holds the laws that are asked of them.
-- Of index2/write.go, Shard/Collect is `addTrigrams`, and Shard/Write fills the trigram bytes as
-- `flushPostingLists` does.
-- cmd/cindex-serve/cache/cache.go is Cache: one function for each call that holds the mutex, and
-- Cache/Safety the calls as steps (`Step`, `Reach`). `AreTimely` excludes one of them, after which a
-- call can panic: the failure of a load behind its last release, while a newer load has its key.
-- expr/expr.go is Expr (the scanners) and Expr/Parse (`cleanRegexp`, `Parse`); a regular expression
-- is its operator and its parts, and its parser and its printer are parameters.
--
-- A byte, a uint32 and an int are natural numbers; the wrap of a uint32 is written out where the
-- source can reach it. Strings are lists of bytes. `none` stands for a panic or for `log.Fatal`,
-- except where a nil slice differs from an empty one.
-- Loops over a reader take one round more than its count, which every call of `next` that returns
-- true lowers. `FindTrigram` takes one round for each trigram, and `andOr` one round more than the
-- trigrams of its arguments.
-- A sift in the heap takes a round for each chunk, and each round moves it to a child or a parent.
-- The inner loop of `mergePost` takes a round for each entry of the heap, and two.
-- The loop over the trigrams of two indexes takes a round for each list, and one; the loops on one
-- trigram take a round for each id, and one.
-- The loop over `SimpleFold` takes the steps that a parameter gives it for a rune, and is `none` where
-- these do not lead back to the rune.
-- A scanner of expressions takes one round for each byte, and the depth of groups is bounded in the
-- source.
-- Left out: files, memory maps, flags, RPCs, generated code, and what logs.
pub mod Common
pub mod Sparse
pub mod Index
pub mod Shard
pub mod Cache
pub mod Expr
