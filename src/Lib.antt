-- ===== src/Lib.antt =====
-- key-val-store: a model of the LSM-tree key-value store, with the theorems that make it correct.
--
-- The program. DB (include/db.h, src/db.cpp) accepts put, del and get on byte strings. A write is
-- first appended to the active WAL segment and synced, then put into the memtable, a sorted map. A
-- memtable over its byte limit is flushed: its entries are built into the next SSTable file, the
-- MANIFEST is replaced by one that lists it, and a new WAL segment takes the place of the old one.
-- Too many tables are compacted into one, without tombstones. get asks the memtable, then the tables
-- from the newest on; each table asks its Bloom filter and its sparse index before it scans.
--
-- The files, and the code they model:
-- - Base, OrdMap, Str: shared names, arithmetic on words, std::map and std::string.
-- - MemTable: include/memtable.h and src/memtable.cpp, every method by its name. The byte counter
--   wraps as size_t does. MemTable/Accounting shows that it is exact, MemTable/Reads what reads find.
-- - Codec: the integer and string helpers that src/wal.cpp and src/sstable.cpp share.
-- - Wal: include/wal.h and src/wal.cpp. A segment is its bytes on disk and the buffer of stdio;
--   append writes to the buffer, sync hands it over, replay reads the file. Wal/Replay is about
--   whole logs, Wal/Decoded (over Codec/Decoded) about replay of any file, Wal/Crash about a crash at a byte of an append, Wal/Torn about a torn record
--   behind which the log goes on.
-- - Bloom: include/bloom.h and src/bloom.cpp, with the hashes, the probes, next_pow2 and both
--   constructors. Bloom/Pow2, Bloom/Bit, Bloom/Member and Bloom/Distinct prove its
--   parts.
-- - SsTable: include/sstable.h and src/sstable.cpp: build, load_meta, lookup and scan_all over
--   the bytes of the file. SsTable/Written describes what build writes, SsTable/Search the binary
--   search and the scan, SsTable/Filter and SsTable/Footer the two other sections, and
--   SsTable/Contract what readers get of a file that build wrote.
-- - Text: the functions on std::string that the next two call (std::getline, rfind at 0, substr and
--   std::stoull). Text/Lines and Text/Numbers have what reading back needs.
-- - Names: the file names of src/db.cpp and src/manifest.cpp, as they are printed and as
--   DB::recover takes them apart (stem, extension, the kinds of files, the id in a name).
--   Names/Distinct tells them apart, Names/Parsed and Names/Kinds read them back.
-- - Manifest: include/manifest.h and src/manifest.cpp: Manifest::write, exists and read;
--   Manifest/ReadBack is about what read makes of a text.
-- - Db: include/db.h and src/db.cpp. A state holds the directory, as a map from names to bytes,
--   and the members of DB; put, del, get, flush_memtable, compact, maybe_flush and stats are its
--   steps. Db/Represents relates a state to one sorted map for each table, the contract of SsTable
--   standing in for the files. Db/Flush, Db/Merge, Db/Compact and Db/Methods prove that the
--   methods implement reads and writes of that view; Db/Frame has what they leave alone.
-- - Recovery: DB::recover of src/db.cpp in its six steps, with the constructor (open_db) and the
--   destructor (close_db). Recovery/Tables and Recovery/Log treat the tables and the log,
--   Recovery/OnDisk says what recovery relies on in a directory, and Recovery/Restart what it makes
--   of that, from the segments (Recovery/Segments, Recovery/Collected) to the one that it opens
--   (Recovery/Active). Recovery/Durable defines a durable store, Recovery/Alike and
--   Recovery/Rotation say what each write to the directory leaves of it, Recovery/Append,
--   Recovery/FlushCrash (over Recovery/Flushed) and Recovery/MergeCrash list the directories that
--   a crash can leave, Recovery/Kept and Recovery/Keeps show that every method keeps a store
--   durable, Recovery/Reopened and Recovery/Closed that restarts do, and Recovery/Contract and
--   Recovery/Lifecycle put these together into the contract of include/db.h. Recovery/Runs has the
--   runs of calls, restarts and crashes as a step relation, Recovery/Served what every store that
--   they reach serves, Recovery/Stale and Recovery/Overwrites what becomes of a segment that a
--   restart leaves behind, and Recovery/Missing what of a table that is gone.
-- - Repl: the command loop of src/main.cpp: what a line of input does to the store and what it
--   prints (run_line), and the loop over the lines (run_lines). Repl/Session is main around it, from
--   the arguments to the destructor. Repl/Commands is about put and get, Repl/Sessions about one
--   process after another.
-- - Threads: threads that call one DB, with the lock that each method of src/db.cpp takes on mu_,
--   as a step relation on the stages of the threads. Threads/Steps and Threads/Linear are about
--   what the lock keeps, Threads/Progress about who can go on.
-- - Bench: src/bench.cpp: its keys and values, Bench::record, and the six benchmarks up to the end
--   of their timed loops. Bench/Keys is about the keys, Bench/Loads about the loops, Bench/Reads
--   about bench_hot_read.
-- - Tests: runs of the models, and the theorems at concrete inputs.
--
-- Bounds. A table file stores lengths in 32-bit and offsets in 64-bit fields. TableFits says that
-- entries are in key order, that each key and value has fewer than 2^32 bytes, that there are fewer
-- than 2^31 entries, that the filter has at most 2^31 bits and that the file stays below 2^62
-- bytes. Table ids stay below 2^64, which the twenty digits of a file name hold. The loops that
-- read a file take as fuel the number of bytes still to be read, and each round reads at least
-- one; Wal.Decoded.replay-iff-Splits says of every file what replay makes of it, without fuel.
-- next_pow2 smears a word of 64 bits in six rounds.
--
-- Parameters: optimal_bits stands for the floating-point size formula of src/bloom.cpp, of which the
-- theorems use only the bound that TableFits states. A Clock stands for std::chrono and for the
-- durations as doubles, and draw for std::mt19937 with its distribution, of which the theorems use
-- that a draw falls into the bounds asked for. std::shared_mutex is as documented: it is taken
-- exclusively when nobody has it, and shared when nobody has it exclusively.
--
-- Crashes. A crash stops the process between two calls of the file system, or in the middle of one:
-- a file that was being written then holds any bytes, and an append to the log any prefix of its
-- record. Renames, creations and removals reach the disk in the order of the calls. The theorems on
-- crashes start from a durable store: its MANIFEST lists its tables, its active segment is the
-- newest and holds the synced records, older segments hold none, the id counter is the one above
-- the newest table, and the active segment is not above it. Recovery opens a new segment if the
-- newest one is below the id counter, as it is behind a compaction, and leaves that one where it
-- is. If it holds records, the store is not durable in this sense: Recovery.Stale is about it, and
-- a crash in a run of Recovery.Runs has that case as its one exception.
--
-- Input. A line of the command loop has no line feed, since std::getline has ended it there, so that
-- the second std::getline of a put takes all that is left of it. The names in a MANIFEST are base
-- names, as include/manifest.h says: without a separator, and so their own paths in the directory.
--
-- Not modelled: failures of reads and writes of the file system, and the fsync of directories; what
-- the directory holds behind an exception out of the constructor or of a method; of src/bench.cpp
-- the percentiles, rates and tables of doubles that it prints; the crash test src/test_crash.cpp.
pub mod Base
pub mod Str
pub mod OrdMap
pub mod MemTable
pub mod Text
pub mod Codec
pub mod Wal
pub mod Bloom
pub mod SsTable
pub mod Names
pub mod Manifest
pub mod Db
pub mod Recovery
pub mod Threads
pub mod Repl
pub mod Bench
pub mod Tests
