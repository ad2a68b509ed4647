-- ===== src/Lib.antt =====
-- The core of es-node: how a storage provider keeps the encoded blobs of an EthStorage contract on
-- disk, how it commits, checks and reads them, gets them from peers, and scans and repairs them.
--
-- Parts, from the disk up, with the Go code of each (paths from the repository's root):
-- * Disk, BigEndian: what the code uses of os.File and of encoding/binary. A file is a content, a
--   size and an open flag; a read or a write takes effect as a whole or fails, and `buffer_at` is
--   what a failed read leaves in its buffer.
-- * DataFile (ethstorage/data_file.go): `DataFile` with Read, ReadSample, Write, ReadMeta,
--   WriteMeta and Close (`read`, `read_sample`, ...); the bytes that ReadMeta returns beside an error
--   are `meta_buffer`, also of a shard and of the shard manager; DataFile/Header has writeHeader,
--   readHeader and OpenDataFile, DataFile/Creation has Create. Offsets are `uint64` expressions and wrap;
--   DataFile/Valid says when a file is well-formed.
-- * ChunkCode (MaskDataInPlace and UnmaskDataInPlace of ethstorage/data_file.go, the encoder in
--   ethstorage/encoder/encoder.go, GetMaskData of ethstorage/pora/ethash.go, encodeChunk and
--   decodeChunk of ethstorage/data_shard.go).
-- * Commit (CompareCommits and PrepareCommit of ethstorage/storage_manager.go, checkCommit of
--   ethstorage/data_shard.go).
-- * Shard, Shard/Access (ethstorage/data_shard.go): a `DataShard` over several data files. A loop
--   over the chunks of a value is a recursion on the chunks left.
-- * Pow2, Manager, Manager/Access (ethstorage/shard_manager.go): the shards by index. A Go map is a
--   list of entries; the pair of a flag and an error is an `Outcome Bool` or `Outcome (Option A)`.
-- * Storage, Storage/Commits, Storage/Download, Storage/Blobs (ethstorage/storage_manager.go): the
--   view of L1, the commits of blobs from the network, EncodeBlob and DecodeBlob, and
--   DownloadFinished, whose goroutines are lists of writes (Storage/Split) that a schedule, an
--   argument, interleaves. Storage/Reads has ReadSampleUnlocked and the closing of all shards
--   (ShardManager.Close), in an order that is an argument.
--   Storage/MetaDownload has DownloadAllMetas: what other goroutines do while the lock is free is an
--   argument (`Env`), and the goroutines of downloadMetaInParallel stand one after the other, each
--   in an environment in which the others work.
-- * Sync, Sync/Creation, Sync/Client (ethstorage/p2p/protocol/task.go, types.go and syncclient.go,
--   GetRoot of ethstorage/prover/kzg_prover.go): the tasks of the p2p sync, createTask, the range
--   and list answers, cleanTasks, and what a restart loads again. Sync/Reach is the sync as a
--   transition system, whose steps are these operations in any order, with the task that was saved
--   last beside the task; an answer may repeat an index, and `AllFresh` is a run without such an
--   answer. Sync/Peers has AddPeer, RemovePeer and the idle peers, Sync/Reports the progress.
-- * Scanner, Scanner/Repair (ethstorage/scanner/worker.go, scanner.go and utils.go): the batches of
--   local entries, the check and the repair of an entry, and the statistics. A batch sees the
--   storage as it was at its start; at which of its entries the context is done is an argument.
-- * Server, Server/Handlers (ethstorage/p2p/protocol/syncserver.go): BlobByIndex, the loops over the
--   indices of a request, and the handlers of both kinds of requests. Server/Served joins it to the
--   client: what a node writes, serves and another node decodes.
-- * Downloader, Downloader/Fetch, Downloader/Loops, Downloader/Start
--   (ethstorage/downloader/downloader.go): eventsToBlocks, downloadRange, the lists for
--   DownloadFinished, and the loops of download and downloadToCache.
--   Downloader/MemCache (blob_mem_cache.go) and Downloader/DiskCache (blob_disk_cache.go) implement
--   the interface `BlobCache` that the downloader uses.
-- * Reader (ethstorage/blobs/blob_reader.go, and getMiningData of ethstorage/miner/worker.go): blobs
--   and samples from the cache of the downloader or else from the storage.
-- * Worker (ethstorage/miner/worker.go): assignTasks (in which threads its select takes the case of
--   exitCh is an argument), updateDifficulty, mineTask, the results and
--   the counts of submissions.
-- * Miner (ethstorage/miner/algorithm.go): hashimoto over a reader of samples, which is an
--   argument, initHash and expectedDiff.
-- The sync client, the sync server, the downloader, the blob reader and the scanner call the
-- storage manager. The storage manager calls the shard manager, which finds the shard of an
-- entry and calls it; the shard finds the files of the chunks, codes the chunks and calls the
-- files.
--
-- Results of Go functions are `Outcome`: a value, an error or a panic (Outcome). A method that
-- changes its receiver returns what it leaves also beside an error. IsComplete is a loop on fuel,
-- one more than the chunk indices of the shard, of which each round passes at least one. The loops
-- of createTask have a round for each index of the range that they split. downloadMetaInRange has
-- one round of fuel more than its range has entries, which is enough while L1 stands still. The
-- loop over a requested range needs one turn more than the range has indices, and the loop of
-- download one turn more than the batches of 64 blocks up to the head; a thread's search needs one
-- tick more than its item has nonces.
--
-- Parameters (Externals, with their laws): hashes, field elements, the FFT, KZG commitments and the
-- Ethash mask of ethstorage/pora/ethash, a copy of go-ethereum's; `Fallocate`; the L1 contract
-- (`L1Source`) and the fetching of blobs; for the server, limitPeer, ReadMsg and RLP; for the
-- downloader, what L1, the beacon or DA client, the mail server and the database answer in a turn
-- of a loop (`Round`), and the billy store (`Billy`); for the worker, time and the running flag
-- (`Tick`), the hash of a nonce and its proof.
--
-- Not modelled: logging and metrics, mutexes (what they guard is an atomic step), the global
-- registration of shard managers, a division by a zero size in the tests of a data file, memory
-- limits; of the sync the choice of an idle peer; of the server the saving of its counters and
-- the list of shards; of the downloader the dump of blobs, and the order in which its goroutine
-- takes its requests; of the scanner its tickers, the permit between its loops and the block
-- queries of latestUpdated; of the miner miner.go, the submission of transactions and the
-- reports; and the node around this core: the rest of the prover, archiver, clients and
-- commands. cmd/es-utils/utils/optimism_blob_encoder.go is a port of another project's code.
pub mod BigEndian
pub mod ChunkCode
pub mod Commit
pub mod DataFile
pub mod Disk
pub mod Downloader
pub mod Externals
pub mod Manager
pub mod Miner
pub mod Outcome
pub mod Pow2
pub mod Prelude
pub mod Reader
pub mod Scanner
pub mod Server
pub mod Shard
pub mod Storage
pub mod Sync
pub mod Tests
pub mod Worker
