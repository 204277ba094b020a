-- ===== src/Lib.antt =====
-- Undelete Master: a read-only recovery scanner for FAT and NTFS volumes whose unelevated client
-- reads a disk through an elevated broker, over a framed protocol on a pipe.
--
-- The parts and where they are modelled:
--   Base       lists, options, results, bytes and machine words that the parts share
--   Region     crates/core/src/region.rs: ranges of byte positions with checked ends
--   Candidate  crates/core/src/candidate.rs: what a scan reports, its extents as ranges of the file
--   Score      crates/core/src/score.rs: `from_candidate`, which sorts the bytes of a candidate by
--              the evidence about them in one sweep, and `score` with its caps
--   Source     crates/core/src/source.rs and read.rs: the reader that scanners and extraction use
--   Extract    crates/core/src/extract.rs: `extract_candidate`
--   Restore    crates/restore: `Restore.Plan` is src/plan.rs (`plan_candidate` and its builder),
--              `Restore.Stream` is src/stream.rs (`stream_candidate`) with its writer and ranges in
--              `Output` and its checks in `Preflight`, `Restore.Path` is src/path.rs
--              (`try_from_components`, `derive_for_recovery`), and `Restore.Journal` is
--              src/journal.rs (`append`, `audit_journal`); `Errors`, `Texts`, `Lines`, `Files` and
--              `Hashes` beside them hold what these need of errors, texts and files
--   Partition  crates/partition: `Partition.Mbr` is src/mbr.rs, `Partition.Gpt` is src/gpt.rs, and
--              `Partition.Discover` is `discover` of src/lib.rs
--   FsCommon   crates/fs-common/src/lib.rs: bounded little-endian reads, scan errors;
--              `FsCommon.Times` is `filetime_to_unix_ms` and `dos_datetime_to_unix_ms`, and
--              `FsCommon.Allocation` is the allocation bitmap and its free runs
--   Fat        crates/fs-fat: `Fat.Boot` is src/boot.rs (`FatBoot::parse`, `cluster_offset`),
--              `Fat.Table` is src/fat.rs (`raw_entry`, `entry`, `is_free`, `chain`)
--   Ntfs       crates/fs-ntfs: `Ntfs.Boot` is src/boot.rs (`NtfsBoot::parse`), `Ntfs.Record`
--              is src/record.rs (`parse_file_record`), `Ntfs.Runs` is src/runs.rs (`decode_runlist`)
--   Protocol   crates/broker-protocol: `Protocol.Message` is src/message.rs, `Protocol.Errors` is
--              src/error.rs; of src/codec.rs, `Protocol.Payload` is the payload writer and reader
--              with `encode_payload` and `decode_payload`, `Protocol.Transport` is
--              `read_exact_bounded`, `Protocol.Frame` is `encode_frame`, `write_frame`,
--              `read_frame` and `decode_frame`, and `Protocol.Session` is `SessionCodec`
--   Broker     crates/elevated-broker/src/lib.rs: `serve_session`. `handle` is the decision of one
--              turn, `turn` a turn of the loop with the transport, `serve_session` the handshake
--              and the loop
-- The client and the broker meet in `Protocol.Session`; the scanners read the volume through
-- `FsCommon`; a candidate that they report is scored by `Score`, read by `Extract`, planned by
-- `Restore.Plan` and streamed by `Restore.Stream`. A file of theorems stands below the module
-- whose definitions it is about.
--
-- How the code is modelled. Numbers are natural numbers, with the bounds of the Rust types as
-- hypotheses (`IsByte`, `IsU64`, `IsTyped`) where a theorem needs them; checked operations return
-- options, and `usize` is 64 bits wide. A `String` is the list of its UTF-8 bytes, and in
-- `Restore.Path` the list of its characters; an error keeps its fields but not its text. A `&mut
-- self` method returns the new value. A reader is the list of what its `read` calls meet: chunks
-- of bytes, faults, a reader that claims too much; a writer keeps what was sent and the outcomes
-- of its coming calls. The source that the broker opens, and the factory that opens it, are the
-- parameter `SourceOps`, after the two traits of the code. The checksum of partition tables
-- (`hash`), the rounding of the score (`percent`), SHA-256, the JSON library and the capitals
-- beyond ASCII are parameters too; the file of a journal keeps what was written and the outcomes
-- of its coming calls, as a writer does. The output of a stream is a list of what each call of
-- its writer does, and the cancellation probe a list of answers. A panic of an `expect` is a
-- failure of its own.
--
-- Loops. The chain of clusters walks at most as many rounds as the source allows. The run list
-- decoder has one unit of fuel for each byte of its buffer and one more, and every round moves
-- forward; the loop of the broker has one for each byte of the stream and one more, and every
-- message takes a frame off the stream. Both are shown never to run out. A segment of a stream
-- has a unit for each of its bytes, and every chunk has a byte at least. A chain of extended boot
-- records is followed for 128 records, as in the code; the sweep of the score takes an event at
-- least in each of its rounds, of which it has as many as there are events.
--
-- Not modelled: the Windows device and pipe layer (crates/io-windows, the `windows_runtime` of
-- the broker), the directory and file scanners (crates/fs-fat/src/dir.rs and scan.rs,
-- crates/fs-ntfs/src/attr.rs and scan.rs), carving, the transactions and manifests of
-- crates/restore, the command line, the desktop application and the fixtures of the tests.
pub mod Base
pub mod Candidate
pub mod Score
pub mod Source
pub mod Extract
pub mod Restore
pub mod Partition
pub mod Region
pub mod Protocol
pub mod FsCommon
pub mod Fat
pub mod Ntfs
pub mod Broker
