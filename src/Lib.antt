-- ===== src/Lib.antt =====
-- Tantu connects two machines of one user: it sends files and texts between them (a drop), and carries
-- a browser sign-in from the machine with the application to the machine with the browser (a bridge).
-- A Hub process on each machine runs both, keeps the records, and serves the user.
--
-- The files and the code they model, with paths from the root of the repository:
--   Prelude, Prelude/*   numbers, tests, lists and integers that all parts share
--   Text, Text/*         Go strings as byte lists, and maps keyed by strings
--   Drop/Types           internal/drop/types.go: the messages of a transfer and their limits
--   Drop/Quota, Quota/*  internal/drop/quota.go: Acquire is acquire, AddBytes is add_bytes, Release is
--                        release; TransferQuota and TransferLease are records of the same fields
--   Drop/Sender          internal/drop/sender.go, SendDrop from the wait for the acknowledgement on:
--                        await_ack, check_resume, the read-ahead loop (stream), await_complete
--   Drop/Receiver, Receiver/*
--                        internal/drop/receiver.go, ReceiveDrop from the first chunk on: on_chunk is
--                        one turn of the loop, receive_from the loop with its start, receipt the end
--   Drop/Metadata, Metadata/*
--                        internal/drop/receiver.go, validateDropMetadata, with ValidTombstoneKey of
--                        tombstone.go, and internal/drop/resume.go: ResumePrefix is resume_prefix
--   Drop/Tombstones, Tombstones/*
--                        internal/drop/tombstone.go: Record is record_entry, Lookup lookup_entry,
--                        pruneLocked prune, NewTombstones with load new_tombstones
--   Drop/Negotiation     internal/drop/receiver.go, ReceiveDrop up to the acknowledgement: its limits,
--                        the duplicates, the lease, the destination and the offset
--   Drop/Receive, Receive/*
--                        the whole of ReceiveDrop, receive_drop, over the world that outlives it: the
--                        quota, the tombstones and the files that BeforeComplete published
--   Drop/Transfer, Transfer/*
--                        the two programs together, over a link and a file that work
--   Hub/RelPath, RelPath/*
--                        internal/hub/relpath.go: SanitizeRelPath, JoinRelComponents, EnsureRelDirs
--   Hub/Operations, Operations/*
--                        internal/hub/operations.go: the sender's ledger (Add, UpdateProgress, Clear),
--                        what is saved and loaded, and ClassifyTransferError with its helpers
--   Hub/PeerHealth, PeerHealth/*
--                        internal/hub/peer_health.go: scheduleProbeNext is schedule_probe_next, the
--                        closure syncProbes is sync_probes, the end of a probe finish_probe
--   Hub/Relay, Relay/*   internal/hub/relay_coordinator.go: the calls in flight with register, clear
--                        and release, the cancels, and the entry and the end of Do
--   Hub/RelayHistory, RelayHistory/*
--                        internal/hub/relay_history.go: Add is add_attempt, Update update_attempt
--   Hub/Log, Log/*       internal/hub/logger.go: the ring with Append and GetRecent, the subscribers, and
--                        the replay of HandleEvents
--   Hub/DiscoveryHealth, DiscoveryHealth/*
--                        internal/hub/discovery_health.go: discoveryHealthEvent and the loop around it
--   Discovery/Health, Health/*
--                        internal/discovery/health.go: Health is health, describeHealth, truncateError
--   Cmd/Args, Args/*     cmd/tantu/args.go: NormalizeArgs, splitLeadingFlags, SanitizePath
--   Bridge/Headers, Headers/*
--                        internal/bridge/session.go and callbackHeaders of internal/bridge/aside.go: the
--                        headers of a callback, with filterCallbackRelayHeaders
--   Bridge/Replay, Replay/*
--                        internal/bridge/session.go: OAuthSessionManager with acquire and finish
--   Bridge/Sessions, Sessions/*
--                        internal/bridge/session_registry.go: the open sign-ins and their release
--   Pairing/Address, Address/*
--                        internal/pairing/store.go: what a label and an address of a peer may be, and
--                        normalizePeerAddress
--   Pairing/Store, Store/*
--                        internal/pairing/store.go: the files with writeAtomic and the backup, the
--                        mutations of the trusted peers (Edits), the active peer and RemovePeer (Active)
--   Pairing/Resolve, Resolve/*
--                        internal/pairing/store.go: ListPeers, HasPeerAtAddress and ResolvePeer
--   Pairing/Transcript   internal/pairing/cert.go: TranscriptSAS is transcript_sas
--   Pairing/Handshake, Handshake/*
--                        internal/pairing/handshake.go: HandleInboundPairing is handle_inbound_pairing,
--                        PairResponderInBand pair_responder_in_band
--   Protocol/Codec, Codec/*
--                        internal/protocol/codec.go: EncodeEnvelope is encode_envelope and write_frame,
--                        Decode is decode; a reader is what it gives between two errors
--
-- The parts meet as in the code: the receiver takes a lease from the quota before the first chunk and
-- grows it with each chunk of a transfer of unknown size; the sender numbers and hashes the chunks that
-- the receiver checks; a path is sanitized before folders are made for it; the verdict on a failed
-- transfer gives the state of its row in the ledger. An attempt to receive looks its key up among the
-- tombstones before it takes a lease, and records the key behind the publication. An exchange that both
-- users accept adds the other machine to the store of peers, whose list the queries of the user read.
--
-- State is passed explicitly. A Go method that holds its lock for its whole body is one step, and an
-- interleaving is a list of such steps. A call of cancel that a relay makes behind its lock is a step of
-- its own. Errors are data types with one constructor for each message of
-- the code; the words of the messages are left out where nothing reads them. Times are numbers that
-- the caller gives, in the unit that each file names. A range over a Go map visits the entries in the
-- order of the list.
--
-- Loops are structural, but for four. The read-ahead loop of the sender runs on fuel, one more than
-- the unread bytes, and each turn reads at least one byte. The loop that writes a frame has the length
-- of the frame as fuel, and each turn writes at least one byte. The loop that strips quotes has one more
-- than the length of the text, and each turn takes two characters. The loop that forgets replays has their number,
-- and each turn takes one.
--
-- Parameters and inputs stand for what the repository does not define: the digest (SHA-256, of which
-- its hex form of 64 digits is used), the link (whether a chunk goes out), the answers of the file
-- (written, short, failed) and of a destination that is asked for its end, BeforeComplete as a test of
-- the digest and the destination file, the JSON form of an envelope with its compact payloads,
-- the answers of a writer, what the file of tombstones holds and whether it is written, the clock, the
-- dial of a peer, filepath.Clean, the root folder of EnsureRelDirs (Lstat and Mkdir of the operating
-- system), net.ParseIP, the fingerprint of a certificate, the list of the words of a code, what the
-- file system answers to the store of peers, and what the users say of a code. A file of the store is
-- what its JSON decodes to. Letters beyond ASCII are left as they are where the code folds case.
--
-- Not modelled: the network, the making of certificates, the search for machines, the HTTP pages, the
-- terminal commands behind their arguments, JSON and files on disk, since they are input and output
-- around these parts; and for now the opening message of a transfer, staging folders, the exchange of a
-- sign-in, the dialling of a peer and the older exchange that pairs with it. A destination of a transfer
-- from the start is taken to stand at its first byte.
pub mod Prelude
pub mod Text
pub mod Bridge
pub mod Cmd
pub mod Discovery
pub mod Drop
pub mod Hub
pub mod Pairing
pub mod Protocol
