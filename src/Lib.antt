-- ===== src/Lib.antt =====
-- npfs: a model of libnpfs, the server library for the file protocol 9P2000 with its extensions .u
-- and .L, and theorems about it. Paths below are from the repository's root.
--
-- The program. A connection reads messages, and each becomes a request (Npreq) in a queue of the
-- server. A worker thread takes a request and runs np_process_request (libnpfs/srv.c), which finds
-- the message's handler in the table np_fcalls. A handler (libnpfs/fcall.c) looks up the fids of
-- the message in the connection's pool (libnpfs/fidpool.c), takes references to them, tests what
-- the protocol asks for, and calls the file server through the functions of Npsrv. Errors are kept
-- for each thread (libnpfs/error.c). np_respond sends the reply, gives back the request's
-- reference, and answers the requests that flush this one.
--
-- The model. Types and Constants are include/npfs.h. State is the state a handler works on: the
-- fids, as a heap from addresses to fids, and the hash table of the pool; the connection; the
-- thread's error; the request; the lists of requests; and the trace, which holds every call that
-- left the library. An action on it returns a result and a state, or faults, where the code reads
-- freed memory or NULL or fails an assertion, but for that of np_req_unref. So a theorem that an
-- action returns says that it does none of these. Each function of the code is the function of its
-- name; its inner steps, from a test to the end, are functions beside it.
--   Werror            libnpfs/error.c
--   Fidpool           libnpfs/fidpool.c
--   Fcall             libnpfs/fcall.c: Session (version, auth, attach, flush), Walk, Files (open to
--                     wstat), Attrs and Dirs (9P2000.L), Reply (replies of libnpfs/np.c)
--   Srv               libnpfs/srv.c: Table (np_fcalls), Process (np_process_request), Respond
--                     (np_respond, and a worker's work on one request)
--   Fidpool.Chains, WellFormed, Find, FidMap, Lists, Destroy
--                     the pool against a partial map from numbers to fids
--   Wire              libnpfs/np.c, byte by byte: Bytes (little-endian words), Put and Get (struct cbuf
--                     written to and read from), Stat (stat, statfs and directory entries), Create
--                     (the np_create functions, by the kind of message), Scan (the cases of
--                     np_deserialize) and Deserialize. Layout and Message are the protocol's side:
--                     the fields of each message's packet. Writes, Made, Reads, Parsed, RoundTrip,
--                     Counts and Stats relate the two. Compare is np_strcmp and np_strncmp.
--   Conn              libnpfs/conn.c: np_conn_read_proc from what it reads to the requests it queues, with
--                     Chunks (input that comes later), Inputs and Drains (reads into a buffer of
--                     msize), Stream (packets) and Ends (the inner loop)
--   Srv.Version       libnpfs/srv.c: np_default_version
--   Client.Pool       libnpclient/pool.c: the bitmap of a client's tags and fids, with Bits (one byte), Ids
--                     (the whole bitmap), Grants (one call), Exclusive and Bounds (calls in any order)
--   Safety            references: Grows and Actions (steps that give none back), Contract and Relies
--                     (the file server), Pool, Drops and Decref, Keeps (rules for handlers), and a module for the
--                     handlers of each part, up to Process and Respond
--   Answers           how many answers a request gets
--   Guards            what is tested before the file server is called
--   Examples          runs on small states, packets and inputs
--
-- The file server, the user pool, the auth operations and malloc are a parameter (Env): the server
-- is any function of the calls so far. It may take references to fids and change their fields. The
-- theorems that run it assume Contract: that a call touches only fids that it is given, which it
-- may refer to but not give back. What a single handler uses without a test is in Safety.Relies,
-- and only the theorems about that handler assume it; where it is not given, the code faults or
-- leaks, which the server's own np_default_clone and np_default_remove can bring about.
--
-- Bounds. The loop over the messages of a buffer has fuel, one more than the bytes of the buffer;
-- the other loops run over lists. Numbers are natural numbers, and the sums that the code takes
-- modulo 2^32 are written so. A fid's refcount is an integer, without overflow.
--
-- The bytes. A message in Wire has its packet; the handlers' replies in Fcall.Reply and Srv.Process
-- are the same messages without it. An array is the list of its entries in use, and a pointer into
-- a packet is the list of the bytes behind it. Lengths that the code passes as an int are tested
-- against 2^31, from where they are negative. The struct that malloc returns holds anything before
-- its fields are set, and the bytes of a packet that nothing writes are left out.
--
-- Not modelled: the reference counts of requests, with the assertion of np_req_unref; locks, as a
-- handler's steps on its connection are taken one handler at a time; the request queues and
-- connections beyond what a worker, np_flush and np_respond do to them; the listeners, transports
-- and user databases; the file servers, and the client library but for its pool of identifiers. An
-- allocated reply is a value, so free is not modelled for it.
pub mod Prelude
pub mod Types
pub mod Wire
pub mod Client
pub mod Conn
pub mod Constants
pub mod State
pub mod Werror
pub mod Fidpool
pub mod Fcall
pub mod Srv
pub mod Safety
pub mod Answers
pub mod Guards
pub mod Examples
