-- ===== src/Conn.antt =====
-- libnpfs/conn.c: np_conn_read_proc, which cuts what a connection reads into messages.
pub mod Frames
pub mod Ends
pub mod Chunks
pub mod Drains
pub mod Inputs
pub mod Stream
use npfs.Prelude.{
  ℕ, Bool, List, [], drop, if◌then◌else◌, length, ltb, suc, take, zero, ◌&&◌, ◌++◌, ◌∷◌, ◌-◌,
}
use npfs.Wire.Deserialize.{Deserialized, np_deserialize, overread, parsed, refused}
use npfs.Types.{Npfcall}
use npfs.Wire.Bytes.{le_word}

-- fc->pkt up to n, the number of messages taken so far, and the requests that were queued, oldest first.
pub record Reader : Type 0 where
  pub buf : List ℕ
  pub taken : ℕ
  pub queue : List Npfcall

-- The loop waits for more input; np_deserialize refused a message and the loop ended; np_trans_read
-- gave no bytes and the loop ended; a message was read outside the buffer; or the fuel is spent.
pub data Reading : Type 0 where
  waiting : Reader → Reading
  broken : List Npfcall → Reading
  closed : List Npfcall → Reading
  outside : List Npfcall → Reading
  spent : Reading

unfoldable pub size_of : List ℕ → ℕ
size_of buf = le_word (take 4 buf)

-- `n < size`, where size is an int: from 2^31 it is negative.
unfoldable pub is_short : ℕ → ℕ → Bool
is_short n size = ltb size 0x8000_0000 && ltb n size

abbrev pub push : List ℕ → Reader → Reader
push bytes rd = record rd { buf = rd.buf ++ bytes }

unfoldable pub go_on : (Reader → Reading) → Reading → Reading
go_on loop (waiting rd) = loop rd
go_on loop (broken queue) = broken queue
go_on loop (closed queue) = closed queue
go_on loop (outside queue) = outside queue
go_on loop spent = spent

-- A read of at most `room` bytes, where the transport has k bytes ready, or the rest of the input.
unfoldable pub amount : ℕ → ℕ → ℕ
amount k room = if ltb k room then k else room

-- What the struct of the k-th message holds before, whether the connection is being reset when the
-- k-th message is queued, and its dialect.
module _ (incall : ℕ → Npfcall) (resetting : ℕ → Bool) (dotu : Bool) where
  -- The rest of the input moves to the next struct, and the request is queued or dropped.
  unfoldable pub accept : Reader → Npfcall → Reader
  accept rd fc = record {
    buf = drop (size_of rd.buf) rd.buf;
    taken = suc rd.taken;
    queue = if resetting rd.taken then rd.queue else rd.queue ++ (fc ∷ []);
  }

  unfoldable pub next_frame : (Reader → Reading) → Reader → Deserialized → Reading
  next_frame loop rd refused = broken rd.queue
  next_frame loop rd overread = outside rd.queue
  next_frame loop rd (parsed size fc cut) = loop (accept rd fc)

  -- The label `again`. With n at 0 the test at the end of the loop leaves it as the first test does.
  unfoldable pub again : ℕ → Reader → Reading
  again zero rd = spent
  again (suc fuel) rd =
      if ltb (length rd.buf) 4
      then waiting rd
      else if is_short (length rd.buf) (size_of rd.buf)
      then waiting rd
      else next_frame (again fuel) rd (np_deserialize (incall rd.taken) rd.buf dotu)

  -- `n += i` and the loop, with a unit of fuel for each byte.
  unfoldable pub take_input : Reader → Reading
  take_input rd = again (suc (length rd.buf)) rd

  -- The bytes of one read, which are thrown away with the buffer where the connection was being reset.
  unfoldable pub read_once : List ℕ × Bool → Reader → Reading
  read_once (bytes, discard) rd =
      take_input (if discard then record rd { buf = [] } else push bytes rd)

  -- The loop over the reads. For each, how many bytes the transport has ready and whether the
  -- connection was being reset; and the input that is still to be read. A read takes at most msize - n
  -- bytes, and the loop ends where it gives none: at the end of the input, or with a full buffer.
  unfoldable pub np_conn_read_proc : ℕ → List (ℕ × Bool) → List ℕ → Reader → Reading
  np_conn_read_proc msize [] input rd = waiting rd
  np_conn_read_proc msize ((k, discard) ∷ reads) input rd =
      let i = amount k (msize - length rd.buf) in
      if ltb 0 (length (take i input))
      then go_on (np_conn_read_proc msize reads (drop i input))
          (read_once (take i input, discard) rd)
      else closed rd.queue
