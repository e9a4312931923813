-- ===== src/Conn/Stream.antt =====
-- libnpfs/conn.c with libnpfs/np.c: packets one after another, as a connection reads them.
use mathlib.Core.List.{append_assoc, append-nil}
use npfs.Prelude.{
  ℕ, All, Bool, List, [], ap, arith, drop, false, length, suc, zero, ◌++◌, ◌<◌, ◌∷◌, ◌≡◌,
  length-append, sym, ◌+◌, ◌∙◌, ◌≤◌, refl, Bool-cases, inl, inr, length-take, ltb, take,
  take-append, take-drop, ◌-◌,
}
use npfs.Wire.Layout.{Fits, packet, packet_size, length-packet}
use npfs.Wire.Message.{Message, fields, type_of}
use npfs.Types.{Npfcall}
use npfs.Conn.{
  accept, again, next_frame, size_of, Reader, is_short, np_conn_read_proc, take_input, waiting,
  Reading, closed,
}
use npfs.Wire.Message.Filled.{filled}
use npfs.Wire.Bytes.{le_bytes, le_word-bytes4}
use npfs.Wire.RoundTrip.{received, np_deserialize-packet}
use npfs.Conn.Chunks.{again-next, le-ltb, waits-few, ltb-le, waits-short}
use npfs.Conn.Drains.{drains}
use npfs.Conn.Frames.{size_of-append}
use npfs.Conn.Inputs.{take_none, undisturbed}

-- Messages with their tags.
abbrev pub Sent : Type 0
Sent = List (Message × ℕ)

-- The bytes that the sender writes.
abbrev pub stream : Bool → Sent → List ℕ
stream dotu [] = []
stream dotu ((m, tag) ∷ sent) = packet (type_of m) tag (fields dotu m) ++ stream dotu sent

abbrev pub Sendable : Bool → Sent → Type 0
Sendable dotu [] = Unit
Sendable dotu ((m, tag) ∷ sent) = (All Fits (fields dotu m) × (tag < 65536)) × Sendable dotu sent

not_short : (n size : ℕ) → size ≤ n → is_short n size ≡ false
unfolding is_short
not_short n size le = ground (arith)

module _ (incall : ℕ → Npfcall) (dotu : Bool) where
  -- The messages that the receiver should see, from the k-th struct on.
  abbrev pub requests : ℕ → Sent → List Npfcall
  requests k [] = []
  requests k ((m, tag) ∷ sent) =
      filled dotu m (received (incall k) (packet_size (fields dotu m)) (type_of m) tag)
      ∷ requests (suc k) sent

  -- The connection is not being reset.
  abbrev never : ℕ → Bool
  never k = false

  front :
      (m : Message) (tag : ℕ) (rest : List ℕ)
      → packet_size (fields dotu m) < 0x8000_0000
      → size_of (packet (type_of m) tag (fields dotu m) ++ rest) ≡ packet_size (fields dotu m)
  unfolding size_of packet le_bytes
  front m tag rest small = le_word-bytes4 (packet_size (fields dotu m)) (omega arith)

  behind : (xs ys : List ℕ) (n : ℕ) → n ≡ length xs → drop n (xs ++ ys) ≡ ys
  behind [] ys n e = ap (λ k. drop k ys) e
  behind (x ∷ xs) ys zero e = absurd (omega (arith, e))
  behind (x ∷ xs) ys (suc n) e = behind xs ys n (omega (arith, e))

  one_message :
      (n : ℕ) (m : Message) (tag k : ℕ) (queue : List Npfcall) (rest : List ℕ)
      → All Fits (fields dotu m)
      → tag < 65536
      → packet_size (fields dotu m) < 0x8000_0000
      → again incall never dotu (suc n) (record {
        buf = packet (type_of m) tag (fields dotu m) ++ rest;
        taken = k;
        queue = queue;
      })
        ≡ again incall never dotu n (record {
          buf = rest;
          taken = suc k;
          queue =
              queue
              ++ (filled dotu m (received (incall k) (packet_size (fields dotu m)) (type_of m) tag)
                  ∷ []);
        })
  unfolding next_frame accept
  one_message n m tag k queue rest fits hg small =
      let size : ℕ = packet_size (fields dotu m) in
      let p : List ℕ = packet (type_of m) tag (fields dotu m) in
      let rd : Reader = record { buf = p ++ rest; taken = k; queue = queue } in
      let fc : Npfcall = filled dotu m (received (incall k) size (type_of m) tag) in
      let here : length p ≡ size = length-packet (type_of m) tag (fields dotu m) in
      let whole : length (p ++ rest) ≡ length p + length rest = length-append p rest in
      let head : size_of (p ++ rest) ≡ size = front m tag rest small in
      again-next incall never dotu n rd (le-ltb (length (p ++ rest)) 4 (omega (arith, here, whole)))
        (ap (is_short (length (p ++ rest))) head
          ∙ not_short (length (p ++ rest)) size (omega (arith, here, whole)))
      ∙ ap (next_frame incall never dotu (again incall never dotu n) rd)
          (np_deserialize-packet dotu m (incall k) tag rest fits small hg)
      ∙ ap
          (λ l.
            again incall never dotu n
              (record { buf = l; taken = suc k; queue = queue ++ (fc ∷ []) }))
          (ap (λ s. drop s (p ++ rest)) head ∙ behind p rest size (sym here))

  whole_stream :
      (n k : ℕ) (queue : List Npfcall) (sent : Sent)
      → Sendable dotu sent
      → length (stream dotu sent) < 0x8000_0000
      → length (stream dotu sent) < n
      → again incall never dotu n (record { buf = stream dotu sent; taken = k; queue = queue })
        ≡ waiting (record { buf = []; taken = k + length sent; queue = queue ++ requests k sent })
  whole_stream zero k queue sent ok small le = absurd (omega arith)
  whole_stream (suc n) k queue [] ok small le =
      waits-few incall never dotu n (record { buf = []; taken = k; queue = queue }) refl
      ∙ ap (λ t. waiting (record { buf = []; taken = t; queue = queue })) (omega arith)
      ∙ ap (λ q. waiting (record { buf = []; taken = k + 0; queue = q })) (sym (append-nil queue))
  whole_stream (suc n) k queue ((m, tag) ∷ sent) ((fits, hg), ok) small le =
      let here : length (packet (type_of m) tag (fields dotu m)) ≡ packet_size (fields dotu m) =
        length-packet (type_of m) tag (fields dotu m) in
      let whole : length (stream dotu ((m, tag) ∷ sent))
          ≡ length (packet (type_of m) tag (fields dotu m)) + length (stream dotu sent) =
        length-append (packet (type_of m) tag (fields dotu m)) (stream dotu sent) in
      let fc : Npfcall =
        filled dotu m (received (incall k) (packet_size (fields dotu m)) (type_of m) tag) in
      one_message n m tag k queue (stream dotu sent) fits hg (omega (arith, here, whole))
      ∙ whole_stream n (suc k) _ sent ok (omega (arith, here, whole)) (omega (arith, here, whole))
      ∙ ap
          (λ t.
            waiting
              (record { buf = []; taken = t; queue = queue ++ (fc ∷ []) ++ requests (suc k) sent }))
          (omega arith)
      ∙ ap (λ q. waiting (record { buf = []; taken = k + suc (length sent); queue = q }))
          (append_assoc queue (fc ∷ []) (requests (suc k) sent))

  take_past :
      (p rest : List ℕ) (j : ℕ) → length p ≤ j → take j (p ++ rest) ≡ p ++ take (j - length p) rest
  take_past [] rest j le = let same : j ≡ j - 0 = omega arith in ap (λ n. take n rest) same
  take_past (x ∷ p) rest zero le = absurd (omega arith)
  take_past (x ∷ p) rest (suc j) le =
      let same : j - length p ≡ suc j - suc (length p) = omega arith in
      ap (λ l. x ∷ l) (take_past p rest j (omega arith)) ∙ ap (λ n. x ∷ (p ++ take n rest)) same

  -- The first bytes of a packet wait for the others.
  part_waits :
      (n : ℕ) (m : Message) (tag k j : ℕ) (queue : List Npfcall)
      → packet_size (fields dotu m) < 0x8000_0000
      → j < packet_size (fields dotu m)
      → let rd : Reader = record {
        buf = take j (packet (type_of m) tag (fields dotu m));
        taken = k;
        queue = queue;
      } in
        again incall never dotu (suc n) rd ≡ waiting rd
  unfolding is_short
  part_waits n m tag k j queue small less =
      let p : List ℕ = packet (type_of m) tag (fields dotu m) in
      let b : List ℕ = take j p in
      let rd : Reader = record { buf = b; taken = k; queue = queue } in
      let here : length p ≡ packet_size (fields dotu m) =
        length-packet (type_of m) tag (fields dotu m) in
      let long : length b ≡ j = length-take j p (omega (arith, here)) in
      elim (Bool-cases (ltb (length b) 4)) [
        | inl few ↦ waits-few incall never dotu n rd few
        | inr four ↦
            let size : size_of b ≡ packet_size (fields dotu m) =
              sym (size_of-append b (drop j p) (ltb-le (length b) 4 four))
              ∙ ap size_of (take-drop j p ∙ sym (append-nil p))
              ∙ front m tag [] small in
            waits-short incall never dotu n rd four (ground (arith, size, long))
      ]

  abbrev pub Small : ℕ → Sent → Type 0
  Small msize [] = Unit
  Small msize ((m, tag) ∷ sent) = (packet_size (fields dotu m) ≤ msize) × Small msize sent

  buf_of : Reading → List ℕ
  buf_of (waiting r) = r.buf
  buf_of o = []

  -- A part of the stream leaves less than a packet in the buffer.
  leaves_room :
      (msize n k j : ℕ) (queue : List Npfcall) (sent : Sent) (r : Reader)
      → 0 < msize
      → Sendable dotu sent
      → Small msize sent
      → length (stream dotu sent) < 0x8000_0000
      → length (take j (stream dotu sent)) < n
      → again incall never dotu n
          (record { buf = take j (stream dotu sent); taken = k; queue = queue })
        ≡ waiting r
      → length r.buf < msize
  unfolding buf_of
  leaves_room msize zero k j queue sent r some_room ok fit small le e = absurd (omega arith)
  leaves_room msize (suc n) k j queue [] r some_room ok fit small le e =
      let none_left : take j [] ≡ [] = take_none j in
      let w =
        waits-few incall never dotu n (record { buf = take j []; taken = k; queue = queue })
          (ap (λ l. ltb (length l) 4) none_left) in
      let same : r.buf ≡ [] = ap buf_of (sym e ∙ w) ∙ none_left in omega (arith, ap length same)
  leaves_room msize (suc n) k j queue ((m, tag) ∷ sent) r some_room ((fits, hg), ok) (le_msize, fit)
        small le e =
      let p : List ℕ = packet (type_of m) tag (fields dotu m) in
      let here : length p ≡ packet_size (fields dotu m) =
        length-packet (type_of m) tag (fields dotu m) in
      let whole = length-append p (stream dotu sent) in
      elim (Bool-cases (ltb j (length p))) [
        | inl inside ↦
            let cut : take j (p ++ stream dotu sent) ≡ take j p =
              take-append j p (stream dotu sent) (ground arith) in
            let w =
              part_waits n m tag k j queue (omega (arith, here, whole)) (ground (arith, here)) in
            let same : r.buf ≡ take j p = ap buf_of (
              sym e
              ∙ ap
                  (λ l.
                    again incall never dotu (suc n) (record { buf = l; taken = k; queue = queue }))
                  cut
              ∙ w) in
            ground (arith, ap length same, length-take j p (ground arith), here)
        | inr past ↦
            let cut : take j (p ++ stream dotu sent) ≡ p ++ take (j - length p) (stream dotu sent) =
              take_past p (stream dotu sent) j (ltb-le j (length p) past) in
            leaves_room msize n (suc k) (j - length p) _ sent r some_room ok fit
              (omega (arith, here, whole))
              (omega (
                arith,
                ap length cut,
                length-append p (take (j - length p) (stream dotu sent)),
                here,
              ))
              (sym (
                  one_message n m tag k queue (take (j - length p) (stream dotu sent)) fits hg
                    (omega (arith, here, whole)))
                ∙ ap
                    (λ l.
                      again incall never dotu (suc n)
                        (record { buf = l; taken = k; queue = queue }))
                    (sym cut)
                ∙ e)
      ]

  abbrev pub empty_reader : Reader
  empty_reader = record { buf = []; taken = 0; queue = [] }

  -- Where every message is one that its packet can hold, no packet is larger than msize, and all the
  -- packets together are shorter than 2^31, a connection that is not being reset queues exactly the
  -- messages that were sent, in their order and with their tags, however the reads cut the bytes. The
  -- loop then ends, at the end of the input. Every read finds bytes ready, and there are more reads
  -- than bytes.
  pub np_conn_read_proc-stream :
      (msize : ℕ) (sent : Sent) (ks : List ℕ)
      → 0 < msize
      → Sendable dotu sent
      → Small msize sent
      → length (stream dotu sent) < 0x8000_0000
      → All (λ k. 0 < k) ks
      → length (stream dotu sent) < length ks
      → np_conn_read_proc incall never dotu msize (undisturbed ks) (stream dotu sent) empty_reader
        ≡ closed (requests 0 sent)
  unfolding take_input
  np_conn_read_proc-stream msize sent ks some_room ok fit small ready many =
      drains incall never dotu msize ks (stream dotu sent) empty_reader _ ready many
        (waits-few incall never dotu 0 empty_reader refl) (omega arith)
        (λ j r e. leaves_room msize _ 0 j [] sent r some_room ok fit small (omega arith) e)
        (whole_stream (suc (length (stream dotu sent))) 0 [] sent ok small (omega arith))
