-- ===== src/Examples/Conn.antt =====
-- Runs of libnpfs/conn.c, np_strcmp and np_default_version on small inputs.
use npfs.Prelude.{ℕ, List, [], arith, false, length, none, some, true, ◌<◌, ◌↔◌, ◌∷◌, ◌≡◌, ◌≢◌, All}
use npfs.Wire.Compare.{HasNoZero, is_np_strcmp_zero, np_strcmp-equal}
use npfs.Srv.Version.Sound.{IsSound, np_default_version-IsSound}
use npfs.Wire.Message.{Message}
use npfs.Types.{Npfcall, blank}
use npfs.Conn.{closed, Reader, np_conn_read_proc, spent}
use npfs.Conn.Stream.{Sendable, Sent, np_conn_read_proc-stream, stream}
use npfs.Conn.Inputs.{undisturbed}
use npfs.Wire.Bytes.{le_bytes}
use npfs.Srv.Version.{linux_dialect, np_default_version, plain}
use npfs.Conn.Ends.{np_conn_read_proc-ends}
use npfs.Wire.Layout.{packet}
use npfs.Wire.RoundTrip.{received}

abbrev two_messages : Sent
two_messages = (Message.tclunk 5, 1) ∷ ((Message.tflush 1, 2) ∷ [])

two_messages-Sendable : Sendable false two_messages
two_messages-Sendable = (((omega arith, tt), omega arith), (((omega arith, tt), omega arith), tt))

-- Nineteen bytes; the reads end inside the first message and inside the second.
abbrev some_reads : List ℕ
some_reads =
    2
    ∷ (12
        ∷ (1
            ∷ (9
                ∷ (1
                    ∷ (1
                        ∷ (1
                            ∷ (1
                                ∷ (1
                                    ∷ (1
                                        ∷ (1
                                            ∷ (1
                                                ∷ (1
                                                    ∷ (1
                                                        ∷ (1
                                                            ∷ (1
                                                            ∷ (1
                                                            ∷ (1
                                                            ∷ (1 ∷ (1 ∷ (1 ∷ []))))))))))))))))))))

some_reads-ready : All (λ k. 0 < k) some_reads
some_reads-ready = (
  omega arith,
  (
    omega arith,
    (
      omega arith,
      (
        omega arith,
        (
          omega arith,
          (
            omega arith,
            (
              omega arith,
              (
                omega arith,
                (
                  omega arith,
                  (
                    omega arith,
                    (
                      omega arith,
                      (
                        omega arith,
                        (
                          omega arith,
                          (
                            omega arith,
                            (
                              omega arith,
                              (
                                omega arith,
                                (
                                  omega arith,
                                  (omega arith, (omega arith, (omega arith, (omega arith, tt)))),
                                ),
                              ),
                            ),
                          ),
                        ),
                      ),
                    ),
                  ),
                ),
              ),
            ),
          ),
        ),
      ),
    ),
  ),
)

abbrev fresh : ℕ → Npfcall
fresh k = blank 0

abbrev empty : Reader
empty = record { buf = []; taken = 0; queue = [] }

nineteen : length (stream false two_messages) < length some_reads
unfolding packet le_bytes
nineteen = omega arith

np_conn_read_proc-stream_example :
    np_conn_read_proc fresh
      (λ k. false)
      false
      30
      (undisturbed some_reads)
      (stream false two_messages)
      empty
    ≡ closed (
        record (received (blank 0) 11 120 1) { fid = 5 }
        ∷ (record (received (blank 0) 9 108 2) { oldtag = 1 } ∷ []))
np_conn_read_proc-stream_example =
    np_conn_read_proc-stream fresh false 30 two_messages some_reads (omega arith)
      two_messages-Sendable (omega arith, (omega arith, tt)) (omega (arith, nineteen))
      some_reads-ready nineteen

np_conn_read_proc-ends_example :
    np_conn_read_proc fresh (λ k. true) true 30 ((2, true) ∷ []) (1 ∷ (2 ∷ [])) empty ≢ spent
np_conn_read_proc-ends_example =
    np_conn_read_proc-ends fresh (λ k. true) true 30 ((2, true) ∷ []) (1 ∷ (2 ∷ [])) empty

plain-HasNoZero : HasNoZero plain
plain-HasNoZero = (
  (λ e. omega (arith, e)),
  (
    (λ e. omega (arith, e)),
    (
      (λ e. omega (arith, e)),
      ((λ e. omega (arith, e)), ((λ e. omega (arith, e)), ((λ e. omega (arith, e)), tt))),
    ),
  ),
)

np_strcmp-equal_example :
    (is_np_strcmp_zero plain linux_dialect ≢ none)
    × (is_np_strcmp_zero plain linux_dialect ≡ some true ↔ plain ≡ linux_dialect)
np_strcmp-equal_example = np_strcmp-equal plain linux_dialect plain-HasNoZero

np_default_version-IsSound_example :
    IsSound true true plain none 8216 8216 4096
      (np_default_version none 8216 true true 8216 4096 plain)
np_default_version-IsSound_example =
    np_default_version-IsSound true true plain none 8216 8216 4096 plain-HasNoZero
