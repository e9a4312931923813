-- ===== src/Wire/Parsed/Files.antt =====
-- libnpfs/np.c: np_deserialize on the fields of the messages on files.
use npfs.Prelude.{ℕ, Bool, List, [], false, refl, true, ◌≡◌, ◌⨾◌}
use npfs.Wire.Reads.{
  Gets-int16, Gets-int32, Gets-int64, Gets-int8, Gets-str, Reads-assign, Reads-into, Reads-last,
  Reads-pass, Reads-qid, Reads-then, rbuf,
}
use npfs.Wire.Message.{Message}
use npfs.Types.{Npfcall, Npqid, Npstr}
use npfs.Wire.Stat.{Npwstat, buf_get_stat, get_dotu_stat}
use npfs.Wire.Parsed.{Reads-data, Scans-always, ScansMessage}
use npfs.Wire.Get.{
  advance, buf_alloc, buf_get_int16, buf_get_str, get_failed, got_bytes, got_word, into, split_at?,
}
use npfs.Wire.Deserialize.{cases, switch}
use npfs.Wire.Scan.Files.{
  scan_ropen, scan_rread, scan_rstat, scan_rwrite, scan_tclunk, scan_tcreate, scan_topen,
  scan_tread, scan_twrite, scan_twstat,
}

str_at_end :
    (set : Npstr → Npfcall → Npfcall) (x : Npfcall) (cut : Bool)
    → into buf_get_str set (x, rbuf [] cut) ≡ (set [] x, rbuf [] cut)
unfolding into buf_get_str buf_get_int16 buf_alloc got_word got_bytes advance split_at? get_failed
str_at_end set x cut = refl

pub scan_topen-Scans :
    (dotu : Bool) (fid : ℕ) (mode : ℕ) → ScansMessage dotu (Message.topen fid mode)
unfolding cases switch scan_topen
scan_topen-Scans dotu fid mode (h1, (h2, _)) fc =
    Scans-always
      (Reads-then (Reads-into _ _ (Gets-int32 _ h1)) (Reads-last (Reads-into _ _ (Gets-int8 _ h2))))

pub scan_ropen-Scans :
    (dotu : Bool) (qid : Npqid) (iounit : ℕ) → ScansMessage dotu (Message.ropen qid iounit)
unfolding cases switch scan_ropen
scan_ropen-Scans dotu qid iounit (h1, (h2, _)) fc = Scans-always (
    Reads-then (Reads-qid _ _ _ h1.0 h1.1.0 h1.1.1) (Reads-last (Reads-into _ _ (Gets-int32 _ h2))))

pub scan_rcreate-Scans :
    (dotu : Bool) (qid : Npqid) (iounit : ℕ) → ScansMessage dotu (Message.rcreate qid iounit)
unfolding cases switch scan_ropen
scan_rcreate-Scans dotu qid iounit (h1, (h2, _)) fc = Scans-always (
    Reads-then (Reads-qid _ _ _ h1.0 h1.1.0 h1.1.1) (Reads-last (Reads-into _ _ (Gets-int32 _ h2))))

pub scan_tread-Scans :
    (dotu : Bool) (fid : ℕ) (offset : ℕ) (count : ℕ)
    → ScansMessage dotu (Message.tread fid offset count)
unfolding cases switch scan_tread
scan_tread-Scans dotu fid offset count (h1, (h2, (h3, _))) fc = Scans-always (
    Reads-then (Reads-into _ _ (Gets-int32 _ h1)) (
      Reads-then (Reads-into _ _ (Gets-int64 _ h2))
        (Reads-last (Reads-into _ _ (Gets-int32 _ h3)))))

pub scan_rread-Scans : (dotu : Bool) (payload : List ℕ) → ScansMessage dotu (Message.rread payload)
unfolding cases switch scan_rread
scan_rread-Scans dotu payload (h1, (h2, _)) fc =
    Scans-always
      (Reads-then (Reads-into _ _ (Gets-int32 _ h1)) (Reads-last (Reads-data _ _ refl h2)))

pub scan_twrite-Scans :
    (dotu : Bool) (fid : ℕ) (offset : ℕ) (payload : List ℕ)
    → ScansMessage dotu (Message.twrite fid offset payload)
unfolding cases switch scan_twrite
scan_twrite-Scans dotu fid offset payload (h1, (h2, (h3, (h4, _)))) fc = Scans-always (
    Reads-then (Reads-into _ _ (Gets-int32 _ h1)) (
      Reads-then (Reads-into _ _ (Gets-int64 _ h2))
        (Reads-then (Reads-into _ _ (Gets-int32 _ h3)) (Reads-last (Reads-data _ _ refl h4)))))

pub scan_rwrite-Scans : (dotu : Bool) (count : ℕ) → ScansMessage dotu (Message.rwrite count)
unfolding cases switch scan_rwrite
scan_rwrite-Scans dotu count (h1, _) fc =
    Scans-always (Reads-last (Reads-into _ _ (Gets-int32 _ h1)))

pub scan_tclunk-Scans : (dotu : Bool) (fid : ℕ) → ScansMessage dotu (Message.tclunk fid)
unfolding cases switch scan_tclunk
scan_tclunk-Scans dotu fid (h1, _) fc = Scans-always (Reads-last (Reads-into _ _ (Gets-int32 _ h1)))

pub scan_rclunk-Scans : (dotu : Bool) → ScansMessage dotu Message.rclunk
unfolding cases switch
scan_rclunk-Scans dotu _ fc = Scans-always (Reads-pass _)

pub scan_tremove-Scans : (dotu : Bool) (fid : ℕ) → ScansMessage dotu (Message.tremove fid)
unfolding cases switch scan_tclunk
scan_tremove-Scans dotu fid (h1, _) fc =
    Scans-always (Reads-last (Reads-into _ _ (Gets-int32 _ h1)))

pub scan_rremove-Scans : (dotu : Bool) → ScansMessage dotu Message.rremove
unfolding cases switch
scan_rremove-Scans dotu _ fc = Scans-always (Reads-pass _)

pub scan_tstat-Scans : (dotu : Bool) (fid : ℕ) → ScansMessage dotu (Message.tstat fid)
unfolding cases switch scan_tclunk
scan_tstat-Scans dotu fid (h1, _) fc = Scans-always (Reads-last (Reads-into _ _ (Gets-int32 _ h1)))

pub scan_rstat-Scans : (dotu : Bool) (wstat : Npwstat) → ScansMessage dotu (Message.rstat wstat)
unfolding cases switch scan_rstat buf_get_stat get_dotu_stat
scan_rstat-Scans true wstat
      (
        h1,
        (
          h2,
          (
            h3,
            (
              h4,
              (
                h5,
                (h6, (h7, (h8, (h9, (h10, (h11, (h12, (h13, (h14, (h15, (h16, (h17, _)))))))))))),
              ),
            ),
          ),
        ),
      )
      fc =
    Scans-always (
      Reads-then (Reads-into _ _ (Gets-int16 _ h1)) (
        Reads-then (Reads-into _ _ (Gets-int16 _ h2)) (
          Reads-then (Reads-into _ _ (Gets-int16 _ h3)) (
            Reads-then (Reads-into _ _ (Gets-int32 _ h4)) (
              Reads-then (Reads-qid _ _ _ h5.0 h5.1.0 h5.1.1) (
                Reads-then (Reads-into _ _ (Gets-int32 _ h6)) (
                  Reads-then (Reads-into _ _ (Gets-int32 _ h7)) (
                    Reads-then (Reads-into _ _ (Gets-int32 _ h8)) (
                      Reads-then (Reads-into _ _ (Gets-int64 _ h9)) (
                        Reads-then (Reads-into _ _ (Gets-str _ h10)) (
                          Reads-then (Reads-into _ _ (Gets-str _ h11)) (
                            Reads-then (Reads-into _ _ (Gets-str _ h12)) (
                              Reads-then (Reads-into _ _ (Gets-str _ h13)) (
                                Reads-then (Reads-into _ _ (Gets-str _ h14)) (
                                  Reads-then (Reads-into _ _ (Gets-int32 _ h15)) (
                                    Reads-then (Reads-into _ _ (Gets-int32 _ h16)) (
                                      Reads-last
                                        (Reads-into _ _ (Gets-int32 _ h17)))))))))))))))))))
scan_rstat-Scans false wstat
      (h1, (h2, (h3, (h4, (h5, (h6, (h7, (h8, (h9, (h10, (h11, (h12, (h13, _))))))))))))) fc =
    Scans-always (
      Reads-then (Reads-into _ _ (Gets-int16 _ h1)) (
        Reads-then (Reads-into _ _ (Gets-int16 _ h2)) (
          Reads-then (Reads-into _ _ (Gets-int16 _ h3)) (
            Reads-then (Reads-into _ _ (Gets-int32 _ h4)) (
              Reads-then (Reads-qid _ _ _ h5.0 h5.1.0 h5.1.1) (
                Reads-then (Reads-into _ _ (Gets-int32 _ h6)) (
                  Reads-then (Reads-into _ _ (Gets-int32 _ h7)) (
                    Reads-then (Reads-into _ _ (Gets-int32 _ h8)) (
                      Reads-then (Reads-into _ _ (Gets-int64 _ h9)) (
                        Reads-then (Reads-into _ _ (Gets-str _ h10)) (
                          Reads-then (Reads-into _ _ (Gets-str _ h11)) (
                            Reads-then (Reads-into _ _ (Gets-str _ h12)) (
                              Reads-then (Reads-into _ _ (Gets-str _ h13))
                                (Reads-assign _ _))))))))))))))

pub scan_twstat-Scans :
    (dotu : Bool) (fid : ℕ) (wstat : Npwstat) → ScansMessage dotu (Message.twstat fid wstat)
unfolding cases switch scan_twstat buf_get_stat get_dotu_stat
scan_twstat-Scans true fid wstat
      (
        h1,
        (
          h2,
          (
            h3,
            (
              h4,
              (
                h5,
                (
                  h6,
                  (
                    h7,
                    (h8, (h9, (h10, (h11, (h12, (h13, (h14, (h15, (h16, (h17, (h18, _))))))))))),
                  ),
                ),
              ),
            ),
          ),
        ),
      )
      fc =
    Scans-always (
      Reads-then (Reads-into _ _ (Gets-int32 _ h1)) (
        Reads-then (Reads-into _ _ (Gets-int16 _ h2)) (
          Reads-then (Reads-into _ _ (Gets-int16 _ h3)) (
            Reads-then (Reads-into _ _ (Gets-int16 _ h4)) (
              Reads-then (Reads-into _ _ (Gets-int32 _ h5)) (
                Reads-then (Reads-qid _ _ _ h6.0 h6.1.0 h6.1.1) (
                  Reads-then (Reads-into _ _ (Gets-int32 _ h7)) (
                    Reads-then (Reads-into _ _ (Gets-int32 _ h8)) (
                      Reads-then (Reads-into _ _ (Gets-int32 _ h9)) (
                        Reads-then (Reads-into _ _ (Gets-int64 _ h10)) (
                          Reads-then (Reads-into _ _ (Gets-str _ h11)) (
                            Reads-then (Reads-into _ _ (Gets-str _ h12)) (
                              Reads-then (Reads-into _ _ (Gets-str _ h13)) (
                                Reads-then (Reads-into _ _ (Gets-str _ h14)) (
                                  Reads-then (Reads-into _ _ (Gets-str _ h15)) (
                                    Reads-then (Reads-into _ _ (Gets-int32 _ h16)) (
                                      Reads-then (Reads-into _ _ (Gets-int32 _ h17)) (
                                        Reads-last
                                          (Reads-into _ _ (Gets-int32 _ h18))))))))))))))))))))
scan_twstat-Scans false fid wstat
      (h1, (h2, (h3, (h4, (h5, (h6, (h7, (h8, (h9, (h10, (h11, (h12, (h13, (h14, _))))))))))))))
      fc =
    Scans-always (
      Reads-then (Reads-into _ _ (Gets-int32 _ h1)) (
        Reads-then (Reads-into _ _ (Gets-int16 _ h2)) (
          Reads-then (Reads-into _ _ (Gets-int16 _ h3)) (
            Reads-then (Reads-into _ _ (Gets-int16 _ h4)) (
              Reads-then (Reads-into _ _ (Gets-int32 _ h5)) (
                Reads-then (Reads-qid _ _ _ h6.0 h6.1.0 h6.1.1) (
                  Reads-then (Reads-into _ _ (Gets-int32 _ h7)) (
                    Reads-then (Reads-into _ _ (Gets-int32 _ h8)) (
                      Reads-then (Reads-into _ _ (Gets-int32 _ h9)) (
                        Reads-then (Reads-into _ _ (Gets-int64 _ h10)) (
                          Reads-then (Reads-into _ _ (Gets-str _ h11)) (
                            Reads-then (Reads-into _ _ (Gets-str _ h12)) (
                              Reads-then (Reads-into _ _ (Gets-str _ h13)) (
                                Reads-then (Reads-into _ _ (Gets-str _ h14))
                                  (Reads-assign _ _)))))))))))))))

pub scan_rwstat-Scans : (dotu : Bool) → ScansMessage dotu Message.rwstat
unfolding cases switch
scan_rwstat-Scans dotu _ fc = Scans-always (Reads-pass _)

pub scan_tcreate-Scans :
    (dotu : Bool) (fid : ℕ) (name : Npstr) (perm mode : ℕ) (extension : Npstr)
    → ScansMessage dotu (Message.tcreate fid name perm mode extension)
unfolding cases switch scan_tcreate ◌⨾◌
scan_tcreate-Scans true fid name perm mode extension (h1, (h2, (h3, (h4, (h5, _))))) fc =
    Scans-always (
      Reads-then (Reads-into _ _ (Gets-int32 _ h1)) (
        Reads-then (Reads-into _ _ (Gets-str _ h2)) (
          Reads-then (Reads-into _ _ (Gets-int32 _ h3)) (
            Reads-then (Reads-into _ _ (Gets-int8 _ h4))
              (Reads-last (Reads-into _ _ (Gets-str _ h5)))))))
scan_tcreate-Scans false fid name perm mode extension (h1, (h2, (h3, (h4, _)))) fc = Scans-always (
    Reads-then (Reads-into _ _ (Gets-int32 _ h1)) (
      Reads-then (Reads-into _ _ (Gets-str _ h2)) (
        Reads-then (Reads-into _ _ (Gets-int32 _ h3))
          (Reads-then (Reads-into _ _ (Gets-int8 _ h4)) (Reads-assign _ _)))))
