-- ===== src/Wire/Parsed/Attrs.antt =====
-- libnpfs/np.c: np_deserialize on the fields of the messages of 9P2000.L on attributes.
use npfs.Prelude.{ℕ, Bool}
use npfs.Wire.Reads.{
  Gets-int32, Gets-int64, Gets-str, Reads-into, Reads-last, Reads-pass, Reads-qid, Reads-then,
}
use npfs.Wire.Message.{Message}
use npfs.Types.{Npattrs, Npqid, Npstr}
use npfs.Wire.Parsed.{Scans-always, ScansMessage}
use npfs.Wire.Deserialize.{cases, cases_dotl, switch}
use npfs.Wire.Scan.Attrs.{
  into_attrs, scan_rgetattr, scan_rxattrwalk, scan_tgetattr, scan_txattrcreate, scan_txattrwalk,
}

pub scan_tgetattr-Scans :
    (dotu : Bool) (fid : ℕ) (mask : ℕ) → ScansMessage dotu (Message.tgetattr fid mask)
unfolding cases cases_dotl switch scan_tgetattr
scan_tgetattr-Scans dotu fid mask (h1, (h2, _)) fc =
    Scans-always (
      Reads-then (Reads-into _ _ (Gets-int32 _ h1)) (Reads-last (Reads-into _ _ (Gets-int64 _ h2))))

pub scan_rgetattr-Scans :
    (dotu : Bool) (mask : ℕ) (attrs : Npattrs) (q : Npqid)
    → ScansMessage dotu (Message.rgetattr mask attrs q)
unfolding cases cases_dotl switch scan_rgetattr into_attrs
scan_rgetattr-Scans dotu mask attrs q
      (
        h1,
        (
          h2,
          (
            h3,
            (
              h4,
              (
                h5,
                (
                  h6,
                  (
                    h7,
                    (
                      h8,
                      (
                        h9,
                        (
                          h10,
                          (h11, (h12, (h13, (h14, (h15, (h16, (h17, (h18, (h19, (h20, _)))))))))),
                        ),
                      ),
                    ),
                  ),
                ),
              ),
            ),
          ),
        ),
      )
      fc =
    Scans-always (
      Reads-then (Reads-into _ _ (Gets-int64 _ h1)) (
        Reads-then (Reads-qid _ _ _ h2.0 h2.1.0 h2.1.1) (
          Reads-then (Reads-into _ _ (Gets-int32 _ h3)) (
            Reads-then (Reads-into _ _ (Gets-int32 _ h4)) (
              Reads-then (Reads-into _ _ (Gets-int32 _ h5)) (
                Reads-then (Reads-into _ _ (Gets-int64 _ h6)) (
                  Reads-then (Reads-into _ _ (Gets-int64 _ h7)) (
                    Reads-then (Reads-into _ _ (Gets-int64 _ h8)) (
                      Reads-then (Reads-into _ _ (Gets-int64 _ h9)) (
                        Reads-then (Reads-into _ _ (Gets-int64 _ h10)) (
                          Reads-then (Reads-into _ _ (Gets-int64 _ h11)) (
                            Reads-then (Reads-into _ _ (Gets-int64 _ h12)) (
                              Reads-then (Reads-into _ _ (Gets-int64 _ h13)) (
                                Reads-then (Reads-into _ _ (Gets-int64 _ h14)) (
                                  Reads-then (Reads-into _ _ (Gets-int64 _ h15)) (
                                    Reads-then (Reads-into _ _ (Gets-int64 _ h16)) (
                                      Reads-then (Reads-into _ _ (Gets-int64 _ h17)) (
                                        Reads-then (Reads-into _ _ (Gets-int64 _ h18)) (
                                          Reads-then (Reads-into _ _ (Gets-int64 _ h19)) (
                                            Reads-last (
                                              Reads-into _ _ (Gets-int64 _ h20))))))))))))))))))))))

pub scan_rsetattr-Scans : (dotu : Bool) → ScansMessage dotu Message.rsetattr
unfolding cases cases_dotl switch
scan_rsetattr-Scans dotu _ fc = Scans-always (Reads-pass _)

pub scan_txattrwalk-Scans :
    (dotu : Bool) (fid : ℕ) (newfid : ℕ) (name : Npstr)
    → ScansMessage dotu (Message.txattrwalk fid newfid name)
unfolding cases cases_dotl switch scan_txattrwalk
scan_txattrwalk-Scans dotu fid newfid name (h1, (h2, (h3, _))) fc = Scans-always (
    Reads-then (Reads-into _ _ (Gets-int32 _ h1))
      (Reads-then (Reads-into _ _ (Gets-int32 _ h2)) (Reads-last (Reads-into _ _ (Gets-str _ h3)))))

pub scan_rxattrwalk-Scans : (dotu : Bool) (asize : ℕ) → ScansMessage dotu (Message.rxattrwalk asize)
unfolding cases cases_dotl switch scan_rxattrwalk
scan_rxattrwalk-Scans dotu asize (h1, _) fc =
    Scans-always (Reads-last (Reads-into _ _ (Gets-int64 _ h1)))

pub scan_txattrcreate-Scans :
    (dotu : Bool) (fid : ℕ) (name : Npstr) (asize : ℕ) (flags : ℕ)
    → ScansMessage dotu (Message.txattrcreate fid name asize flags)
unfolding cases cases_dotl switch scan_txattrcreate
scan_txattrcreate-Scans dotu fid name asize flags (h1, (h2, (h3, (h4, _)))) fc = Scans-always (
    Reads-then (Reads-into _ _ (Gets-int32 _ h1)) (
      Reads-then (Reads-into _ _ (Gets-str _ h2)) (
        Reads-then (Reads-into _ _ (Gets-int64 _ h3))
          (Reads-last (Reads-into _ _ (Gets-int32 _ h4))))))

pub scan_rxattrcreate-Scans : (dotu : Bool) → ScansMessage dotu Message.rxattrcreate
unfolding cases cases_dotl switch
scan_rxattrcreate-Scans dotu _ fc = Scans-always (Reads-pass _)
