-- ===== src/Wire/Parsed/Names.antt =====
-- libnpfs/np.c: np_deserialize on the fields of the messages of 9P2000.L on names.
use npfs.Prelude.{ℕ, Bool}
use npfs.Wire.Reads.{
  Gets-int32, Gets-str, Reads-into, Reads-last, Reads-pass, Reads-qid, Reads-then,
}
use npfs.Wire.Message.{Message}
use npfs.Types.{Npqid, Npstr}
use npfs.Wire.Parsed.{Scans-always, ScansMessage}
use npfs.Wire.Deserialize.{cases, cases_dotl, switch}
use npfs.Wire.Scan.Names.{
  scan_rlcreate, scan_rlerror, scan_rlopen, scan_rmknod, scan_rreadlink, scan_rsymlink,
  scan_tlcreate, scan_tlopen, scan_tmknod, scan_treadlink, scan_trename, scan_tstatfs,
  scan_tsymlink,
}

pub scan_rlerror-Scans : (dotu : Bool) (ecode : ℕ) → ScansMessage dotu (Message.rlerror ecode)
unfolding cases cases_dotl switch scan_rlerror
scan_rlerror-Scans dotu ecode (h1, _) fc =
    Scans-always (Reads-last (Reads-into _ _ (Gets-int32 _ h1)))

pub scan_tstatfs-Scans : (dotu : Bool) (fid : ℕ) → ScansMessage dotu (Message.tstatfs fid)
unfolding cases cases_dotl switch scan_tstatfs
scan_tstatfs-Scans dotu fid (h1, _) fc =
    Scans-always (Reads-last (Reads-into _ _ (Gets-int32 _ h1)))

pub scan_tlopen-Scans :
    (dotu : Bool) (fid : ℕ) (flags : ℕ) → ScansMessage dotu (Message.tlopen fid flags)
unfolding cases cases_dotl switch scan_tlopen
scan_tlopen-Scans dotu fid flags (h1, (h2, _)) fc =
    Scans-always (
      Reads-then (Reads-into _ _ (Gets-int32 _ h1)) (Reads-last (Reads-into _ _ (Gets-int32 _ h2))))

pub scan_rlopen-Scans :
    (dotu : Bool) (qid : Npqid) (iounit : ℕ) → ScansMessage dotu (Message.rlopen qid iounit)
unfolding cases cases_dotl switch scan_rlopen
scan_rlopen-Scans dotu qid iounit (h1, (h2, _)) fc = Scans-always (
    Reads-then (Reads-qid _ _ _ h1.0 h1.1.0 h1.1.1) (Reads-last (Reads-into _ _ (Gets-int32 _ h2))))

pub scan_tlcreate-Scans :
    (dotu : Bool) (fid : ℕ) (name : Npstr) (flags : ℕ) (mode : ℕ) (gid : ℕ)
    → ScansMessage dotu (Message.tlcreate fid name flags mode gid)
unfolding cases cases_dotl switch scan_tlcreate
scan_tlcreate-Scans dotu fid name flags mode gid (h1, (h2, (h3, (h4, (h5, _))))) fc = Scans-always (
    Reads-then (Reads-into _ _ (Gets-int32 _ h1)) (
      Reads-then (Reads-into _ _ (Gets-str _ h2)) (
        Reads-then (Reads-into _ _ (Gets-int32 _ h3)) (
          Reads-then (Reads-into _ _ (Gets-int32 _ h4))
            (Reads-last (Reads-into _ _ (Gets-int32 _ h5)))))))

pub scan_rlcreate-Scans :
    (dotu : Bool) (qid : Npqid) (iounit : ℕ) → ScansMessage dotu (Message.rlcreate qid iounit)
unfolding cases cases_dotl switch scan_rlcreate
scan_rlcreate-Scans dotu qid iounit (h1, (h2, _)) fc = Scans-always (
    Reads-then (Reads-qid _ _ _ h1.0 h1.1.0 h1.1.1) (Reads-last (Reads-into _ _ (Gets-int32 _ h2))))

pub scan_tsymlink-Scans :
    (dotu : Bool) (dfid : ℕ) (name : Npstr) (symtgt : Npstr) (gid : ℕ)
    → ScansMessage dotu (Message.tsymlink dfid name symtgt gid)
unfolding cases cases_dotl switch scan_tsymlink
scan_tsymlink-Scans dotu dfid name symtgt gid (h1, (h2, (h3, (h4, _)))) fc = Scans-always (
    Reads-then (Reads-into _ _ (Gets-int32 _ h1)) (
      Reads-then (Reads-into _ _ (Gets-str _ h2)) (
        Reads-then (Reads-into _ _ (Gets-str _ h3))
          (Reads-last (Reads-into _ _ (Gets-int32 _ h4))))))

pub scan_rsymlink-Scans : (dotu : Bool) (qid : Npqid) → ScansMessage dotu (Message.rsymlink qid)
unfolding cases cases_dotl switch scan_rsymlink
scan_rsymlink-Scans dotu qid (h1, _) fc =
    Scans-always (Reads-last (Reads-qid _ _ _ h1.0 h1.1.0 h1.1.1))

pub scan_tmknod-Scans :
    (dotu : Bool) (dfid : ℕ) (name : Npstr) (mode : ℕ) (major : ℕ) (minor : ℕ) (gid : ℕ)
    → ScansMessage dotu (Message.tmknod dfid name mode major minor gid)
unfolding cases cases_dotl switch scan_tmknod
scan_tmknod-Scans dotu dfid name mode major minor gid (h1, (h2, (h3, (h4, (h5, (h6, _)))))) fc =
    Scans-always (
      Reads-then (Reads-into _ _ (Gets-int32 _ h1)) (
        Reads-then (Reads-into _ _ (Gets-str _ h2)) (
          Reads-then (Reads-into _ _ (Gets-int32 _ h3)) (
            Reads-then (Reads-into _ _ (Gets-int32 _ h4)) (
              Reads-then (Reads-into _ _ (Gets-int32 _ h5))
                (Reads-last (Reads-into _ _ (Gets-int32 _ h6))))))))

pub scan_rmknod-Scans : (dotu : Bool) (qid : Npqid) → ScansMessage dotu (Message.rmknod qid)
unfolding cases cases_dotl switch scan_rmknod
scan_rmknod-Scans dotu qid (h1, _) fc =
    Scans-always (Reads-last (Reads-qid _ _ _ h1.0 h1.1.0 h1.1.1))

pub scan_trename-Scans :
    (dotu : Bool) (fid : ℕ) (dfid : ℕ) (name : Npstr)
    → ScansMessage dotu (Message.trename fid dfid name)
unfolding cases cases_dotl switch scan_trename
scan_trename-Scans dotu fid dfid name (h1, (h2, (h3, _))) fc = Scans-always (
    Reads-then (Reads-into _ _ (Gets-int32 _ h1))
      (Reads-then (Reads-into _ _ (Gets-int32 _ h2)) (Reads-last (Reads-into _ _ (Gets-str _ h3)))))

pub scan_rrename-Scans : (dotu : Bool) → ScansMessage dotu Message.rrename
unfolding cases cases_dotl switch
scan_rrename-Scans dotu _ fc = Scans-always (Reads-pass _)

pub scan_treadlink-Scans : (dotu : Bool) (fid : ℕ) → ScansMessage dotu (Message.treadlink fid)
unfolding cases cases_dotl switch scan_treadlink
scan_treadlink-Scans dotu fid (h1, _) fc =
    Scans-always (Reads-last (Reads-into _ _ (Gets-int32 _ h1)))

pub scan_rreadlink-Scans :
    (dotu : Bool) (target : Npstr) → ScansMessage dotu (Message.rreadlink target)
unfolding cases cases_dotl switch scan_rreadlink
scan_rreadlink-Scans dotu target (h1, _) fc =
    Scans-always (Reads-last (Reads-into _ _ (Gets-str _ h1)))
