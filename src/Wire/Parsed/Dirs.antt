-- ===== src/Wire/Parsed/Dirs.antt =====
-- libnpfs/np.c: np_deserialize on the fields of the messages of 9P2000.L on directories, locks and links.
use npfs.Prelude.{ℕ, Bool, List, refl}
use npfs.Wire.Reads.{
  Gets-int32, Gets-int64, Gets-int8, Gets-str, Reads-into, Reads-last, Reads-pass, Reads-qid,
  Reads-then,
}
use npfs.Wire.Message.{Message}
use npfs.Types.{Npqid, Npstr}
use npfs.Wire.Parsed.{Reads-data, Scans-always, ScansMessage}
use npfs.Wire.Deserialize.{cases, cases_dotl, switch}
use npfs.Wire.Scan.Dirs.{
  scan_rlock, scan_rmkdir, scan_tfsync, scan_tgetlock, scan_tlink, scan_tlock, scan_tmkdir,
  scan_treaddir, scan_trenameat, scan_tunlinkat,
}
use npfs.Wire.Scan.Files.{scan_rread}

pub scan_treaddir-Scans :
    (dotu : Bool) (fid : ℕ) (offset : ℕ) (count : ℕ)
    → ScansMessage dotu (Message.treaddir fid offset count)
unfolding cases cases_dotl switch scan_treaddir
scan_treaddir-Scans dotu fid offset count (h1, (h2, (h3, _))) fc = Scans-always (
    Reads-then (Reads-into _ _ (Gets-int32 _ h1)) (
      Reads-then (Reads-into _ _ (Gets-int64 _ h2))
        (Reads-last (Reads-into _ _ (Gets-int32 _ h3)))))

pub scan_rreaddir-Scans :
    (dotu : Bool) (payload : List ℕ) → ScansMessage dotu (Message.rreaddir payload)
unfolding cases cases_dotl switch scan_rread
scan_rreaddir-Scans dotu payload (h1, (h2, _)) fc =
    Scans-always
      (Reads-then (Reads-into _ _ (Gets-int32 _ h1)) (Reads-last (Reads-data _ _ refl h2)))

pub scan_tfsync-Scans : (dotu : Bool) (fid : ℕ) → ScansMessage dotu (Message.tfsync fid)
unfolding cases cases_dotl switch scan_tfsync
scan_tfsync-Scans dotu fid (h1, _) fc = Scans-always (Reads-last (Reads-into _ _ (Gets-int32 _ h1)))

pub scan_rfsync-Scans : (dotu : Bool) → ScansMessage dotu Message.rfsync
unfolding cases cases_dotl switch
scan_rfsync-Scans dotu _ fc = Scans-always (Reads-pass _)

pub scan_tlock-Scans :
    (dotu : Bool) (fid : ℕ) (type : ℕ) (flags : ℕ) (offset : ℕ) (len : ℕ) (procid : ℕ)
    (clientid : Npstr)
    → ScansMessage dotu (Message.tlock fid type flags offset len procid clientid)
unfolding cases cases_dotl switch scan_tlock
scan_tlock-Scans dotu fid type flags offset len procid clientid
      (h1, (h2, (h3, (h4, (h5, (h6, (h7, _))))))) fc =
    Scans-always (
      Reads-then (Reads-into _ _ (Gets-int32 _ h1)) (
        Reads-then (Reads-into _ _ (Gets-int8 _ h2)) (
          Reads-then (Reads-into _ _ (Gets-int32 _ h3)) (
            Reads-then (Reads-into _ _ (Gets-int64 _ h4)) (
              Reads-then (Reads-into _ _ (Gets-int64 _ h5)) (
                Reads-then (Reads-into _ _ (Gets-int32 _ h6))
                  (Reads-last (Reads-into _ _ (Gets-str _ h7)))))))))

pub scan_rlock-Scans : (dotu : Bool) (status : ℕ) → ScansMessage dotu (Message.rlock status)
unfolding cases cases_dotl switch scan_rlock
scan_rlock-Scans dotu status (h1, _) fc =
    Scans-always (Reads-last (Reads-into _ _ (Gets-int8 _ h1)))

pub scan_tgetlock-Scans :
    (dotu : Bool) (fid : ℕ) (type : ℕ) (offset : ℕ) (len : ℕ) (procid : ℕ) (clientid : Npstr)
    → ScansMessage dotu (Message.tgetlock fid type offset len procid clientid)
unfolding cases cases_dotl switch scan_tgetlock
scan_tgetlock-Scans dotu fid type offset len procid clientid (h1, (h2, (h3, (h4, (h5, (h6, _))))))
      fc =
    Scans-always (
      Reads-then (Reads-into _ _ (Gets-int32 _ h1)) (
        Reads-then (Reads-into _ _ (Gets-int8 _ h2)) (
          Reads-then (Reads-into _ _ (Gets-int64 _ h3)) (
            Reads-then (Reads-into _ _ (Gets-int64 _ h4)) (
              Reads-then (Reads-into _ _ (Gets-int32 _ h5))
                (Reads-last (Reads-into _ _ (Gets-str _ h6))))))))

pub scan_tlink-Scans :
    (dotu : Bool) (dfid : ℕ) (fid : ℕ) (name : Npstr)
    → ScansMessage dotu (Message.tlink dfid fid name)
unfolding cases cases_dotl switch scan_tlink
scan_tlink-Scans dotu dfid fid name (h1, (h2, (h3, _))) fc = Scans-always (
    Reads-then (Reads-into _ _ (Gets-int32 _ h1))
      (Reads-then (Reads-into _ _ (Gets-int32 _ h2)) (Reads-last (Reads-into _ _ (Gets-str _ h3)))))

pub scan_rlink-Scans : (dotu : Bool) → ScansMessage dotu Message.rlink
unfolding cases cases_dotl switch
scan_rlink-Scans dotu _ fc = Scans-always (Reads-pass _)

pub scan_tmkdir-Scans :
    (dotu : Bool) (dfid : ℕ) (name : Npstr) (mode : ℕ) (gid : ℕ)
    → ScansMessage dotu (Message.tmkdir dfid name mode gid)
unfolding cases cases_dotl switch scan_tmkdir
scan_tmkdir-Scans dotu dfid name mode gid (h1, (h2, (h3, (h4, _)))) fc = Scans-always (
    Reads-then (Reads-into _ _ (Gets-int32 _ h1)) (
      Reads-then (Reads-into _ _ (Gets-str _ h2)) (
        Reads-then (Reads-into _ _ (Gets-int32 _ h3))
          (Reads-last (Reads-into _ _ (Gets-int32 _ h4))))))

pub scan_rmkdir-Scans : (dotu : Bool) (qid : Npqid) → ScansMessage dotu (Message.rmkdir qid)
unfolding cases cases_dotl switch scan_rmkdir
scan_rmkdir-Scans dotu qid (h1, _) fc =
    Scans-always (Reads-last (Reads-qid _ _ _ h1.0 h1.1.0 h1.1.1))

pub scan_trenameat-Scans :
    (dotu : Bool) (odfid : ℕ) (oname : Npstr) (ndfid : ℕ) (nname : Npstr)
    → ScansMessage dotu (Message.trenameat odfid oname ndfid nname)
unfolding cases cases_dotl switch scan_trenameat
scan_trenameat-Scans dotu odfid oname ndfid nname (h1, (h2, (h3, (h4, _)))) fc = Scans-always (
    Reads-then (Reads-into _ _ (Gets-int32 _ h1)) (
      Reads-then (Reads-into _ _ (Gets-str _ h2)) (
        Reads-then (Reads-into _ _ (Gets-int32 _ h3))
          (Reads-last (Reads-into _ _ (Gets-str _ h4))))))

pub scan_rrenameat-Scans : (dotu : Bool) → ScansMessage dotu Message.rrenameat
unfolding cases cases_dotl switch
scan_rrenameat-Scans dotu _ fc = Scans-always (Reads-pass _)

pub scan_tunlinkat-Scans :
    (dotu : Bool) (dfid : ℕ) (name : Npstr) (flags : ℕ)
    → ScansMessage dotu (Message.tunlinkat dfid name flags)
unfolding cases cases_dotl switch scan_tunlinkat
scan_tunlinkat-Scans dotu dfid name flags (h1, (h2, (h3, _))) fc = Scans-always (
    Reads-then (Reads-into _ _ (Gets-int32 _ h1))
      (Reads-then (Reads-into _ _ (Gets-str _ h2)) (Reads-last (Reads-into _ _ (Gets-int32 _ h3)))))

pub scan_runlinkat-Scans : (dotu : Bool) → ScansMessage dotu Message.runlinkat
unfolding cases cases_dotl switch
scan_runlinkat-Scans dotu _ fc = Scans-always (Reads-pass _)
