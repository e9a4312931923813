-- ===== src/Wire/Made/Dirs.antt =====
-- libnpfs/np.c: the packets of the messages of 9P2000.L on directories, locks and links.
use npfs.Prelude.{ℕ, Bool, List, arith, refl}
use npfs.Wire.Made.{MakesPacket, made-Makes}
use npfs.Wire.Message.{Message}
use npfs.Types.{Npfcall, Npqid, Npstr}
use npfs.Wire.Writes.{
  Writes-data, Writes-int32, Writes-int64, Writes-int8, Writes-last, Writes-pass, Writes-qid,
  Writes-str, Writes-then,
}
use npfs.Wire.Create.Dirs.{
  np_create_rfsync, np_create_rlink, np_create_rlock, np_create_rmkdir, np_create_rreaddir,
  np_create_rrenameat, np_create_runlinkat, np_create_tfsync, np_create_tgetlock, np_create_tlink,
  np_create_tlock, np_create_tmkdir, np_create_treaddir, np_create_trenameat, np_create_tunlinkat,
}

module _ (mem : Npfcall) where
  pub np_create_treaddir-Makes :
      (dotu : Bool) (fid : ℕ) (offset : ℕ) (count : ℕ)
      → MakesPacket dotu mem (Message.treaddir fid offset count)
  unfolding np_create_treaddir
  np_create_treaddir-Makes dotu fid offset count fits small =
      made-Makes mem
        (Writes-then (Writes-int32 _ _ _)
          (Writes-then (Writes-int64 _ _ _) (Writes-last (Writes-int32 _ _ _))))
        (omega arith) small refl refl refl

  pub np_create_rreaddir-Makes :
      (dotu : Bool) (payload : List ℕ) → MakesPacket dotu mem (Message.rreaddir payload)
  unfolding np_create_rreaddir
  np_create_rreaddir-Makes dotu payload fits small =
      made-Makes mem (Writes-then (Writes-int32 _ _ _) (Writes-last (Writes-data _ _ _)))
        (omega arith) small refl refl refl

  pub np_create_tfsync-Makes : (dotu : Bool) (fid : ℕ) → MakesPacket dotu mem (Message.tfsync fid)
  unfolding np_create_tfsync
  np_create_tfsync-Makes dotu fid fits small =
      made-Makes mem (Writes-last (Writes-int32 _ _ _)) (omega arith) small refl refl refl

  pub np_create_rfsync-Makes : (dotu : Bool) → MakesPacket dotu mem Message.rfsync
  unfolding np_create_rfsync
  np_create_rfsync-Makes dotu fits small =
      made-Makes mem (Writes-pass _) (omega arith) small refl refl refl

  pub np_create_tlock-Makes :
      (dotu : Bool) (fid : ℕ) (type : ℕ) (flags : ℕ) (offset : ℕ) (len : ℕ) (procid : ℕ)
      (clientid : Npstr)
      → MakesPacket dotu mem (Message.tlock fid type flags offset len procid clientid)
  unfolding np_create_tlock
  np_create_tlock-Makes dotu fid type flags offset len procid clientid fits small =
      made-Makes mem
        (Writes-then (Writes-int32 _ _ _) (
          Writes-then (Writes-int8 _ _ _) (
            Writes-then (Writes-int32 _ _ _) (
              Writes-then (Writes-int64 _ _ _) (
                Writes-then (Writes-int64 _ _ _)
                  (Writes-then (Writes-int32 _ _ _) (Writes-last (Writes-str _ _ _))))))))
        (omega arith) small refl refl refl

  pub np_create_rlock-Makes :
      (dotu : Bool) (status : ℕ) → MakesPacket dotu mem (Message.rlock status)
  unfolding np_create_rlock
  np_create_rlock-Makes dotu status fits small =
      made-Makes mem (Writes-last (Writes-int8 _ _ _)) (omega arith) small refl refl refl

  pub np_create_tgetlock-Makes :
      (dotu : Bool) (fid : ℕ) (type : ℕ) (offset : ℕ) (len : ℕ) (procid : ℕ) (clientid : Npstr)
      → MakesPacket dotu mem (Message.tgetlock fid type offset len procid clientid)
  unfolding np_create_tgetlock
  np_create_tgetlock-Makes dotu fid type offset len procid clientid fits small =
      made-Makes mem
        (Writes-then (Writes-int32 _ _ _) (
          Writes-then (Writes-int8 _ _ _) (
            Writes-then (Writes-int64 _ _ _) (
              Writes-then (Writes-int64 _ _ _)
                (Writes-then (Writes-int32 _ _ _) (Writes-last (Writes-str _ _ _)))))))
        (omega arith) small refl refl refl

  pub np_create_tlink-Makes :
      (dotu : Bool) (dfid : ℕ) (fid : ℕ) (name : Npstr)
      → MakesPacket dotu mem (Message.tlink dfid fid name)
  unfolding np_create_tlink
  np_create_tlink-Makes dotu dfid fid name fits small =
      made-Makes mem
        (Writes-then (Writes-int32 _ _ _)
          (Writes-then (Writes-int32 _ _ _) (Writes-last (Writes-str _ _ _))))
        (omega arith) small refl refl refl

  pub np_create_rlink-Makes : (dotu : Bool) → MakesPacket dotu mem Message.rlink
  unfolding np_create_rlink
  np_create_rlink-Makes dotu fits small =
      made-Makes mem (Writes-pass _) (omega arith) small refl refl refl

  pub np_create_tmkdir-Makes :
      (dotu : Bool) (dfid : ℕ) (name : Npstr) (mode : ℕ) (gid : ℕ)
      → MakesPacket dotu mem (Message.tmkdir dfid name mode gid)
  unfolding np_create_tmkdir
  np_create_tmkdir-Makes dotu dfid name mode gid fits small =
      made-Makes mem
        (Writes-then (Writes-int32 _ _ _) (
          Writes-then (Writes-str _ _ _)
            (Writes-then (Writes-int32 _ _ _) (Writes-last (Writes-int32 _ _ _)))))
        (omega arith) small refl refl refl

  pub np_create_rmkdir-Makes :
      (dotu : Bool) (qid : Npqid) → MakesPacket dotu mem (Message.rmkdir qid)
  unfolding np_create_rmkdir
  np_create_rmkdir-Makes dotu qid fits small =
      made-Makes mem (Writes-last (Writes-qid _ _ _)) (omega arith) small refl refl refl

  pub np_create_trenameat-Makes :
      (dotu : Bool) (odfid : ℕ) (oname : Npstr) (ndfid : ℕ) (nname : Npstr)
      → MakesPacket dotu mem (Message.trenameat odfid oname ndfid nname)
  unfolding np_create_trenameat
  np_create_trenameat-Makes dotu odfid oname ndfid nname fits small =
      made-Makes mem
        (Writes-then (Writes-int32 _ _ _) (
          Writes-then (Writes-str _ _ _)
            (Writes-then (Writes-int32 _ _ _) (Writes-last (Writes-str _ _ _)))))
        (omega arith) small refl refl refl

  pub np_create_rrenameat-Makes : (dotu : Bool) → MakesPacket dotu mem Message.rrenameat
  unfolding np_create_rrenameat
  np_create_rrenameat-Makes dotu fits small =
      made-Makes mem (Writes-pass _) (omega arith) small refl refl refl

  pub np_create_tunlinkat-Makes :
      (dotu : Bool) (dfid : ℕ) (name : Npstr) (flags : ℕ)
      → MakesPacket dotu mem (Message.tunlinkat dfid name flags)
  unfolding np_create_tunlinkat
  np_create_tunlinkat-Makes dotu dfid name flags fits small =
      made-Makes mem
        (Writes-then (Writes-int32 _ _ _)
          (Writes-then (Writes-str _ _ _) (Writes-last (Writes-int32 _ _ _))))
        (omega arith) small refl refl refl

  pub np_create_runlinkat-Makes : (dotu : Bool) → MakesPacket dotu mem Message.runlinkat
  unfolding np_create_runlinkat
  np_create_runlinkat-Makes dotu fits small =
      made-Makes mem (Writes-pass _) (omega arith) small refl refl refl
