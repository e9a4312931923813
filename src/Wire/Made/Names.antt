-- ===== src/Wire/Made/Names.antt =====
-- libnpfs/np.c: the packets of the messages of 9P2000.L on names.
use npfs.Prelude.{ℕ, Bool, arith, refl}
use npfs.Wire.Made.{MakesPacket, made-Makes}
use npfs.Wire.Message.{Message}
use npfs.Types.{Npfcall, Npqid, Npstr}
use npfs.Wire.Writes.{Writes-int32, Writes-last, Writes-pass, Writes-qid, Writes-str, Writes-then}
use npfs.Wire.Create.Names.{
  np_create_rlcreate, np_create_rlerror, np_create_rlopen, np_create_rmknod, np_create_rreadlink,
  np_create_rrename, np_create_rsymlink, np_create_tlcreate, np_create_tlopen, np_create_tmknod,
  np_create_treadlink, np_create_trename, np_create_tstatfs, np_create_tsymlink, np_errno_to_linux,
}

module _ (mem : Npfcall) where
  pub np_create_rlerror-Makes :
      (dotu : Bool) (ecode : ℕ) → MakesPacket dotu mem (Message.rlerror ecode)
  unfolding np_create_rlerror np_errno_to_linux
  np_create_rlerror-Makes dotu ecode fits small =
      made-Makes mem (Writes-last (Writes-int32 _ _ _)) (omega arith) small refl refl refl

  pub np_create_tstatfs-Makes : (dotu : Bool) (fid : ℕ) → MakesPacket dotu mem (Message.tstatfs fid)
  unfolding np_create_tstatfs
  np_create_tstatfs-Makes dotu fid fits small =
      made-Makes mem (Writes-last (Writes-int32 _ _ _)) (omega arith) small refl refl refl

  pub np_create_tlopen-Makes :
      (dotu : Bool) (fid : ℕ) (flags : ℕ) → MakesPacket dotu mem (Message.tlopen fid flags)
  unfolding np_create_tlopen
  np_create_tlopen-Makes dotu fid flags fits small =
      made-Makes mem (Writes-then (Writes-int32 _ _ _) (Writes-last (Writes-int32 _ _ _)))
        (omega arith) small refl refl refl

  pub np_create_rlopen-Makes :
      (dotu : Bool) (qid : Npqid) (iounit : ℕ) → MakesPacket dotu mem (Message.rlopen qid iounit)
  unfolding np_create_rlopen
  np_create_rlopen-Makes dotu qid iounit fits small =
      made-Makes mem (Writes-then (Writes-qid _ _ _) (Writes-last (Writes-int32 _ _ _)))
        (omega arith) small refl refl refl

  pub np_create_tlcreate-Makes :
      (dotu : Bool) (fid : ℕ) (name : Npstr) (flags : ℕ) (mode : ℕ) (gid : ℕ)
      → MakesPacket dotu mem (Message.tlcreate fid name flags mode gid)
  unfolding np_create_tlcreate
  np_create_tlcreate-Makes dotu fid name flags mode gid fits small =
      made-Makes mem
        (Writes-then (Writes-int32 _ _ _) (
          Writes-then (Writes-str _ _ _) (
            Writes-then (Writes-int32 _ _ _)
              (Writes-then (Writes-int32 _ _ _) (Writes-last (Writes-int32 _ _ _))))))
        (omega arith) small refl refl refl

  pub np_create_rlcreate-Makes :
      (dotu : Bool) (qid : Npqid) (iounit : ℕ) → MakesPacket dotu mem (Message.rlcreate qid iounit)
  unfolding np_create_rlcreate
  np_create_rlcreate-Makes dotu qid iounit fits small =
      made-Makes mem (Writes-then (Writes-qid _ _ _) (Writes-last (Writes-int32 _ _ _)))
        (omega arith) small refl refl refl

  pub np_create_tsymlink-Makes :
      (dotu : Bool) (dfid : ℕ) (name : Npstr) (symtgt : Npstr) (gid : ℕ)
      → MakesPacket dotu mem (Message.tsymlink dfid name symtgt gid)
  unfolding np_create_tsymlink
  np_create_tsymlink-Makes dotu dfid name symtgt gid fits small =
      made-Makes mem
        (Writes-then (Writes-int32 _ _ _) (
          Writes-then (Writes-str _ _ _)
            (Writes-then (Writes-str _ _ _) (Writes-last (Writes-int32 _ _ _)))))
        (omega arith) small refl refl refl

  pub np_create_rsymlink-Makes :
      (dotu : Bool) (qid : Npqid) → MakesPacket dotu mem (Message.rsymlink qid)
  unfolding np_create_rsymlink
  np_create_rsymlink-Makes dotu qid fits small =
      made-Makes mem (Writes-last (Writes-qid _ _ _)) (omega arith) small refl refl refl

  pub np_create_tmknod-Makes :
      (dotu : Bool) (dfid : ℕ) (name : Npstr) (mode : ℕ) (major : ℕ) (minor : ℕ) (gid : ℕ)
      → MakesPacket dotu mem (Message.tmknod dfid name mode major minor gid)
  unfolding np_create_tmknod
  np_create_tmknod-Makes dotu dfid name mode major minor gid fits small =
      made-Makes mem
        (Writes-then (Writes-int32 _ _ _) (
          Writes-then (Writes-str _ _ _) (
            Writes-then (Writes-int32 _ _ _) (
              Writes-then (Writes-int32 _ _ _)
                (Writes-then (Writes-int32 _ _ _) (Writes-last (Writes-int32 _ _ _)))))))
        (omega arith) small refl refl refl

  pub np_create_rmknod-Makes :
      (dotu : Bool) (qid : Npqid) → MakesPacket dotu mem (Message.rmknod qid)
  unfolding np_create_rmknod
  np_create_rmknod-Makes dotu qid fits small =
      made-Makes mem (Writes-last (Writes-qid _ _ _)) (omega arith) small refl refl refl

  pub np_create_trename-Makes :
      (dotu : Bool) (fid : ℕ) (dfid : ℕ) (name : Npstr)
      → MakesPacket dotu mem (Message.trename fid dfid name)
  unfolding np_create_trename
  np_create_trename-Makes dotu fid dfid name fits small =
      made-Makes mem
        (Writes-then (Writes-int32 _ _ _)
          (Writes-then (Writes-int32 _ _ _) (Writes-last (Writes-str _ _ _))))
        (omega arith) small refl refl refl

  pub np_create_rrename-Makes : (dotu : Bool) → MakesPacket dotu mem Message.rrename
  unfolding np_create_rrename
  np_create_rrename-Makes dotu fits small =
      made-Makes mem (Writes-pass _) (omega arith) small refl refl refl

  pub np_create_treadlink-Makes :
      (dotu : Bool) (fid : ℕ) → MakesPacket dotu mem (Message.treadlink fid)
  unfolding np_create_treadlink
  np_create_treadlink-Makes dotu fid fits small =
      made-Makes mem (Writes-last (Writes-int32 _ _ _)) (omega arith) small refl refl refl

  pub np_create_rreadlink-Makes :
      (dotu : Bool) (target : Npstr) → MakesPacket dotu mem (Message.rreadlink target)
  unfolding np_create_rreadlink
  np_create_rreadlink-Makes dotu target fits small =
      made-Makes mem (Writes-last (Writes-str _ _ _)) (omega arith) small refl refl refl
