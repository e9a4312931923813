-- ===== src/Wire/Made/Files.antt =====
-- libnpfs/np.c: the packets of the messages on files.
use npfs.Prelude.{ℕ, Bool, List, arith, false, refl, true}
use npfs.Wire.Made.{MakesPacket, made-Makes}
use npfs.Wire.Message.{Message}
use npfs.Types.{Npfcall, Npqid, Npstr}
use npfs.Wire.Stat.{Npwstat, buf_put_wstat, put_dotu_stat, size_wstat}
use npfs.Wire.Writes.{
  Writes-data, Writes-int16, Writes-int32, Writes-int64, Writes-int8, Writes-last, Writes-pass,
  Writes-qid, Writes-set_fields, Writes-str, Writes-then,
}
use npfs.Wire.Create.Files.{
  np_alloc_rread, np_create_rclunk, np_create_rcreate, np_create_ropen, np_create_rread,
  np_create_rremove, np_create_rstat, np_create_rwrite, np_create_rwstat, np_create_tclunk,
  np_create_tcreate, np_create_topen, np_create_tread, np_create_tremove, np_create_tstat,
  np_create_twrite, np_create_twstat,
}

module _ (mem : Npfcall) where
  pub np_create_topen-Makes :
      (dotu : Bool) (fid : ℕ) (mode : ℕ) → MakesPacket dotu mem (Message.topen fid mode)
  unfolding np_create_topen
  np_create_topen-Makes dotu fid mode fits small =
      made-Makes mem (Writes-then (Writes-int32 _ _ _) (Writes-last (Writes-int8 _ _ _)))
        (omega arith) small refl refl refl

  pub np_create_ropen-Makes :
      (dotu : Bool) (qid : Npqid) (iounit : ℕ) → MakesPacket dotu mem (Message.ropen qid iounit)
  unfolding np_create_ropen
  np_create_ropen-Makes dotu qid iounit fits small =
      made-Makes mem (Writes-then (Writes-qid _ _ _) (Writes-last (Writes-int32 _ _ _)))
        (omega arith) small refl refl refl

  pub np_create_tcreate-Makes :
      (fid : ℕ) (name : Npstr) (perm : ℕ) (mode : ℕ) (extension : Npstr)
      → MakesPacket false mem (Message.tcreate fid name perm mode extension)
  unfolding np_create_tcreate
  np_create_tcreate-Makes fid name perm mode extension fits small =
      made-Makes mem
        (Writes-then (Writes-int32 _ _ _) (
          Writes-then (Writes-str _ _ _)
            (Writes-then (Writes-int32 _ _ _) (Writes-last (Writes-int8 _ _ _)))))
        (omega arith) small refl refl refl

  pub np_create_rcreate-Makes :
      (dotu : Bool) (qid : Npqid) (iounit : ℕ) → MakesPacket dotu mem (Message.rcreate qid iounit)
  unfolding np_create_rcreate
  np_create_rcreate-Makes dotu qid iounit fits small =
      made-Makes mem (Writes-then (Writes-qid _ _ _) (Writes-last (Writes-int32 _ _ _)))
        (omega arith) small refl refl refl

  pub np_create_tread-Makes :
      (dotu : Bool) (fid : ℕ) (offset : ℕ) (count : ℕ)
      → MakesPacket dotu mem (Message.tread fid offset count)
  unfolding np_create_tread
  np_create_tread-Makes dotu fid offset count fits small =
      made-Makes mem
        (Writes-then (Writes-int32 _ _ _)
          (Writes-then (Writes-int64 _ _ _) (Writes-last (Writes-int32 _ _ _))))
        (omega arith) small refl refl refl

  pub np_create_rread-Makes :
      (dotu : Bool) (payload : List ℕ) → MakesPacket dotu mem (Message.rread payload)
  unfolding np_create_rread np_alloc_rread
  np_create_rread-Makes dotu payload fits small =
      made-Makes mem (Writes-then (Writes-int32 _ _ _) (Writes-last (Writes-data _ _ _)))
        (omega arith) small refl refl refl

  pub np_create_twrite-Makes :
      (dotu : Bool) (fid : ℕ) (offset : ℕ) (payload : List ℕ)
      → MakesPacket dotu mem (Message.twrite fid offset payload)
  unfolding np_create_twrite
  np_create_twrite-Makes dotu fid offset payload fits small =
      made-Makes mem
        (Writes-then (Writes-int32 _ _ _) (
          Writes-then (Writes-int64 _ _ _)
            (Writes-then (Writes-int32 _ _ _) (Writes-last (Writes-data _ _ _)))))
        (omega arith) small refl refl refl

  pub np_create_rwrite-Makes :
      (dotu : Bool) (count : ℕ) → MakesPacket dotu mem (Message.rwrite count)
  unfolding np_create_rwrite
  np_create_rwrite-Makes dotu count fits small =
      made-Makes mem (Writes-last (Writes-int32 _ _ _)) (omega arith) small refl refl refl

  pub np_create_tclunk-Makes : (dotu : Bool) (fid : ℕ) → MakesPacket dotu mem (Message.tclunk fid)
  unfolding np_create_tclunk
  np_create_tclunk-Makes dotu fid fits small =
      made-Makes mem (Writes-last (Writes-int32 _ _ _)) (omega arith) small refl refl refl

  pub np_create_rclunk-Makes : (dotu : Bool) → MakesPacket dotu mem Message.rclunk
  unfolding np_create_rclunk
  np_create_rclunk-Makes dotu fits small =
      made-Makes mem (Writes-pass _) (omega arith) small refl refl refl

  pub np_create_tremove-Makes : (dotu : Bool) (fid : ℕ) → MakesPacket dotu mem (Message.tremove fid)
  unfolding np_create_tremove
  np_create_tremove-Makes dotu fid fits small =
      made-Makes mem (Writes-last (Writes-int32 _ _ _)) (omega arith) small refl refl refl

  pub np_create_rremove-Makes : (dotu : Bool) → MakesPacket dotu mem Message.rremove
  unfolding np_create_rremove
  np_create_rremove-Makes dotu fits small =
      made-Makes mem (Writes-pass _) (omega arith) small refl refl refl

  pub np_create_tstat-Makes : (dotu : Bool) (fid : ℕ) → MakesPacket dotu mem (Message.tstat fid)
  unfolding np_create_tstat
  np_create_tstat-Makes dotu fid fits small =
      made-Makes mem (Writes-last (Writes-int32 _ _ _)) (omega arith) small refl refl refl

  pub np_create_rstat-Makes :
      (dotu : Bool) (wstat : Npwstat) → MakesPacket dotu mem (Message.rstat wstat)
  unfolding np_create_rstat buf_put_wstat put_dotu_stat size_wstat
  np_create_rstat-Makes true wstat fits small =
      made-Makes mem
        (Writes-then (Writes-int16 _ _ _) (
          Writes-then (Writes-int16 _ _ _) (
            Writes-then (Writes-int16 _ _ _) (
              Writes-then (Writes-int32 _ _ _) (
                Writes-then (Writes-qid _ _ _) (
                  Writes-then (Writes-int32 _ _ _) (
                    Writes-then (Writes-int32 _ _ _) (
                      Writes-then (Writes-int32 _ _ _) (
                        Writes-then (Writes-int64 _ _ _) (
                          Writes-then (Writes-str _ _ _) (
                            Writes-then (Writes-str _ _ _) (
                              Writes-then (Writes-str _ _ _) (
                                Writes-then (Writes-str _ _ _) (
                                  Writes-then (Writes-str _ _ _) (
                                    Writes-then (Writes-int32 _ _ _) (
                                      Writes-then (Writes-int32 _ _ _)
                                        (Writes-last (Writes-int32 _ _ _))))))))))))))))))
        (omega arith) small refl refl refl
  np_create_rstat-Makes false wstat fits small =
      made-Makes mem
        (Writes-then (Writes-int16 _ _ _) (
          Writes-then (Writes-int16 _ _ _) (
            Writes-then (Writes-int16 _ _ _) (
              Writes-then (Writes-int32 _ _ _) (
                Writes-then (Writes-qid _ _ _) (
                  Writes-then (Writes-int32 _ _ _) (
                    Writes-then (Writes-int32 _ _ _) (
                      Writes-then (Writes-int32 _ _ _) (
                        Writes-then (Writes-int64 _ _ _) (
                          Writes-then (Writes-str _ _ _) (
                            Writes-then (Writes-str _ _ _) (
                              Writes-then (Writes-str _ _ _)
                                (Writes-then (Writes-str _ _ _) (Writes-set_fields _ _))))))))))))))
        (omega arith) small refl refl refl

  pub np_create_twstat-Makes :
      (dotu : Bool) (fid : ℕ) (wstat : Npwstat) → MakesPacket dotu mem (Message.twstat fid wstat)
  unfolding np_create_twstat buf_put_wstat put_dotu_stat size_wstat
  np_create_twstat-Makes true fid wstat fits small =
      made-Makes mem
        (Writes-then (Writes-int32 _ _ _) (
          Writes-then (Writes-int16 _ _ _) (
            Writes-then (Writes-int16 _ _ _) (
              Writes-then (Writes-int16 _ _ _) (
                Writes-then (Writes-int32 _ _ _) (
                  Writes-then (Writes-qid _ _ _) (
                    Writes-then (Writes-int32 _ _ _) (
                      Writes-then (Writes-int32 _ _ _) (
                        Writes-then (Writes-int32 _ _ _) (
                          Writes-then (Writes-int64 _ _ _) (
                            Writes-then (Writes-str _ _ _) (
                              Writes-then (Writes-str _ _ _) (
                                Writes-then (Writes-str _ _ _) (
                                  Writes-then (Writes-str _ _ _) (
                                    Writes-then (Writes-str _ _ _) (
                                      Writes-then (Writes-int32 _ _ _) (
                                        Writes-then (Writes-int32 _ _ _)
                                          (Writes-last (Writes-int32 _ _ _)))))))))))))))))))
        (omega arith) small refl refl refl
  np_create_twstat-Makes false fid wstat fits small =
      made-Makes mem
        (Writes-then (Writes-int32 _ _ _) (
          Writes-then (Writes-int16 _ _ _) (
            Writes-then (Writes-int16 _ _ _) (
              Writes-then (Writes-int16 _ _ _) (
                Writes-then (Writes-int32 _ _ _) (
                  Writes-then (Writes-qid _ _ _) (
                    Writes-then (Writes-int32 _ _ _) (
                      Writes-then (Writes-int32 _ _ _) (
                        Writes-then (Writes-int32 _ _ _) (
                          Writes-then (Writes-int64 _ _ _) (
                            Writes-then (Writes-str _ _ _) (
                              Writes-then (Writes-str _ _ _) (
                                Writes-then (Writes-str _ _ _) (
                                  Writes-then (Writes-str _ _ _)
                                    (Writes-set_fields _ _)))))))))))))))
        (omega arith) small refl refl refl

  pub np_create_rwstat-Makes : (dotu : Bool) → MakesPacket dotu mem Message.rwstat
  unfolding np_create_rwstat
  np_create_rwstat-Makes dotu fits small =
      made-Makes mem (Writes-pass _) (omega arith) small refl refl refl
