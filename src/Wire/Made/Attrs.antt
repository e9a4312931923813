-- ===== src/Wire/Made/Attrs.antt =====
-- libnpfs/np.c: the packets of the messages of 9P2000.L on attributes.
use npfs.Prelude.{ℕ, Bool, arith, refl}
use npfs.Wire.Made.{MakesPacket, made-Makes}
use npfs.Wire.Message.{Message}
use npfs.Types.{Npattrs, Npfcall, Npqid, Npstr}
use npfs.Wire.Writes.{
  Writes-int32, Writes-int64, Writes-last, Writes-pass, Writes-qid, Writes-str, Writes-then,
}
use npfs.Wire.Create.Attrs.{
  np_create_rgetattr, np_create_rsetattr, np_create_rxattrcreate, np_create_rxattrwalk,
  np_create_tgetattr, np_create_txattrcreate, np_create_txattrwalk,
}

module _ (mem : Npfcall) where
  pub np_create_tgetattr-Makes :
      (dotu : Bool) (fid : ℕ) (mask : ℕ) → MakesPacket dotu mem (Message.tgetattr fid mask)
  unfolding np_create_tgetattr
  np_create_tgetattr-Makes dotu fid mask fits small =
      made-Makes mem (Writes-then (Writes-int32 _ _ _) (Writes-last (Writes-int64 _ _ _)))
        (omega arith) small refl refl refl

  pub np_create_rgetattr-Makes :
      (dotu : Bool) (mask : ℕ) (attrs : Npattrs) (q : Npqid)
      → MakesPacket dotu mem (Message.rgetattr mask attrs q)
  unfolding np_create_rgetattr
  np_create_rgetattr-Makes dotu mask attrs q fits small =
      made-Makes mem
        (Writes-then (Writes-int64 _ _ _) (
          Writes-then (Writes-qid _ _ _) (
            Writes-then (Writes-int32 _ _ _) (
              Writes-then (Writes-int32 _ _ _) (
                Writes-then (Writes-int32 _ _ _) (
                  Writes-then (Writes-int64 _ _ _) (
                    Writes-then (Writes-int64 _ _ _) (
                      Writes-then (Writes-int64 _ _ _) (
                        Writes-then (Writes-int64 _ _ _) (
                          Writes-then (Writes-int64 _ _ _) (
                            Writes-then (Writes-int64 _ _ _) (
                              Writes-then (Writes-int64 _ _ _) (
                                Writes-then (Writes-int64 _ _ _) (
                                  Writes-then (Writes-int64 _ _ _) (
                                    Writes-then (Writes-int64 _ _ _) (
                                      Writes-then (Writes-int64 _ _ _) (
                                        Writes-then (Writes-int64 _ _ _) (
                                          Writes-then (Writes-int64 _ _ _) (
                                            Writes-then (Writes-int64 _ _ _)
                                              (Writes-last (Writes-int64 _ _ _)))))))))))))))))))))
        (omega arith) small refl refl refl

  pub np_create_rsetattr-Makes : (dotu : Bool) → MakesPacket dotu mem Message.rsetattr
  unfolding np_create_rsetattr
  np_create_rsetattr-Makes dotu fits small =
      made-Makes mem (Writes-pass _) (omega arith) small refl refl refl

  pub np_create_txattrwalk-Makes :
      (dotu : Bool) (fid : ℕ) (newfid : ℕ) (name : Npstr)
      → MakesPacket dotu mem (Message.txattrwalk fid newfid name)
  unfolding np_create_txattrwalk
  np_create_txattrwalk-Makes dotu fid newfid name fits small =
      made-Makes mem
        (Writes-then (Writes-int32 _ _ _)
          (Writes-then (Writes-int32 _ _ _) (Writes-last (Writes-str _ _ _))))
        (omega arith) small refl refl refl

  pub np_create_rxattrwalk-Makes :
      (dotu : Bool) (asize : ℕ) → MakesPacket dotu mem (Message.rxattrwalk asize)
  unfolding np_create_rxattrwalk
  np_create_rxattrwalk-Makes dotu asize fits small =
      made-Makes mem (Writes-last (Writes-int64 _ _ _)) (omega arith) small refl refl refl

  pub np_create_txattrcreate-Makes :
      (dotu : Bool) (fid : ℕ) (name : Npstr) (asize : ℕ) (flags : ℕ)
      → MakesPacket dotu mem (Message.txattrcreate fid name asize flags)
  unfolding np_create_txattrcreate
  np_create_txattrcreate-Makes dotu fid name asize flags fits small =
      made-Makes mem
        (Writes-then (Writes-int32 _ _ _) (
          Writes-then (Writes-str _ _ _)
            (Writes-then (Writes-int64 _ _ _) (Writes-last (Writes-int32 _ _ _)))))
        (omega arith) small refl refl refl

  pub np_create_rxattrcreate-Makes : (dotu : Bool) → MakesPacket dotu mem Message.rxattrcreate
  unfolding np_create_rxattrcreate
  np_create_rxattrcreate-Makes dotu fits small =
      made-Makes mem (Writes-pass _) (omega arith) small refl refl refl
