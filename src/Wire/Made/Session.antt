-- ===== src/Wire/Made/Session.antt =====
-- libnpfs/np.c: the packets of the messages of a session.
use npfs.Prelude.{
  ℕ, Bool, List, [], ap, arith, false, length, ltb, pass, refl, subst, sym, true, ◌*◌, ◌++◌, ◌+◌,
  ◌∷◌, ◌≡◌, ◌≤◌, ◌⨾◌,
}
use mathlib.Core.List.{append_assoc, append-nil}
use npfs.Wire.Made.{MakesPacket, made-Makes}
use npfs.Wire.Message.{Message, qid_fields, texts}
use npfs.Types.{Npfcall, Npqid, Npstr, zero_qid}
use npfs.Wire.Writes.{
  Writes, Writes-int16, Writes-int32, Writes-last, Writes-pass, Writes-qid, Writes-set, Writes-str,
  Writes-then,
}
use npfs.Wire.Create.Session.{
  at_last, names_length, np_create_rattach, np_create_rauth, np_create_rerror, np_create_rflush,
  np_create_rversion, np_create_rwalk, np_create_tattach, np_create_tauth, np_create_tflush,
  np_create_tversion, np_create_twalk, put_wnames, put_wqids,
}
use npfs.Wire.Put.{buf_put_int32, buf_put_qid}
use npfs.Wire.Layout.{encode, sizes}
use npfs.Wire.Bytes.{qid_bytes}
use npfs.Constants.{maxwelem}

names_length-sizes :
    (names : List Npstr) → length names * 2 + names_length names ≡ sizes (texts names)
unfolding names_length
names_length-sizes [] = omega arith
names_length-sizes (s ∷ ss) = omega (arith, names_length-sizes ss)

qids_length-sizes : (qids : List Npqid) → length qids * 13 ≡ sizes (qid_fields qids)
qids_length-sizes [] = omega arith
qids_length-sizes (q ∷ qs) = omega (arith, qids_length-sizes qs)

put_wnames-Writes :
    (names : List Npstr) (fc : Npfcall)
    → Writes
        (put_wnames names)
        (encode (texts names))
        fc
        (record fc { wnames = fc.wnames ++ names })
unfolding put_wnames
put_wnames-Writes [] fc =
    subst (λ l. Writes pass [] fc (record fc { wnames = l })) (sym (append-nil fc.wnames))
      (Writes-pass fc)
put_wnames-Writes (s ∷ ss) fc = Writes-then (Writes-str _ _ _) (
    subst
      (λ l.
        Writes (put_wnames ss) (encode (texts ss)) (record fc { wnames = fc.wnames ++ (s ∷ []) })
          (record fc { wnames = l }))
      (append_assoc fc.wnames (s ∷ []) ss)
      (put_wnames-Writes ss (record fc { wnames = fc.wnames ++ (s ∷ []) })))

at_last-append :
    (g : Npqid → Npqid) (qs : List Npqid) (q : Npqid)
    → at_last g (qs ++ (q ∷ [])) ≡ qs ++ (g q ∷ [])
unfolding at_last
at_last-append g [] q = refl
at_last-append g (p ∷ []) q = refl
at_last-append g (p ∷ (p' ∷ qs)) q = ap (λ l. p ∷ l) (at_last-append g (p' ∷ qs) q)

le-ltb : (a b : ℕ) → a ≤ b → ltb b a ≡ false
le-ltb a b h = ground arith

at_last-thrice :
    (qs : List Npqid) (q : Npqid)
    → at_last
        (λ p. record p { path = q.path })
        (at_last
          (λ p. record p { version = q.version })
          (at_last (λ p. record p { type = q.type }) (qs ++ (zero_qid ∷ []))))
      ≡ qs ++ (q ∷ [])
at_last-thrice qs q = rw (
  at_last-append (λ p. record p { type = q.type }) qs zero_qid,
  at_last-append (λ p. record p { version = q.version }) qs _,
  at_last-append (λ p. record p { path = q.path }) qs _,
)

put_wqids-Writes :
    (qids : List Npqid) (fc : Npfcall)
    → Writes (put_wqids qids) (encode (qid_fields qids)) fc (record fc { wqids = fc.wqids ++ qids })
unfolding put_wqids
put_wqids-Writes [] fc =
    subst (λ l. Writes pass [] fc (record fc { wqids = l })) (sym (append-nil fc.wqids))
      (Writes-pass fc)
put_wqids-Writes (q ∷ qs) fc = Writes-set _ _ (
    Writes-then
      (subst
        (λ l.
          Writes (buf_put_qid q (λ g fc. record fc { wqids = at_last g fc.wqids })) (qid_bytes q)
            (record fc { wqids = fc.wqids ++ (zero_qid ∷ []) }) (record fc { wqids = l }))
        (at_last-thrice fc.wqids q) (Writes-qid _ _ _))
      (subst
        (λ l.
          Writes (put_wqids qs) (encode (qid_fields qs))
            (record fc { wqids = fc.wqids ++ (q ∷ []) }) (record fc { wqids = l }))
        (append_assoc fc.wqids (q ∷ []) qs)
        (put_wqids-Writes qs (record fc { wqids = fc.wqids ++ (q ∷ []) }))))

module _ (mem : Npfcall) where
  pub np_create_tversion-Makes :
      (dotu : Bool) (msize : ℕ) (version : Npstr)
      → MakesPacket dotu mem (Message.tversion msize version)
  unfolding np_create_tversion
  np_create_tversion-Makes dotu msize version fits small =
      made-Makes mem (Writes-then (Writes-int32 _ _ _) (Writes-last (Writes-str _ _ _)))
        (omega arith) small refl refl refl

  pub np_create_rversion-Makes :
      (dotu : Bool) (msize : ℕ) (version : Npstr)
      → MakesPacket dotu mem (Message.rversion msize version)
  unfolding np_create_rversion
  np_create_rversion-Makes dotu msize version fits small =
      made-Makes mem (Writes-then (Writes-int32 _ _ _) (Writes-last (Writes-str _ _ _)))
        (omega arith) small refl refl refl

  pub np_create_rauth-Makes : (dotu : Bool) (qid : Npqid) → MakesPacket dotu mem (Message.rauth qid)
  unfolding np_create_rauth
  np_create_rauth-Makes dotu qid fits small =
      made-Makes mem (Writes-last (Writes-qid _ _ _)) (omega arith) small refl refl refl

  pub np_create_tattach-Makes :
      (dotu : Bool) (fid : ℕ) (afid : ℕ) (uname : Npstr) (aname : Npstr) (n_uname : ℕ)
      → MakesPacket dotu mem (Message.tattach fid afid uname aname n_uname)
  unfolding np_create_tattach
  np_create_tattach-Makes true fid afid uname aname n_uname fits small =
      made-Makes mem
        (Writes-then (Writes-int32 _ _ _) (
          Writes-then (Writes-int32 _ _ _) (
            Writes-then (Writes-str _ _ _)
              (Writes-then (Writes-str _ _ _) (Writes-last (Writes-int32 _ _ _))))))
        (omega arith) small refl refl refl
  np_create_tattach-Makes false fid afid uname aname n_uname fits small =
      made-Makes mem
        (Writes-then (Writes-int32 _ _ _) (
          Writes-then (Writes-int32 _ _ _)
            (Writes-then (Writes-str _ _ _) (Writes-then (Writes-str _ _ _) (Writes-pass _)))))
        (omega arith) small refl refl refl

  pub np_create_rattach-Makes :
      (dotu : Bool) (qid : Npqid) → MakesPacket dotu mem (Message.rattach qid)
  unfolding np_create_rattach
  np_create_rattach-Makes dotu qid fits small =
      made-Makes mem (Writes-last (Writes-qid _ _ _)) (omega arith) small refl refl refl

  pub np_create_rerror-Makes :
      (dotu : Bool) (ename : Npstr) (ecode : ℕ) → MakesPacket dotu mem (Message.rerror ename ecode)
  unfolding np_create_rerror
  np_create_rerror-Makes true ename ecode fits small =
      made-Makes mem (Writes-then (Writes-str _ _ _) (Writes-last (Writes-int32 _ _ _)))
        (omega arith) small refl refl refl
  np_create_rerror-Makes false ename ecode fits small =
      made-Makes mem (Writes-then (Writes-str _ _ _) (Writes-pass _)) (omega arith) small refl refl
        refl

  pub np_create_tflush-Makes :
      (dotu : Bool) (oldtag : ℕ) → MakesPacket dotu mem (Message.tflush oldtag)
  unfolding np_create_tflush
  np_create_tflush-Makes dotu oldtag fits small =
      made-Makes mem (Writes-last (Writes-int16 _ _ _)) (omega arith) small refl refl refl

  pub np_create_rflush-Makes : (dotu : Bool) → MakesPacket dotu mem Message.rflush
  unfolding np_create_rflush
  np_create_rflush-Makes dotu fits small =
      made-Makes mem (Writes-pass _) (omega arith) small refl refl refl

  pub np_create_tauth-Makes :
      (fid : ℕ) (uname aname : Npstr) (n_uname : ℕ)
      → MakesPacket false mem (Message.tauth fid uname aname n_uname)
  unfolding np_create_tauth ◌⨾◌ buf_put_int32
  np_create_tauth-Makes fid uname aname n_uname fits small =
      made-Makes mem
        (Writes-then (Writes-int32 _ _ _)
          (Writes-then (Writes-str _ _ _) (Writes-then (Writes-str _ _ _) (Writes-pass _))))
        (omega arith) small refl refl refl

  pub np_create_twalk-Makes :
      (dotu : Bool) (fid newfid : ℕ) (names : List Npstr)
      → MakesPacket dotu mem (Message.twalk fid newfid names)
  unfolding np_create_twalk
  np_create_twalk-Makes dotu fid newfid names (_, (_, (few, _))) small =
      rw (le-ltb (length names) maxwelem few) (
        made-Makes mem
          (Writes-then (Writes-int32 _ _ _) (
            Writes-then (Writes-int32 _ _ _)
              (Writes-then (Writes-int16 _ _ _) (put_wnames-Writes names _))))
          (omega (arith, names_length-sizes names)) small refl refl refl)

  pub np_create_rwalk-Makes :
      (dotu : Bool) (qids : List Npqid) → MakesPacket dotu mem (Message.rwalk qids)
  unfolding np_create_rwalk
  np_create_rwalk-Makes dotu qids (few, _) small = rw (le-ltb (length qids) maxwelem few) (
      made-Makes mem (Writes-then (Writes-int16 _ _ _) (put_wqids-Writes qids _))
        (omega (arith, qids_length-sizes qids)) small refl refl refl)
