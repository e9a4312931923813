-- ===== src/Wire/Parsed/Session.antt =====
-- libnpfs/np.c: np_deserialize on the fields of the messages of a session.
use npfs.Prelude.{
  ℕ, All, Bool, List, [], ap, arith, false, length, ltb, refl, some, sym, true, ◌∙◌, ◌∷◌, ◌≡◌, ◌≤◌,
  ◌⨾◌,
}
use npfs.Wire.Layout.{Fits, encode, qid13}
use npfs.Wire.Reads.{
  Gets, Gets-int16, Gets-int32, Gets-str, Gets-two, Reads-assign, Reads-into, Reads-last,
  Reads-pass, Reads-qid, Reads-then, rbuf, Reads-run, gets,
}
use npfs.Wire.Message.{Message, qid_fields, texts}
use npfs.Types.{Npfcall, Npqid, Npstr, zero_qid}
use npfs.Wire.Parsed.{Scans-always, ScansMessage, Reads-whole, scans}
use npfs.Wire.Get.{advance, buf_get_int32, buf_get_qid, get_failed, got_word, into, split_at?}
use npfs.Wire.Bytes.{append_three, le_bytes, qid_bytes}
use npfs.Wire.Deserialize.{cases, switch}
use npfs.Wire.Scan.Session.{
  get_names, get_qids, scan_rattach, scan_rauth, scan_rerror, scan_rversion, scan_rwalk,
  scan_tattach, scan_tauth, scan_tflush, scan_tversion, scan_twalk, scan_wnames, scan_wqids,
}
use npfs.Constants.{maxwelem}

pub Gets-names :
    (names : List Npstr)
    → All Fits (texts names)
    → Gets (get_names (length names)) (encode (texts names)) names
unfolding get_names
Gets-names [] fits = gets (λ rest cut. refl)
Gets-names (s ∷ ss) (h, fits) = Gets-two (Gets-str s h) (Gets-names ss fits)

get_qid-Gets :
    (q : Npqid) → Fits (qid13 q) → Gets (λ b. buf_get_qid (λ g. g) (zero_qid, b)) (qid_bytes q) q
get_qid-Gets q h =
    gets (λ rest cut. Reads-run (Reads-qid (λ g. g) q zero_qid h.0 h.1.0 h.1.1) rest cut)

pub Gets-qids :
    (qids : List Npqid)
    → All Fits (qid_fields qids)
    → Gets (get_qids (length qids)) (encode (qid_fields qids)) qids
unfolding get_qids
Gets-qids [] fits = gets (λ rest cut. refl)
Gets-qids (q ∷ qs) (h, fits) = Gets-two (get_qid-Gets q h) (Gets-qids qs fits)

le-ltb : (a b : ℕ) → a ≤ b → ltb b a ≡ false
le-ltb a b h = ground arith

int32_at_end :
    (set : ℕ → Npfcall → Npfcall) (x : Npfcall) (cut : Bool)
    → into buf_get_int32 set (x, rbuf [] cut) ≡ (set 0 x, rbuf [] cut)
unfolding into buf_get_int32 got_word advance split_at? get_failed
int32_at_end set x cut = refl

names_at_end :
    (names : List Npstr)
    → length names ≤ maxwelem
    → All Fits (texts names)
    → (x : Npfcall) (cut : Bool)
    → scan_wnames (record x { nwname = length names }, rbuf (encode (texts names)) cut)
      ≡ some (record x { nwname = length names; wnames = names }, rbuf [] cut)
unfolding scan_wnames
names_at_end names few fits x cut =
    rw (le-ltb (length names) maxwelem few)
      (ap (λ z. some z) (Reads-whole (Reads-into _ _ (Gets-names names fits)) cut))

qids_at_end :
    (qids : List Npqid)
    → length qids ≤ maxwelem
    → All Fits (qid_fields qids)
    → (x : Npfcall) (cut : Bool)
    → scan_wqids (record x { nwqid = length qids }, rbuf (encode (qid_fields qids)) cut)
      ≡ some (record x { nwqid = length qids; wqids = qids }, rbuf [] cut)
unfolding scan_wqids
qids_at_end qids few fits x cut =
    rw (le-ltb (length qids) maxwelem few)
      (ap (λ z. some z) (Reads-whole (Reads-into _ _ (Gets-qids qids fits)) cut))

pub scan_tversion-Scans :
    (dotu : Bool) (msize : ℕ) (version : Npstr) → ScansMessage dotu (Message.tversion msize version)
unfolding cases switch scan_tversion
scan_tversion-Scans dotu msize version (h1, (h2, _)) fc =
    Scans-always
      (Reads-then (Reads-into _ _ (Gets-int32 _ h1)) (Reads-last (Reads-into _ _ (Gets-str _ h2))))

pub scan_rversion-Scans :
    (dotu : Bool) (msize : ℕ) (version : Npstr) → ScansMessage dotu (Message.rversion msize version)
unfolding cases switch scan_rversion
scan_rversion-Scans dotu msize version (h1, (h2, _)) fc =
    Scans-always
      (Reads-then (Reads-into _ _ (Gets-int32 _ h1)) (Reads-last (Reads-into _ _ (Gets-str _ h2))))

pub scan_rauth-Scans : (dotu : Bool) (qid : Npqid) → ScansMessage dotu (Message.rauth qid)
unfolding cases switch scan_rauth
scan_rauth-Scans dotu qid (h1, _) fc =
    Scans-always (Reads-last (Reads-qid _ _ _ h1.0 h1.1.0 h1.1.1))

pub scan_tattach-Scans :
    (dotu : Bool) (fid : ℕ) (afid : ℕ) (uname : Npstr) (aname : Npstr) (n_uname : ℕ)
    → ScansMessage dotu (Message.tattach fid afid uname aname n_uname)
unfolding cases switch scan_tattach
scan_tattach-Scans true fid afid uname aname n_uname (h1, (h2, (h3, (h4, (h5, _))))) fc =
    Scans-always (
      Reads-then (Reads-into _ _ (Gets-int32 _ h1)) (
        Reads-then (Reads-into _ _ (Gets-int32 _ h2)) (
          Reads-then (Reads-into _ _ (Gets-str _ h3)) (
            Reads-then (Reads-into _ _ (Gets-str _ h4))
              (Reads-last (Reads-into _ _ (Gets-int32 _ h5)))))))
scan_tattach-Scans false fid afid uname aname n_uname (h1, (h2, (h3, (h4, _)))) fc = Scans-always (
    Reads-then (Reads-into _ _ (Gets-int32 _ h1)) (
      Reads-then (Reads-into _ _ (Gets-int32 _ h2)) (
        Reads-then (Reads-into _ _ (Gets-str _ h3))
          (Reads-then (Reads-into _ _ (Gets-str _ h4)) (Reads-assign _ _)))))

pub scan_rattach-Scans : (dotu : Bool) (qid : Npqid) → ScansMessage dotu (Message.rattach qid)
unfolding cases switch scan_rattach
scan_rattach-Scans dotu qid (h1, _) fc =
    Scans-always (Reads-last (Reads-qid _ _ _ h1.0 h1.1.0 h1.1.1))

pub scan_rerror-Scans :
    (dotu : Bool) (ename : Npstr) (ecode : ℕ) → ScansMessage dotu (Message.rerror ename ecode)
unfolding cases switch scan_rerror
scan_rerror-Scans true ename ecode (h1, (h2, _)) fc =
    Scans-always
      (Reads-then (Reads-into _ _ (Gets-str _ h1)) (Reads-last (Reads-into _ _ (Gets-int32 _ h2))))
scan_rerror-Scans false ename ecode (h1, _) fc =
    Scans-always (Reads-then (Reads-into _ _ (Gets-str _ h1)) (Reads-assign _ _))

pub scan_tflush-Scans : (dotu : Bool) (oldtag : ℕ) → ScansMessage dotu (Message.tflush oldtag)
unfolding cases switch scan_tflush
scan_tflush-Scans dotu oldtag (h1, _) fc =
    Scans-always (Reads-last (Reads-into _ _ (Gets-int16 _ h1)))

pub scan_rflush-Scans : (dotu : Bool) → ScansMessage dotu Message.rflush
unfolding cases switch
scan_rflush-Scans dotu _ fc = Scans-always (Reads-pass _)

pub scan_tauth-Scans :
    (dotu : Bool) (fid : ℕ) (uname aname : Npstr) (n_uname : ℕ)
    → ScansMessage dotu (Message.tauth fid uname aname n_uname)
unfolding cases switch scan_tauth ◌⨾◌
scan_tauth-Scans true fid uname aname n_uname (h1, (h2, (h3, (h4, _)))) fc = Scans-always (
    Reads-then (Reads-into _ _ (Gets-int32 _ h1)) (
      Reads-then (Reads-into _ _ (Gets-str _ h2)) (
        Reads-then (Reads-into _ _ (Gets-str _ h3))
          (Reads-last (Reads-into _ _ (Gets-int32 _ h4))))))
scan_tauth-Scans false fid uname aname n_uname (h1, (h2, (h3, _))) fc = Scans-always (
    Reads-then (Reads-into _ _ (Gets-int32 _ h1)) (
      Reads-then (Reads-into _ _ (Gets-str _ h2))
        (Reads-then (Reads-into _ _ (Gets-str _ h3)) (Reads-assign _ _))))

pub scan_twalk-Scans :
    (dotu : Bool) (fid newfid : ℕ) (names : List Npstr)
    → ScansMessage dotu (Message.twalk fid newfid names)
unfolding cases switch scan_twalk
scan_twalk-Scans dotu fid newfid names (h1, (h2, (few, fits))) fc = scans (λ cut.
    ap (λ l. scan_twalk (fc, rbuf l cut))
      (sym (
        append_three (le_bytes 4 fid) (le_bytes 4 newfid) (le_bytes 2 (length names))
          (encode (texts names))))
    ∙ ap scan_wnames (
        Reads-run
          (Reads-then (Reads-into _ _ (Gets-int32 _ h1)) (
            Reads-then (Reads-into _ _ (Gets-int32 _ h2))
              (Reads-into _ _ (Gets-int16 _ (omega arith)))))
          (encode (texts names)) cut)
    ∙ names_at_end names few fits (record fc { fid = fid; newfid = newfid }) cut)

pub scan_rwalk-Scans : (dotu : Bool) (qids : List Npqid) → ScansMessage dotu (Message.rwalk qids)
unfolding cases switch scan_rwalk
scan_rwalk-Scans dotu qids (few, fits) fc = scans (λ cut.
    ap scan_wqids
      (Reads-run (Reads-into _ _ (Gets-int16 _ (omega arith))) (encode (qid_fields qids)) cut)
    ∙ qids_at_end qids few fits fc cut)
