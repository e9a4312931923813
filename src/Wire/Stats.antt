-- ===== src/Wire/Stats.antt =====
-- libnpfs/np.c: np_serialize_stat, np_deserialize_stat and np_serialize_dirent, which a directory's
-- contents are made of, and two functions whose size is not the one of their fields.
use npfs.Prelude.{
  ℕ, All, Bool, List, Option, [], ap, arith, false, length, length-append, ltb, none, refl, some,
  true, ◌++◌, ◌+◌, ◌<◌, ◌∙◌, ◌∷◌, ◌≡◌, ◌≤◌, ◌⨾◌,
}
use npfs.Wire.Layout.{Field, Fits, encode, length-encode, sizes, qid13, u64, u8, text}
use npfs.Wire.Reads.{
  Gets-int16, Gets-int32, Gets-int64, Gets-str, Reads, Reads-assign, Reads-into, Reads-last,
  Reads-qid, Reads-then, Reads-run,
}
use npfs.Types.{Npattrs, Npfcall, Npqid, Npstat, Npstr, zero_stat}
use npfs.Wire.Stat.{
  Npwstat, buf_get_stat, buf_put_dirent, buf_put_wstat, consumed, get_dotu_stat,
  np_deserialize_stat, np_serialize_dirent, np_serialize_stat, put_dotu_stat, size_wstat, written,
}
use npfs.Wire.Writes.{
  Writes, Writes-int16, Writes-int32, Writes-int64, Writes-int8, Writes-last, Writes-qid,
  Writes-set_fields, Writes-str, Writes-then, wbuf, Writes-run,
}
use npfs.Wire.Put.{
  buf_init, buf_put_int16, buf_put_int32, buf_put_int64, buf_put_int8, put_bytes, put_failed,
  put_fits, set_fields,
}
use npfs.Wire.Message.Filled.{filled_stat}
use npfs.Wire.Bytes.{le_bytes}
use npfs.Wire.Create.{np_create_common, np_post_check, put_header, made}
use npfs.Wire.Create.Attrs.{np_create_tsetattr}
use npfs.Wire.Message.{stat_fields}

stat-Writes :
    (w : Npwstat) (dotu : Bool) (s : Npstat)
    → Writes
        (buf_put_wstat w (λ g. g) (size_wstat w dotu) dotu)
        (encode (stat_fields w dotu))
        s
        (filled_stat w dotu s)
unfolding buf_put_wstat put_dotu_stat
stat-Writes w true s = Writes-then (Writes-int16 _ _ _) (
    Writes-then (Writes-int16 _ _ _) (
      Writes-then (Writes-int32 _ _ _) (
        Writes-then (Writes-qid _ _ _) (
          Writes-then (Writes-int32 _ _ _) (
            Writes-then (Writes-int32 _ _ _) (
              Writes-then (Writes-int32 _ _ _) (
                Writes-then (Writes-int64 _ _ _) (
                  Writes-then (Writes-str _ _ _) (
                    Writes-then (Writes-str _ _ _) (
                      Writes-then (Writes-str _ _ _) (
                        Writes-then (Writes-str _ _ _) (
                          Writes-then (Writes-str _ _ _) (
                            Writes-then (Writes-int32 _ _ _) (
                              Writes-then (Writes-int32 _ _ _)
                                (Writes-last (Writes-int32 _ _ _))))))))))))))))
stat-Writes w false s = Writes-then (Writes-int16 _ _ _) (
    Writes-then (Writes-int16 _ _ _) (
      Writes-then (Writes-int32 _ _ _) (
        Writes-then (Writes-qid _ _ _) (
          Writes-then (Writes-int32 _ _ _) (
            Writes-then (Writes-int32 _ _ _) (
              Writes-then (Writes-int32 _ _ _) (
                Writes-then (Writes-int64 _ _ _) (
                  Writes-then (Writes-str _ _ _) (
                    Writes-then (Writes-str _ _ _) (
                      Writes-then (Writes-str _ _ _)
                        (Writes-then (Writes-str _ _ _) (Writes-set_fields _ _))))))))))))

stat-Reads :
    (w : Npwstat) (dotu : Bool) (s : Npstat)
    → All Fits (stat_fields w dotu)
    → Reads (buf_get_stat (λ g. g) dotu) (encode (stat_fields w dotu)) s (filled_stat w dotu s)
unfolding buf_get_stat get_dotu_stat
stat-Reads w true s
      (
        h1,
        (
          h2,
          (
            h3,
            (h4, (h5, (h6, (h7, (h8, (h9, (h10, (h11, (h12, (h13, (h14, (h15, (h16, _))))))))))))),
          ),
        ),
      ) =
    Reads-then (Reads-into _ _ (Gets-int16 _ h1)) (
      Reads-then (Reads-into _ _ (Gets-int16 _ h2)) (
        Reads-then (Reads-into _ _ (Gets-int32 _ h3)) (
          Reads-then (Reads-qid _ _ _ h4.0 h4.1.0 h4.1.1) (
            Reads-then (Reads-into _ _ (Gets-int32 _ h5)) (
              Reads-then (Reads-into _ _ (Gets-int32 _ h6)) (
                Reads-then (Reads-into _ _ (Gets-int32 _ h7)) (
                  Reads-then (Reads-into _ _ (Gets-int64 _ h8)) (
                    Reads-then (Reads-into _ _ (Gets-str _ h9)) (
                      Reads-then (Reads-into _ _ (Gets-str _ h10)) (
                        Reads-then (Reads-into _ _ (Gets-str _ h11)) (
                          Reads-then (Reads-into _ _ (Gets-str _ h12)) (
                            Reads-then (Reads-into _ _ (Gets-str _ h13)) (
                              Reads-then (Reads-into _ _ (Gets-int32 _ h14)) (
                                Reads-then (Reads-into _ _ (Gets-int32 _ h15))
                                  (Reads-last (Reads-into _ _ (Gets-int32 _ h16)))))))))))))))))
stat-Reads w false s (h1, (h2, (h3, (h4, (h5, (h6, (h7, (h8, (h9, (h10, (h11, (h12, _)))))))))))) =
    Reads-then (Reads-into _ _ (Gets-int16 _ h1)) (
      Reads-then (Reads-into _ _ (Gets-int16 _ h2)) (
        Reads-then (Reads-into _ _ (Gets-int32 _ h3)) (
          Reads-then (Reads-qid _ _ _ h4.0 h4.1.0 h4.1.1) (
            Reads-then (Reads-into _ _ (Gets-int32 _ h5)) (
              Reads-then (Reads-into _ _ (Gets-int32 _ h6)) (
                Reads-then (Reads-into _ _ (Gets-int32 _ h7)) (
                  Reads-then (Reads-into _ _ (Gets-int64 _ h8)) (
                    Reads-then (Reads-into _ _ (Gets-str _ h9)) (
                      Reads-then (Reads-into _ _ (Gets-str _ h10)) (
                        Reads-then (Reads-into _ _ (Gets-str _ h11)) (
                          Reads-then (Reads-into _ _ (Gets-str _ h12)) (Reads-assign _ _))))))))))))

sizes-stat_fields : (w : Npwstat) (dotu : Bool) → sizes (stat_fields w dotu) ≡ size_wstat w dotu + 2
unfolding size_wstat
sizes-stat_fields w true = omega arith
sizes-stat_fields w false = omega arith

lt-false : (a b : ℕ) → a ≤ b → ltb b a ≡ false
lt-false a b h = ground arith

lt-true : (a b : ℕ) → a < b → ltb a b ≡ true
lt-true a b h = ground arith

room : (n : ℕ) → n < 0x8000_0000 → buf_init n ≡ wbuf [] n
unfolding buf_init
room n h = ground arith

serialized :
    (w : Npwstat) (dotu : Bool) (buflen : ℕ)
    → size_wstat w dotu + 2 ≤ buflen
    → buflen < 0x8000_0000
    → np_serialize_stat w buflen dotu ≡ (size_wstat w dotu + 2, encode (stat_fields w dotu))
unfolding np_serialize_stat written
serialized w dotu buflen le small =
    let bs : List ℕ = encode (stat_fields w dotu) in
    let n : length bs ≡ size_wstat w dotu + 2 =
      length-encode (stat_fields w dotu) ∙ sizes-stat_fields w dotu in
    rw (lt-false (size_wstat w dotu) buflen (omega arith), room buflen small)
      (ap written (Writes-run (stat-Writes w dotu zero_stat) [] buflen (omega (arith, n)))
        ∙ ap (λ k. (k, bs)) n)

deserialized :
    (w : Npwstat) (dotu : Bool) (old : Npstat) (behind : List ℕ)
    → All Fits (stat_fields w dotu)
    → np_deserialize_stat old (encode (stat_fields w dotu) ++ behind) dotu
      ≡ (size_wstat w dotu + 2, filled_stat w dotu old)
unfolding np_deserialize_stat consumed
deserialized w dotu old behind fits =
    let bs : List ℕ = encode (stat_fields w dotu) in
    let n : length bs ≡ size_wstat w dotu + 2 =
      length-encode (stat_fields w dotu) ∙ sizes-stat_fields w dotu in
    ap (consumed (length (bs ++ behind))) (Reads-run (stat-Reads w dotu old fits) behind false)
    ∙ ap (λ k. (k, filled_stat w dotu old)) (omega (arith, n, length-append bs behind))

-- Where the buffer, shorter than 2^31, has room for the entry with its size field,
-- np_serialize_stat writes the fields of the structure in the layout of the protocol and returns
-- their length; where the fields hold its values, np_deserialize_stat reads the same values back from
-- those bytes, whatever follows them, and returns the same length.
pub np_serialize_stat-np_deserialize_stat :
    (w : Npwstat) (dotu : Bool) (buflen : ℕ) (old : Npstat) (behind : List ℕ)
    → All Fits (stat_fields w dotu)
    → size_wstat w dotu + 2 ≤ buflen
    → buflen < 0x8000_0000
    → (np_serialize_stat w buflen dotu ≡ (size_wstat w dotu + 2, encode (stat_fields w dotu)))
      × (np_deserialize_stat old ((np_serialize_stat w buflen dotu).1 ++ behind) dotu
          ≡ (size_wstat w dotu + 2, filled_stat w dotu old))
np_serialize_stat-np_deserialize_stat w dotu buflen old behind fits le small =
    let bs : List ℕ = encode (stat_fields w dotu) in
    let e : np_serialize_stat w buflen dotu ≡ (size_wstat w dotu + 2, bs) =
      serialized w dotu buflen le small in
    (
      e,
      ap (λ r. np_deserialize_stat old (r.1 ++ behind) dotu) e
          ∙ deserialized w dotu old behind fits,
    )

dirent-Writes :
    (q : Npqid) (offset type : ℕ) (name : Npstr)
    → Writes
        (buf_put_dirent q offset type name)
        (encode (qid13 q ∷ (u64 offset ∷ (u8 type ∷ (text name ∷ [])))))
        tt
        tt
unfolding buf_put_dirent
dirent-Writes q offset type name = Writes-then (Writes-qid _ _ _) (
    Writes-then (Writes-int64 _ _ _)
      (Writes-then (Writes-int8 _ _ _) (Writes-last (Writes-str _ _ _))))

-- np_serialize_dirent, for a buffer shorter than 2^31, returns 0 and writes nothing where the entry
-- does not fit; where it fits, it writes the qid, the offset, the type and the name in the layout of
-- the protocol, which are as many bytes as it says.
pub np_serialize_dirent-encode :
    (q : Npqid) (offset type : ℕ) (name : Npstr) (buflen : ℕ)
    → buflen < 0x8000_0000
    → (buflen < 24 + length name → np_serialize_dirent q offset type name buflen ≡ (0, []))
      × (24 + length name ≤ buflen
          → np_serialize_dirent q offset type name buflen
            ≡ (24 + length name, encode (qid13 q ∷ (u64 offset ∷ (u8 type ∷ (text name ∷ []))))))
unfolding np_serialize_dirent written
np_serialize_dirent-encode q offset type name buflen small =
    let fs : List Field = qid13 q ∷ (u64 offset ∷ (u8 type ∷ (text name ∷ []))) in
    (
      λ lt. rw (lt-true buflen (24 + length name) lt),
      λ le.
          rw (lt-false (24 + length name) buflen le, room buflen small)
            (ap written (
                Writes-run (dirent-Writes q offset type name) [] buflen
                  (omega (arith, length-encode fs)))
              ∙ ap (λ k. (k, encode fs)) (omega (arith, length-encode fs))),
    )

-- The size that np_create_tsetattr reserves is 12 bytes short of its fields, and it returns NULL
-- for every mask and all attributes, with or without memory.
pub np_create_tsetattr-none :
    (mem : Option Npfcall) (fid mask : ℕ) (attrs : Npattrs)
    → np_create_tsetattr mem fid mask attrs ≡ none
unfolding np_create_tsetattr np_create_common made put_header buf_init put_bytes put_fits put_failed
    buf_put_int8 buf_put_int16 buf_put_int32 buf_put_int64 set_fields np_post_check le_bytes ◌⨾◌
np_create_tsetattr-none none fid mask attrs = refl
np_create_tsetattr-none (some mem) fid mask attrs = refl
