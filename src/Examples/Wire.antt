-- ===== src/Examples/Wire.antt =====
-- Runs of libnpfs/np.c on small messages.
use npfs.Prelude.{
  ℕ, All, List, [], arith, false, none, refl, some, true, ◌++◌, ◌+◌, ◌<◌, ◌∷◌, ◌≡◌, ◌≤◌, ◌⨾◌,
}
use npfs.Wire.Layout.{Fits, encode, packet, qid13, u64, u8, text}
use npfs.Wire.Made.{Makes}
use npfs.Wire.Message.{Message, fields, stat_fields}
use npfs.Wire.Stat.{
  Npwstat, buf_put_wstat, np_deserialize_stat, np_serialize_dirent, np_serialize_stat,
  put_dotu_stat, size_wstat, written,
}
use npfs.Wire.Get.{
  advance, assign, buf_alloc, buf_get_int16, buf_get_int32, buf_get_int8, buf_get_str, get_failed,
  got_bytes, got_word, into, split_at?,
}
use npfs.Wire.Deserialize.{
  always, cases, deserialize_from, deserialize_sized, finish, np_deserialize, scan_header,
  scan_switch, scan_window, switch, parsed,
}
use npfs.Types.{blank, zero_attrs, zero_stat}
use npfs.Wire.Put.{
  buf_init, buf_put_int16, buf_put_int32, buf_put_int64, buf_put_int8, buf_put_qid, buf_put_str,
  put_bytes, put_failed, put_fits, set_fields,
}
use npfs.Wire.Message.Create.{create}
use npfs.Wire.Made.Every.{create-Makes}
use npfs.Wire.RoundTrip.{create-np_deserialize, delivered, np_deserialize-packet, received}
use npfs.Wire.Message.Filled.{filled, filled_stat}
use npfs.Wire.Bytes.{le_bytes, le_word}
use npfs.Constants.{notag}
use npfs.Wire.Create.Files.{np_alloc_rread}
use npfs.Wire.Create.Attrs.{np_create_tsetattr}
use npfs.Wire.Stats.{
  np_create_tsetattr-none, np_serialize_dirent-encode, np_serialize_stat-np_deserialize_stat,
}
use npfs.Wire.Create.Session.{np_create_twalk}
use npfs.Wire.Counts.{np_set_rread_count-np_deserialize, shortened}
use npfs.Wire.Scan.Session.{scan_tversion}

-- A walk of two names, "a" and "bc".
abbrev walk : Message
walk = Message.twalk 1 2 ((0x61 ∷ []) ∷ ((0x62 ∷ (0x63 ∷ [])) ∷ []))

abbrev walk_packet : List ℕ
walk_packet =
    24
    ∷ (0
        ∷ (0
            ∷ (0
                ∷ (110
                    ∷ (7
                        ∷ (0
                            ∷ (1
                                ∷ (0
                                    ∷ (0
                                        ∷ (0
                                            ∷ (2
                                                ∷ (0
                                                    ∷ (0
                                                        ∷ (0
                                                            ∷ (2
                                                            ∷ (0
                                                            ∷ (1
                                                            ∷ (0
                                                            ∷ (0x61
                                                            ∷ (2
                                                            ∷ (0
                                                            ∷ (0x62
                                                            ∷ (0x63 ∷ [])))))))))))))))))))))))

walk-Fits : All Fits (fields true walk)
walk-Fits = (omega arith, (omega arith, (omega arith, (omega arith, (omega arith, tt)))))

walk-packet : packet 110 7 (fields true walk) ≡ walk_packet
unfolding packet le_bytes
walk-packet = refl

-- A message that is cut where a field begins: a version message with its msize and no string.
cut_version :
    np_deserialize
      (blank 0)
      (11 ∷ (0 ∷ (0 ∷ (0 ∷ (100 ∷ (0xff ∷ (0xff ∷ (0 ∷ (0x20 ∷ (0 ∷ (0 ∷ [])))))))))))
      false
    ≡ parsed 11 (record (received (blank 0) 11 100 0xffff) { msize = 8192 }) false
unfolding np_deserialize deserialize_from deserialize_sized scan_window split_at? le_word finish
    scan_switch scan_header switch cases always scan_tversion into assign buf_get_int8 buf_get_int16
    buf_get_int32 buf_get_str buf_alloc got_word got_bytes advance get_failed ◌⨾◌
cut_version = refl

create-np_deserialize_example :
    delivered (create true (some (blank 0)) walk) 7 (blank 0) true
    ≡ some (
        parsed 24
          (record (received (blank 0) 24 110 7) {
            fid = 1;
            newfid = 2;
            nwname = 2;
            wnames = (0x61 ∷ []) ∷ ((0x62 ∷ (0x63 ∷ [])) ∷ []);
          })
          false)
create-np_deserialize_example =
    create-np_deserialize true walk (blank 0) (blank 0) 7 refl walk-Fits (omega arith) (omega arith)

np_deserialize-packet_example :
    np_deserialize (blank 0) (packet 110 7 (fields true walk) ++ (0xff ∷ [])) true
    ≡ parsed 24 (filled true walk (received (blank 0) 24 110 7)) false
np_deserialize-packet_example =
    np_deserialize-packet true walk (blank 0) 7 (0xff ∷ []) walk-Fits (omega arith) (omega arith)

create-Makes_example :
    Makes
      (np_create_twalk (some (blank 0)) 1 2 ((0x61 ∷ []) ∷ ((0x62 ∷ (0x63 ∷ [])) ∷ [])))
      110
      notag
      (fields true walk)
create-Makes_example = create-Makes true (blank 0) walk refl walk-Fits (omega arith)

np_set_rread_count-np_deserialize_example :
    delivered
      (shortened (np_alloc_rread (some (blank 0)) (5 ∷ (6 ∷ (7 ∷ (8 ∷ []))))) 2)
      3
      (blank 0)
      false
    ≡ some
        (parsed 13 (record (received (blank 0) 13 117 3) { count = 2; bytes = 5 ∷ (6 ∷ []) }) false)
np_set_rread_count-np_deserialize_example =
    np_set_rread_count-np_deserialize (blank 0) (blank 0) (5 ∷ (6 ∷ (7 ∷ (8 ∷ [])))) 2 3 false
      (omega arith) (omega arith) (omega arith)

abbrev a_file : Npwstat
a_file = record {
  type = 0;
  dev = 0;
  qid = record { type = 0; version = 1; path = 42 };
  mode = 0x1a4;
  atime = 7;
  mtime = 8;
  length = 9;
  name = 0x61 ∷ [];
  uid = 0x75 ∷ [];
  gid = 0x67 ∷ [];
  muid = [];
  extension = [];
  n_uid = 0;
  n_gid = 0;
  n_muid = 0;
}

a_file-Fits : All Fits (stat_fields a_file false)
unfolding size_wstat
a_file-Fits = (
  omega arith,
  (
    omega arith,
    (
      omega arith,
      (
        (omega arith, (omega arith, omega arith)),
        (
          omega arith,
          (
            omega arith,
            (
              omega arith,
              (omega arith, (omega arith, (omega arith, (omega arith, (omega arith, tt))))),
            ),
          ),
        ),
      ),
    ),
  ),
)

a_file-room : size_wstat a_file false + 2 ≤ 100
unfolding size_wstat
a_file-room = omega arith

np_serialize_stat-np_deserialize_stat_example :
    (np_serialize_stat a_file 100 false
      ≡ (size_wstat a_file false + 2, encode (stat_fields a_file false)))
    × (np_deserialize_stat zero_stat ((np_serialize_stat a_file 100 false).1 ++ (1 ∷ [])) false
        ≡ (size_wstat a_file false + 2, filled_stat a_file false zero_stat))
np_serialize_stat-np_deserialize_stat_example =
    np_serialize_stat-np_deserialize_stat a_file false 100 zero_stat (1 ∷ []) a_file-Fits
      a_file-room (omega arith)

-- Where the buffer is two bytes short the entry loses its last string.
short_entry : (np_serialize_stat a_file (size_wstat a_file false) false).0 ≡ size_wstat a_file false
unfolding size_wstat np_serialize_stat written buf_put_wstat put_dotu_stat buf_init put_bytes
    put_fits put_failed buf_put_int8 buf_put_int16 buf_put_int32 buf_put_int64 buf_put_str
    buf_put_qid set_fields le_bytes ◌⨾◌
short_entry = refl

np_serialize_dirent-encode_example :
    (24 < 24 + 1 → np_serialize_dirent a_file.qid 5 4 (0x61 ∷ []) 24 ≡ (0, []))
    × (24 + 1 ≤ 24
        → np_serialize_dirent a_file.qid 5 4 (0x61 ∷ []) 24
          ≡ (25, encode (qid13 a_file.qid ∷ (u64 5 ∷ (u8 4 ∷ (text (0x61 ∷ []) ∷ []))))))
np_serialize_dirent-encode_example =
    np_serialize_dirent-encode a_file.qid 5 4 (0x61 ∷ []) 24 (omega arith)

np_create_tsetattr-none_example :
    np_create_tsetattr (some (blank 0)) 1 8 (record zero_attrs { size = 100 }) ≡ none
np_create_tsetattr-none_example =
    np_create_tsetattr-none (some (blank 0)) 1 8 (record zero_attrs { size = 100 })
