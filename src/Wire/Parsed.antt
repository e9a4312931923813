-- ===== src/Wire/Parsed.antt =====
-- libnpfs/np.c: a case of the switch of np_deserialize on the fields of its message.
pub mod Session
pub mod Files
pub mod Names
pub mod Attrs
pub mod Dirs
pub mod Every
use npfs.Prelude.{ℕ, All, Bool, List, [], ap, length, some, sym, ◌++◌, ◌<◌, ◌∙◌, ◌≡◌, ◌⨾◌}
use mathlib.Core.List.{append-nil}
use npfs.Wire.Deserialize.{Case, always, cases, switch}
use npfs.Wire.Layout.{Fits, encode}
use npfs.Wire.Reads.{Gets-data, Reads, Gets-run, rbuf, Reads-run, reads}
use npfs.Wire.Message.{Message, fields, type_of}
use npfs.Types.{Npfcall}
use npfs.Wire.Get.{Scan, buf_alloc, into}
use npfs.Wire.Message.Filled.{filled}
use npfs.Wire.Scan.Files.{scan_data}

-- The case consumes these bytes, which are the rest of the packet, and turns the struct x into y.
pub data Scans (c : Case) (bs : List ℕ) (x y : Npfcall) : Type 0 where
  scans : ((cut : Bool) → c (x, rbuf bs cut) ≡ some (y, rbuf [] cut)) → Scans c bs x y

pub Scans-run :
    {c : Case} {bs : List ℕ} {x y : Npfcall}
    → Scans c bs x y
    → (cut : Bool) → c (x, rbuf bs cut) ≡ some (y, rbuf [] cut)
Scans-run (scans h) = h

abbrev pub ScansMessage : Bool → Message → Type 0
ScansMessage dotu m =
    All Fits (fields dotu m)
    → (fc : Npfcall)
    → Scans (switch (type_of m) (cases dotu)) (encode (fields dotu m)) fc (filled dotu m fc)

pub Reads-whole :
    {f : Scan Npfcall} {bs : List ℕ} {x y : Npfcall}
    → Reads f bs x y
    → (cut : Bool) → f (x, rbuf bs cut) ≡ (y, rbuf [] cut)
Reads-whole {f} {bs} {x} r cut =
    ap (λ b. f (x, rbuf b cut)) (sym (append-nil bs)) ∙ Reads-run r [] cut

pub Scans-always :
    {f : Scan Npfcall} {bs : List ℕ} {x y : Npfcall} → Reads f bs x y → Scans (always f) bs x y
unfolding always
Scans-always r = scans (λ cut. ap (λ z. some z) (Reads-whole r cut))

-- What the last statement does at the end of the packet.
pub Scans-end :
    {f : Scan Npfcall} {bs : List ℕ} {x y z : Npfcall} (g : Scan Npfcall)
    → Reads f bs x y
    → ((cut : Bool) → g (y, rbuf [] cut) ≡ (z, rbuf [] cut))
    → Scans (always (f ⨾ g)) bs x z
unfolding always ◌⨾◌
Scans-end g r last = scans (λ cut. ap (λ w. some w) (ap g (Reads-whole r cut) ∙ last cut))

pub Reads-data :
    (x : Npfcall) (payload : List ℕ)
    → x.count ≡ length payload
    → length payload < 0x8000_0000
    → Reads scan_data payload x (record x { bytes = payload })
unfolding scan_data into
Reads-data x payload e small = reads (λ rest cut.
    ap
      (λ n. (
        record x { bytes = (buf_alloc n (rbuf (payload ++ rest) cut)).0 },
        (buf_alloc n (rbuf (payload ++ rest) cut)).1,
      ))
      e
    ∙ ap (λ r. (record x { bytes = r.0 }, r.1)) (Gets-run (Gets-data payload small) rest cut))
