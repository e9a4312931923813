-- ===== src/Wire/Counts.antt =====
-- libnpfs/np.c: np_alloc_rread and np_set_rread_count, the way a reply to a read is made when fewer
-- bytes come than were asked for.
use npfs.Prelude.{
  ℕ, List, Option, [], ap, arith, length, none, refl, some, take, ◌++◌, ◌+◌, ◌∷◌, ◌≡◌, ◌≤◌, Bool,
  false, leb, sym, true, ◌<◌, ◌∙◌, drop, length-take, take-drop,
}
use npfs.Wire.Deserialize.{parsed, np_deserialize}
use mathlib.Core.List.{append-nil}
use npfs.Wire.Layout.{Field, packet, u32, raw, packet_size}
use npfs.Wire.Create.{
  Packet, overwrite, np_create_common, np_post_check, np_set_tag, set_count, made,
}
use npfs.Wire.Bytes.{le_bytes}
use npfs.Constants.{notag, rread}
use npfs.Wire.Create.Files.{np_set_rread_count, np_alloc_rread}
use npfs.Types.{Npfcall}
use npfs.Wire.Writes.{Writes-data, Writes-int32, Writes-last, Writes-then}
use npfs.Wire.RoundTrip.{delivered, received, np_deserialize-packet}
use npfs.Wire.Made.{headed, puts-fill}
use npfs.Wire.Message.{Message}

-- The reply that is sent when `count` bytes of the space were filled.
unfoldable pub shortened : Option Packet → ℕ → Option Packet
shortened none count = none
shortened (some p) count = np_set_rread_count p count

abbrev read_fields : List ℕ → List Field
read_fields payload = u32 (length payload) ∷ (raw payload ∷ [])

-- The packet with the tag NOTAG.
abbrev shape_of : ℕ → ℕ → List ℕ → List ℕ
shape_of size count tail =
    le_bytes 4 size ++ (le_bytes 1 rread ++ (le_bytes 2 notag ++ (le_bytes 4 count ++ tail)))

recounted :
    (space : List ℕ) (count : ℕ)
    → count ≤ length space
    → overwrite 7
        (le_bytes 4 count)
        (overwrite 0 (le_bytes 4 (11 + count)) (packet rread notag (read_fields space)))
      ≡ packet rread notag (read_fields (take count space)) ++ drop count space
unfolding overwrite packet le_bytes
recounted space count h =
    let tail : List ℕ = (take count space ++ []) ++ drop count space in
    let bytes : space ++ [] ≡ tail =
      append-nil space
      ∙ sym (take-drop count space)
      ∙ ap (λ t. t ++ drop count space) (sym (append-nil (take count space))) in
    let n : length (take count space) ≡ count = length-take count space h in
    ap (shape_of (11 + count) count) bytes
    ∙ ap (λ k. shape_of (11 + count) k tail) (sym n)
    ∙ ap (λ k. shape_of k (length (take count space)) tail) (omega (arith, n))

allocated :
    (mem : Npfcall) (space : List ℕ)
    → packet_size (read_fields space) < 0x8000_0000
    → np_alloc_rread (some mem) space
      ≡ some (record {
        fc = record (headed mem (packet_size (read_fields space)) rread) {
          count = length space;
          bytes = space;
        };
        pkt = packet rread notag (read_fields space);
      })
unfolding np_alloc_rread made np_create_common np_post_check
allocated mem space small = ap np_post_check (
    puts-fill mem rread (4 + length space) _ (read_fields space) _ (omega arith) small
      (Writes-then (Writes-int32 _ _ _) (Writes-last (Writes-data _ _ _))))

tagged :
    (type tag : ℕ) (fs : List Field) (behind : List ℕ)
    → overwrite 5 (le_bytes 2 tag) (packet type notag fs ++ behind) ≡ packet type tag fs ++ behind
unfolding packet overwrite le_bytes
tagged type tag fs behind = refl

le-leb : (a b : ℕ) → a ≤ b → leb a b ≡ true
le-leb a b h = ground arith

-- Where np_alloc_rread made room for some bytes, the reply is shorter than 2^31, and no more bytes
-- were filled than there is room for, the message that np_set_rread_count leaves is read by
-- np_deserialize as a reply with that count and with exactly the bytes that were filled.
pub np_set_rread_count-np_deserialize :
    (mem old : Npfcall) (space : List ℕ) (count tag : ℕ) (dotu : Bool)
    → packet_size (read_fields space) < 0x8000_0000
    → count ≤ length space
    → tag < 65536
    → delivered (shortened (np_alloc_rread (some mem) space) count) tag old dotu
      ≡ some (
          parsed
            (11 + count)
            (record (received old (11 + count) rread tag) {
              count = count;
              bytes = take count space;
            })
            false)
unfolding shortened np_set_rread_count set_count delivered np_set_tag
np_set_rread_count-np_deserialize mem old space count tag dotu small h hg =
    let n : length (take count space) ≡ count = length-take count space h in
    ap (λ r. delivered (shortened r count) tag old dotu) (allocated mem space small)
    ∙ rw (le-leb count (length space) h) (
        ap (λ l. some (np_deserialize old (overwrite 5 (le_bytes 2 tag) l) dotu))
          (recounted space count h)
        ∙ ap (λ l. some (np_deserialize old l dotu))
            (tagged rread tag (read_fields (take count space)) (drop count space))
        ∙ ap (λ d. some d)
            (np_deserialize-packet dotu (Message.rread (take count space)) old tag
              (drop count space) (omega (arith, n), (omega (arith, n), tt)) (omega (arith, n)) hg)
        ∙ ap
            (λ k. some (
              parsed k
                (record (received old k rread tag) {
                  count = length (take count space);
                  bytes = take count space;
                })
                false))
            (omega (arith, n))
        ∙ ap
            (λ k. some (
              parsed (11 + count)
                (record (received old (11 + count) rread tag) {
                  count = k;
                  bytes = take count space;
                })
                false))
            n)
