-- ===== src/Guards/Reads.antt =====
-- libnpfs/fcall.c: np_read: the one call that it makes, and when.
use npfs.Prelude.{
  ◌≡◌, ◌≢◌, sym, ◌⊎◌, true, false, Option, none, some, List, [], ◌∷◌, has_bits, bit_and, Bool-cases,
}
use npfs.Types.{Npfcall}
use npfs.Constants.{qtauth, qtdir, ftxattr, onotopen, owrite}
use npfs.State.{Ptr, Npfid, Event, Env, St}
use npfs.State.Returns.{Returns}
use npfs.Fcall.Files.{is_too_large}
use npfs.Safety.Contract.{Contract}
use npfs.Answers.Ends.{Ends}

-- The calls that a read may make, by the kind of the fid. A plain fid is open for reading, and a
-- directory is read on from where the last read ended.
pub data MayRead (env : Env) (tc : Npfcall) (p : Ptr) (f : Npfid) : Event → Type 0 where
  on_auth :
      has_bits f.type qtauth ≡ true
      → env.has_auth ≡ true
      → MayRead env tc p f (Event.auth_read p tc.offset tc.count)
  on_xattr :
      has_bits f.type qtauth ≡ false
      → has_bits f.type ftxattr ≡ true
      → MayRead env tc p f (Event.xattrread p tc.offset tc.count)
  on_plain :
      has_bits f.type qtauth ≡ false
      → has_bits f.type ftxattr ≡ false
      → f.omode ≢ onotopen
      → bit_and f.omode 3 ≢ owrite
      → (has_bits f.type qtdir ≡ true → tc.offset ≡ f.diroffset)
      → MayRead env tc p f (Event.read p tc.offset tc.count)

-- What a read does: it ends with no reply and no call, or it makes one call, on a fid of the message's
-- number that may be read, with a count that passed the test.
abbrev pub ReadGuarded : Env → Npfcall → St → Option Npfcall → St → Type 0
ReadGuarded env tc s rc t =
    ((rc ≡ none) × (t.trace ≡ s.trace))
    ⊎ ((p : Ptr) × (f : Npfid) × (e : Event) × (s.heap p ≡ some f)
        × (f.fid ≡ tc.fid)
        × (is_too_large tc.count s.msize ≡ false)
        × MayRead env tc p f e
        × (t.trace ≡ e ∷ s.trace))

module _ (env : Env) (tc : Npfcall) (p : Ptr) (f : Npfid) where
  -- The same, behind the test on the count.
  abbrev Checked : St → Option Npfcall → St → Type 0
  Checked s rc t =
      ((rc ≡ none) × (t.trace ≡ s.trace))
      ⊎ ((e : Event) × MayRead env tc p f e × (t.trace ≡ e ∷ s.trace))
