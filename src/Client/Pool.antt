-- ===== src/Client/Pool.antt =====
-- libnpclient/pool.c: the pool of tags and fids of a client, a bitmap.
pub mod Bits
pub mod Bounds
pub mod Exclusive
pub mod Grants
pub mod Ids
use npfs.Prelude.{
  ℕ, Bool, List, Option, [], bit_and, if◌then◌else◌, length, ltb, none, some, suc, zero, ◌!=◌, ◌%◌,
  ◌&&◌, ◌*◌, ◌++◌, ◌+◌, ◌-◌, ◌/◌, ◌∷◌, bit_or, ◌^◌,
}

-- m2id, in rows of eight: they differ in the last entry only.
abbrev row : ℕ → List ℕ
row last = 0 ∷ (1 ∷ (0 ∷ (2 ∷ (0 ∷ (1 ∷ (0 ∷ (last ∷ [])))))))

abbrev rows : List ℕ → List ℕ
rows [] = []
rows (x ∷ xs) = row x ++ rows xs

abbrev eight_rows : ℕ → List ℕ
eight_rows last = rows (3 ∷ (4 ∷ (3 ∷ (5 ∷ (3 ∷ (4 ∷ (3 ∷ (last ∷ []))))))))

unfoldable pub m2id : List ℕ
m2id = eight_rows 6 ++ (eight_rows 7 ++ (eight_rows 6 ++ eight_rows 0))

-- msize is the length of map. It is an int, and below 2^28, so that `msize * 8` does not overflow.
pub record Npcpool : Type 0 where
  pub maxid : ℕ
  pub map : List ℕ

unfoldable pub zeros : ℕ → List ℕ
zeros zero = []
zeros (suc n) = 0 ∷ zeros n

-- Both allocations succeed.
unfoldable pub npc_create_pool : ℕ → Npcpool
npc_create_pool maxid = record { maxid = maxid; map = zeros 32 }

-- The element at an index inside the list; behind it the code would read other memory.
unfoldable pub byte : List ℕ → ℕ → ℕ
byte [] i = 0
byte (x ∷ xs) zero = x
byte (x ∷ xs) (suc i) = byte xs i

unfoldable pub set_byte : List ℕ → ℕ → ℕ → List ℕ
set_byte [] i v = []
set_byte (x ∷ xs) zero v = v ∷ xs
set_byte (x ∷ xs) (suc i) v = x ∷ set_byte xs i v

-- `for(i = 0; i < p->msize; i++) if (p->map[i] != 0xFF) break;`
unfoldable pub first_free : List ℕ → ℕ
first_free [] = 0
first_free (x ∷ xs) = let rest = first_free xs in if x != 0xff then 0 else suc rest

-- `n = p->msize + 32; if (n*8 > p->maxid) n = p->maxid/8 + 1;`
unfoldable pub larger_size : ℕ → ℕ → ℕ
larger_size msize maxid = if ltb maxid ((msize + 32) * 8) then maxid / 8 + 1 else msize + 32

unfoldable pub grown : Npcpool → Npcpool
grown p =
    let msize = length p.map in
    record p { map = p.map ++ zeros (larger_size msize p.maxid - msize) }

unfoldable pub take_bit : ℕ → Npcpool → ℕ × Npcpool
take_bit i p =
    let ret = byte m2id (byte p.map i) in
    (ret + i * 8, record p { map = set_byte p.map i (bit_or (byte p.map i) (2 ^ ret)) })

-- none waits for npc_put_id and starts again; `given` is whether realloc succeeds.
unfoldable pub npc_get_id : Bool → Npcpool → Option (ℕ × Npcpool)
npc_get_id given p =
    let msize = length p.map in
    let i = first_free p.map in
    if ltb i msize
    then some (take_bit i p)
    else if ltb (msize * 8) p.maxid && given
    then some (take_bit msize (grown p))
    else none

-- `p->map[id / 8] &= ~(1 << (id % 8))`, in a u8
unfoldable pub npc_put_id : Npcpool → ℕ → Npcpool
npc_put_id p id = record p {
  map = set_byte p.map (id / 8) (bit_and (byte p.map (id / 8)) (255 - 2 ^ (id % 8)));
}
