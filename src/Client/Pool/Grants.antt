-- ===== src/Client/Pool/Grants.antt =====
-- libnpclient/pool.c: what npc_get_id and npc_put_id do to the identifiers in use.
use npfs.Prelude.{
  ℕ, Bool, List, Option, Bool-cases, [], ap, arith, bit_or, eq_of_==, false, inl, inr, length, ltb,
  none, refl, some, suc, sym, zero, ◌%◌, ◌&&◌, ◌*◌, ◌+◌, ◌/◌, ◌<◌, ◌==◌, ◌^◌, ◌∙◌, ◌∷◌, ◌≡◌, ◌≢◌,
  length-append, ◌-◌, ◌≤◌, bit_and, if◌then◌else◌, subst, true,
}
use npfs.Client.Pool.{
  Npcpool, byte, m2id, grown, larger_size, npc_get_id, npc_put_id, take_bit, set_byte, first_free,
  zeros,
}
use npfs.Client.Pool.Bits.{bit, freed_bit, lowest_free, bit-full}
use npfs.Client.Pool.Ids.{
  Bytes, used, byte-Bytes, byte-other, byte-set_byte, set_byte-Bytes, byte-grown, first_free-full,
  length-zeros, byte-end, first_free-byte, grown-Bytes,
}

-- none: all identifiers are in use and the bitmap does not grow.
unfoldable pub Granted : Bool → Npcpool → Option (ℕ × Npcpool) → Type 0
Granted given p none =
    ((id : ℕ) → id < length p.map * 8 → used p id ≡ 1)
    × ((ltb (length p.map * 8) p.maxid && given) ≡ false)
Granted given p (some (id, q)) =
    (used p id ≡ 0)
    × ((used q id ≡ 1)
        × (((j : ℕ) → j ≢ id → used q j ≡ used p j) × (Bytes q.map × (id < length q.map * 8))))

used-in_byte : (p : Npcpool) (i m : ℕ) → m < 8 → used p (m + i * 8) ≡ bit (byte p.map i) m
unfolding used
used-in_byte p i m small =
    let quotient : (m + i * 8) / 8 ≡ i = omega arith in
    let remainder : (m + i * 8) % 8 ≡ m = omega arith in
    ap (λ a. bit (byte p.map a) ((m + i * 8) % 8)) quotient ∙ ap (bit (byte p.map i)) remainder

pub length-set_byte : (xs : List ℕ) (i v : ℕ) → length (set_byte xs i v) ≡ length xs
unfolding set_byte
length-set_byte [] i v = refl
length-set_byte (x ∷ xs) zero v = refl
length-set_byte (x ∷ xs) (suc i) v = ap suc (length-set_byte xs i v)

-- A byte that differs in one bit changes one identifier.
used-set_byte :
    (p : Npcpool) (i m v : ℕ)
    → i < length p.map
    → ((k : ℕ) → k < 8 → k ≢ m → bit v k ≡ bit (byte p.map i) k)
    → (j : ℕ) → j ≢ m + i * 8
    → used (record p { map = set_byte p.map i v }) j ≡ used p j
unfolding used
used-set_byte p i m v lt same j ne = elim (Bool-cases (j / 8 == i)) [
  | inl hit ↦
      let at : j / 8 ≡ i = eq_of_== (j / 8) i hit in
      ap (λ a. bit (byte (set_byte p.map i v) a) (j % 8)) at
      ∙ (ap (λ b. bit b (j % 8)) (byte-set_byte p.map i v lt)
          ∙ (same (j % 8) (omega arith) (λ e. ne (omega arith))
              ∙ ap (λ a. bit (byte p.map a) (j % 8)) (sym at)))
  | inr miss ↦ ap (λ b. bit b (j % 8)) (byte-other p.map i (j / 8) v (λ e. ground arith))
]

Granted-take_bit :
    (given : Bool) (i : ℕ) (p : Npcpool)
    → Bytes p.map
    → i < length p.map
    → byte p.map i ≢ 255
    → Granted given p (some (take_bit i p))
unfolding Granted take_bit
Granted-take_bit given i p ok lt ne =
    let (small, (wide, (before, (after, others)))) =
      lowest_free (byte p.map i) (omega (arith, byte-Bytes p.map i ok)) in
    let m : ℕ = byte m2id (byte p.map i) in
    let v : ℕ = bit_or (byte p.map i) (2 ^ m) in
    let q : Npcpool = record p { map = set_byte p.map i v } in
    (
      used-in_byte p i m small ∙ before,
      (
        used-in_byte q i m small ∙ (ap (λ b. bit b m) (byte-set_byte p.map i v lt) ∙ after),
        (
          used-set_byte p i m v lt others,
          (set_byte-Bytes p.map i v ok wide, omega (arith, length-set_byte p.map i v)),
        ),
      ),
    )

pub larger_size-gt : (msize maxid : ℕ) → msize * 8 < maxid → msize < larger_size msize maxid
unfolding larger_size
larger_size-gt msize maxid lt = ground arith

length-grown : (p : Npcpool) → length p.map * 8 < p.maxid → length p.map < length (grown p).map
unfolding grown
length-grown p lt =
    let n : ℕ = larger_size (length p.map) p.maxid - length p.map in
    omega (
      arith,
      larger_size-gt (length p.map) p.maxid lt,
      length-append p.map (zeros n),
      length-zeros n,
    )

used-grown : (p : Npcpool) (id : ℕ) → used (grown p) id ≡ used p id
unfolding used grown
used-grown p id = ap (λ b. bit b (id % 8)) (byte-grown p.map _ (id / 8))

Granted-grown :
    (given : Bool) (p : Npcpool) (id : ℕ) (q : Npcpool)
    → Granted given (grown p) (some (id, q))
    → Granted given p (some (id, q))
unfolding Granted
Granted-grown given p id q (free, (taken, (others, rest))) =
    (sym (used-grown p id) ∙ free, (taken, ((λ j ne. others j ne ∙ used-grown p j), rest)))

grown-end : (p : Npcpool) → byte (grown p).map (length p.map) ≡ 0
unfolding grown
grown-end p = byte-grown p.map _ (length p.map) ∙ byte-end p.map

used-full :
    (p : Npcpool)
    → length p.map ≤ first_free p.map
    → (id : ℕ) → id < length p.map * 8
    → used p id ≡ 1
unfolding used
used-full p full id lt =
    ap (λ b. bit b (id % 8)) (first_free-full p.map full (id / 8) (omega arith))
    ∙ bit-full (id % 8) (omega arith)

pub get_room :
    (given : Bool) (p : Npcpool)
    → ltb (first_free p.map) (length p.map) ≡ true
    → npc_get_id given p ≡ some (take_bit (first_free p.map) p)
unfolding npc_get_id
get_room given p h =
    ap
      (λ c.
        if c
        then some (take_bit (first_free p.map) p)
        else if ltb (length p.map * 8) p.maxid && given
        then some (take_bit (length p.map) (grown p))
        else none)
      h

pub get_full :
    (given : Bool) (p : Npcpool)
    → ltb (first_free p.map) (length p.map) ≡ false
    → npc_get_id given p ≡ (
        if ltb (length p.map * 8) p.maxid && given
        then some (take_bit (length p.map) (grown p))
        else none)
unfolding npc_get_id
get_full given p h =
    ap
      (λ c.
        if c
        then some (take_bit (first_free p.map) p)
        else if ltb (length p.map * 8) p.maxid && given
        then some (take_bit (length p.map) (grown p))
        else none)
      h

pub get_grown :
    (given : Bool) (p : Npcpool)
    → ltb (first_free p.map) (length p.map) ≡ false
    → ltb (length p.map * 8) p.maxid && given ≡ true
    → npc_get_id given p ≡ some (take_bit (length p.map) (grown p))
get_grown given p full grows =
    get_full given p full
    ∙ ap (λ c. if c then some (take_bit (length p.map) (grown p)) else none) grows

pub get_none :
    (given : Bool) (p : Npcpool)
    → ltb (first_free p.map) (length p.map) ≡ false
    → ltb (length p.map * 8) p.maxid && given ≡ false
    → npc_get_id given p ≡ none
get_none given p full stays =
    get_full given p full
    ∙ ap (λ c. if c then some (take_bit (length p.map) (grown p)) else none) stays

Granted-grow :
    (given : Bool) (p : Npcpool)
    → Bytes p.map
    → length p.map * 8 < p.maxid
    → Granted given p (some (take_bit (length p.map) (grown p)))
unfolding grown
Granted-grow given p ok lt =
    let i : ℕ = length p.map in
    let empty : byte (grown p).map i ≡ 0 = grown-end p in
    Granted-grown given p _ _ (
      Granted-take_bit given i (grown p) (grown-Bytes p.map _ ok) (length-grown p lt)
        (λ e. omega arith))

-- npc_get_id on a bitmap of bytes: an identifier that it returns was free, is then in use, lies
-- inside the bitmap, and no other identifier changes; it waits only when every identifier of the
-- bitmap is in use and the bitmap cannot grow.
pub npc_get_id-Granted :
    (given : Bool) (p : Npcpool) → Bytes p.map → Granted given p (npc_get_id given p)
unfolding Granted
npc_get_id-Granted given p ok = elim (Bool-cases (ltb (first_free p.map) (length p.map))) [
  | inl room ↦
      let lt : first_free p.map < length p.map = ground arith in
      subst (Granted given p) (sym (get_room given p room))
        (Granted-take_bit given (first_free p.map) p ok lt (first_free-byte p.map lt))
  | inr full ↦ elim (Bool-cases (ltb (length p.map * 8) p.maxid && given)) [
    | inl grows ↦
        subst (Granted given p) (sym (get_grown given p full grows))
          (Granted-grow given p ok (ground arith))
    | inr stays ↦
        subst (Granted given p) (sym (get_none given p full stays))
          (used-full p (ground arith), stays)
  ]
]

-- npc_put_id of an identifier of the bitmap: it is free afterwards, no other identifier changes,
-- and the bitmap stays one of bytes.
pub npc_put_id-frees :
    (p : Npcpool) (id : ℕ)
    → Bytes p.map
    → id < length p.map * 8
    → (used (npc_put_id p id) id ≡ 0)
      × (((j : ℕ) → j ≢ id → used (npc_put_id p id) j ≡ used p j) × Bytes (npc_put_id p id).map)
unfolding npc_put_id used
npc_put_id-frees p id ok lt =
    let i : ℕ = id / 8 in
    let m : ℕ = id % 8 in
    let inside : i < length p.map = omega arith in
    let (wide, (cleared, others)) =
      freed_bit m (byte p.map i) (omega arith) (byte-Bytes p.map i ok) in
    let v : ℕ = bit_and (byte p.map i) (255 - 2 ^ m) in
    (
      ap (λ b. bit b m) (byte-set_byte p.map i v inside) ∙ cleared,
      (
        (λ j ne. used-set_byte p i m v inside others j (λ e. ne (omega arith))),
        set_byte-Bytes p.map i v ok wide,
      ),
    )
