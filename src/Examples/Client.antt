-- ===== src/Examples/Client.antt =====
-- Runs of libnpclient/pool.c on small pools.
use npfs.Prelude.{ℕ, [], some, refl, true, arith, ◌∷◌, ◌≡◌, ◌≢◌, ◌≤◌, ◌/◌, ◌<◌, ◌⊎◌}
use npfs.Client.Pool.{
  Npcpool, npc_create_pool, npc_get_id, npc_put_id, take_bit, byte, first_free, m2id, set_byte,
  zeros,
}
use npfs.Client.Pool.Exclusive.{Run, Run-Exclusive, start, got, count_at}
use npfs.Client.Pool.Grants.{Granted, npc_get_id-Granted, npc_put_id-frees}
use npfs.Client.Pool.Ids.{Bytes, used}
use npfs.Client.Pool.Bounds.{Run-bounds}

-- The first two bytes are full but for identifier 13.
abbrev nearly_full : Npcpool
nearly_full = record { maxid = 65535; map = 255 ∷ (223 ∷ []) }

nearly_full-Bytes : Bytes nearly_full.map
nearly_full-Bytes = (omega arith, (omega arith, tt))

gets_13 : npc_get_id true nearly_full ≡ some (13, record nearly_full { map = 255 ∷ (255 ∷ []) })
unfolding npc_get_id first_free take_bit byte set_byte m2id
gets_13 = refl

npc_get_id-Granted_example : Granted true nearly_full (npc_get_id true nearly_full)
npc_get_id-Granted_example = npc_get_id-Granted true nearly_full nearly_full-Bytes

npc_put_id-frees_example :
    (used (npc_put_id nearly_full 9) 9 ≡ 0)
    × (((j : ℕ) → j ≢ 9 → used (npc_put_id nearly_full 9) j ≡ used nearly_full j)
        × Bytes (npc_put_id nearly_full 9).map)
npc_put_id-frees_example = npc_put_id-frees nearly_full 9 nearly_full-Bytes (omega arith)

-- maxid itself is handed out.
gets_maxid :
    npc_get_id true (record { maxid = 7; map = 127 ∷ [] })
    ≡ some (7, record { maxid = 7; map = 255 ∷ [] })
unfolding npc_get_id first_free take_bit byte set_byte m2id
gets_maxid = refl

abbrev first_taken : Npcpool
first_taken = (take_bit 0 (npc_create_pool 65535)).1

gets_first : npc_get_id true (npc_create_pool 65535) ≡ some (0, first_taken)
unfolding npc_get_id npc_create_pool first_free take_bit byte set_byte m2id zeros
gets_first = refl

first_run : Run 65535 first_taken (count_at (λ j. 0) 0 1)
first_run = got true 0 first_taken start gets_first

Run-Exclusive_example :
    (count_at (λ j. 0) 0 1 0 ≤ 1) × (used first_taken 0 ≡ count_at (λ j. 0) 0 1 0)
Run-Exclusive_example = Run-Exclusive first_run 0

Run-bounds_example : (0 < 256) ⊎ (0 / 8 ≤ 65535 / 8)
Run-bounds_example = Run-bounds first_run 0 (omega arith)
