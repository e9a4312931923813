-- ===== src/Client/Pool/Bounds.antt =====
-- libnpclient/pool.c: how large the bitmap gets.
use npfs.Prelude.{
  ℕ, Bool, Option, Bool-cases, arith, inl, inr, length, length-append, ltb, none, refl, some, subst,
  sym, ◌&&◌, ◌*◌, ◌+◌, ◌-◌, ◌/◌, ◌<◌, ◌≡◌, ◌≤◌, ◌⊎◌,
}
use npfs.Client.Pool.{
  Npcpool, grown, larger_size, npc_create_pool, npc_get_id, npc_put_id, take_bit, first_free, zeros,
}
use npfs.Client.Pool.Exclusive.{start, got, put, Run, Run-IsExact, used-inside}
use npfs.Client.Pool.Grants.{get_grown, get_none, get_room, larger_size-gt, length-set_byte}
use npfs.Client.Pool.Ids.{length-zeros}

-- The bitmap keeps its first size or ends with the byte of maxid at the latest.
Fits : ℕ → Npcpool → Type 0
Fits maxid p = (p.maxid ≡ maxid) × (32 < length p.map → length p.map ≤ maxid / 8 + 1)

larger_size-le : (msize maxid : ℕ) → larger_size msize maxid ≤ maxid / 8 + 1
unfolding larger_size
larger_size-le msize maxid = ground arith

Fits-take_bit : (maxid i : ℕ) (p : Npcpool) → Fits maxid p → Fits maxid (take_bit i p).1
unfolding Fits take_bit
Fits-take_bit maxid i p (same, fits) =
    let kept = length-set_byte p.map i _ in
    (same, (λ lt. subst (λ n. n ≤ maxid / 8 + 1) (sym kept) (fits (omega (arith, kept)))))

Fits-grown :
    (maxid : ℕ) (p : Npcpool) → length p.map * 8 < p.maxid → p.maxid ≡ maxid → Fits maxid (grown p)
unfolding Fits grown
Fits-grown maxid p lt same = (
  same,
  (λ l. omega (
    arith,
    same,
    larger_size-gt (length p.map) p.maxid lt,
    larger_size-le (length p.map) p.maxid,
    length-append p.map (zeros (larger_size (length p.map) p.maxid - length p.map)),
    length-zeros (larger_size (length p.map) p.maxid - length p.map),
  )),
)

FitsAfter : ℕ → Option (ℕ × Npcpool) → Type 0
FitsAfter maxid none = Unit
FitsAfter maxid (some (id, q)) = Fits maxid q

npc_get_id-Fits :
    (maxid : ℕ) (given : Bool) (p : Npcpool) → Fits maxid p → FitsAfter maxid (npc_get_id given p)
unfolding FitsAfter Fits
npc_get_id-Fits maxid given p ok = elim (Bool-cases (ltb (first_free p.map) (length p.map))) [
  | inl room ↦ subst (FitsAfter maxid) (sym (get_room given p room)) (Fits-take_bit maxid _ p ok)
  | inr full ↦ elim (Bool-cases (ltb (length p.map * 8) p.maxid && given)) [
    | inl grows ↦
        subst (FitsAfter maxid) (sym (get_grown given p full grows))
          (Fits-take_bit maxid _ (grown p) (Fits-grown maxid p (ground arith) ok.0))
    | inr stays ↦ subst (FitsAfter maxid) (sym (get_none given p full stays)) tt
  ]
]

Fits-put : (maxid : ℕ) (p : Npcpool) (id : ℕ) → Fits maxid p → Fits maxid (npc_put_id p id)
unfolding Fits npc_put_id
Fits-put maxid p id (same, fits) =
    let kept = length-set_byte p.map (id / 8) _ in
    (same, (λ lt. subst (λ n. n ≤ maxid / 8 + 1) (sym kept) (fits (omega (arith, kept)))))

Run-Fits : {maxid : ℕ} {p : Npcpool} {held : ℕ → ℕ} → Run maxid p held → Fits maxid p
unfolding Fits FitsAfter npc_create_pool
Run-Fits start = (refl, (λ lt. absurd (omega (arith, length-zeros 32))))
Run-Fits (got given id q run e) = subst (FitsAfter _) e (npc_get_id-Fits _ given _ (Run-Fits run))
Run-Fits (put id run lt) = Fits-put _ _ id (Run-Fits run)

-- After any sequence of npc_get_id and npc_put_id on a new pool in which callers give back what
-- they hold, an identifier that is held is one of the first 256, or lies in the same byte of the
-- bitmap as maxid or in an earlier one.
pub Run-bounds :
    {maxid : ℕ} {p : Npcpool} {held : ℕ → ℕ}
    → Run maxid p held
    → (id : ℕ) → 0 < held id
    → (id < 256) ⊎ (id / 8 ≤ maxid / 8)
unfolding Fits
Run-bounds {p = p} run id lt =
    let fits = Run-Fits run in
    let inside = used-inside p id (omega (arith, (Run-IsExact run).exact id)) in
    elim (Bool-cases (ltb 32 (length p.map))) [
      | inl large ↦ let at_most = fits.1 (ground arith) in inr (omega arith)
      | inr small ↦ inl (ground arith)
    ]
