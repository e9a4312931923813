-- ===== src/Client/Pool/Exclusive.antt =====
-- libnpclient/pool.c: the callers of npc_get_id and npc_put_id over time.
use npfs.Prelude.{
  ℕ, Bool, ==_self, Bool-cases, [], ap, arith, eq_of_==, false, if◌then◌else◌, inl, inr, length,
  ltb, some, subst, suc, sym, ◌%◌, ◌*◌, ◌-◌, ◌/◌, ◌<◌, ◌==◌, ◌∙◌, ◌≡◌, ◌≢◌, ◌≤◌,
}
use npfs.Client.Pool.{Npcpool, byte, npc_create_pool, npc_get_id, npc_put_id}
use npfs.Client.Pool.Bits.{bit, bit-zero}
use npfs.Client.Pool.Ids.{Bytes, used, byte-behind, byte-zeros, grown-Bytes, used-small}
use npfs.Client.Pool.Grants.{Granted, npc_get_id-Granted, npc_put_id-frees}

abbrev pub count_at : (ℕ → ℕ) → ℕ → ℕ → ℕ → ℕ
count_at held id n j = if j == id then n else held j

-- Calls of the two functions in any order, with how often each identifier is held: a caller gives
-- back what it holds. A call that waits is no step until it gets an identifier.
pub data Run (maxid : ℕ) : Npcpool → (ℕ → ℕ) → Type 0 where
  start : Run maxid (npc_create_pool maxid) (λ j. 0)
  got :
      {p : Npcpool} {held : ℕ → ℕ} (given : Bool) (id : ℕ) (q : Npcpool)
      → Run maxid p held
      → npc_get_id given p ≡ some (id, q)
      → Run maxid q (count_at held id (suc (held id)))
  put :
      {p : Npcpool} {held : ℕ → ℕ} (id : ℕ)
      → Run maxid p held
      → 0 < held id
      → Run maxid (npc_put_id p id) (count_at held id (held id - 1))

pub record IsExact (p : Npcpool) (held : ℕ → ℕ) : Type 0 where
  pub bytes : Bytes p.map
  pub exact : (j : ℕ) → held j ≡ used p j

count_at-here : (held : ℕ → ℕ) (id n : ℕ) → count_at held id n id ≡ n
count_at-here held id n = ap (λ c. if c then n else held id) (==_self id)

count_at-other : (held : ℕ → ℕ) (id n j : ℕ) → j == id ≡ false → count_at held id n j ≡ held j
count_at-other held id n j miss = ap (λ c. if c then n else held j) miss

IsExact-create : (maxid : ℕ) → IsExact (npc_create_pool maxid) (λ j. 0)
unfolding npc_create_pool used
IsExact-create maxid = record {
  bytes = grown-Bytes [] 32 tt;
  exact =
      λ j. sym (ap (λ b. bit b (j % 8)) (byte-zeros 32 (j / 8)) ∙ bit-zero (j % 8) (omega arith));
}

-- One identifier changes, as its count does.
IsExact-change :
    (p q : Npcpool) (held : ℕ → ℕ) (id n : ℕ)
    → IsExact p held
    → Bytes q.map
    → used q id ≡ n
    → ((j : ℕ) → j ≢ id → used q j ≡ used p j)
    → IsExact q (count_at held id n)
IsExact-change p q held id n ok bytes here others = record { bytes = bytes; exact = exact }
  where
    exact : (j : ℕ) → count_at held id n j ≡ used q j
    exact j = elim (Bool-cases (j == id)) [
      | inl hit ↦
          let e : j ≡ id = eq_of_== j id hit in
          ap (λ c. if c then n else held j) hit ∙ (sym here ∙ ap (used q) (sym e))
      | inr miss ↦
          count_at-other held id n j miss ∙ (ok.exact j ∙ sym (others j (λ e. ground arith)))
    ]

IsExact-got :
    (p q : Npcpool) (held : ℕ → ℕ) (given : Bool) (id : ℕ)
    → IsExact p held
    → Granted given p (some (id, q))
    → IsExact q (count_at held id (suc (held id)))
unfolding Granted
IsExact-got p q held given id ok (free, (taken, (others, (bytes, inside)))) =
    IsExact-change p q held id (suc (held id)) ok bytes (taken ∙ ap suc (sym (ok.exact id ∙ free)))
      others

pub used-inside : (p : Npcpool) (id : ℕ) → 0 < used p id → id < length p.map * 8
unfolding used
used-inside p id lt = elim (Bool-cases (ltb (id / 8) (length p.map))) [
  | inl inside ↦ ground arith
  | inr behind ↦
      let empty : byte p.map (id / 8) ≡ 0 = byte-behind p.map (id / 8) (ground arith) in
      absurd (omega (arith, ap (λ b. bit b (id % 8)) empty ∙ bit-zero (id % 8) (omega arith)))
]

IsExact-put :
    (p : Npcpool) (held : ℕ → ℕ) (id : ℕ)
    → IsExact p held
    → 0 < held id
    → IsExact (npc_put_id p id) (count_at held id (held id - 1))
IsExact-put p held id ok lt =
    let one : 0 < used p id = omega (arith, ok.exact id) in
    let (free, (others, bytes)) = npc_put_id-frees p id ok.bytes (used-inside p id one) in
    IsExact-change p (npc_put_id p id) held id (held id - 1) ok bytes
      (free ∙ omega (arith, ok.exact id, used-small p id)) others

pub Run-IsExact : {maxid : ℕ} {p : Npcpool} {held : ℕ → ℕ} → Run maxid p held → IsExact p held
Run-IsExact start = IsExact-create _
Run-IsExact (got given id q run e) =
    let ok = Run-IsExact run in
    IsExact-got _ q _ given id ok (subst (Granted given _) e (npc_get_id-Granted given _ ok.bytes))
Run-IsExact (put id run lt) = IsExact-put _ _ id (Run-IsExact run) lt

-- After any sequence of npc_get_id and npc_put_id on a new pool in which callers give back what
-- they hold, an identifier is held by at most one caller, and the bitmap marks exactly the
-- identifiers that are held.
pub Run-Exclusive :
    {maxid : ℕ} {p : Npcpool} {held : ℕ → ℕ}
    → Run maxid p held
    → (id : ℕ) → (held id ≤ 1) × (used p id ≡ held id)
Run-Exclusive run id =
    let ok = Run-IsExact run in (omega (arith, ok.exact id, used-small _ id), sym (ok.exact id))
