-- ===== src/Fidpool/WellFormed.antt =====
-- libnpfs/fidpool.c: the invariant of a pool.
use npfs.Prelude.{
  ℕ, ◌%◌, ◌<◌, ◌≤◌, ◌≡◌, ◌≢◌, refl, sym, ap, ◌∙◌, subst, inl, inr, Option, none, some, List, [],
  ◌∷◌, arith, ◌==◌, Bool-cases, eq_of_==, ne_of_==, ==_self,
}
use npfs.Constants.{fid_htable_size}
use npfs.State.{Ptr, Npfid, St}
use npfs.State.Mem.{put_fid, put_bucket, put_fid_ne, put_fid_self}
use npfs.Fidpool.{unlink, to_front, new_fid}
use npfs.Fidpool.Chains.{
  In, Absent, Chain, fid_of, Chain-to_front, Chain-unlink, Chain-frame, Chain-hash, In-unlink,
  In-to_front, Absent-ne, Absent-frame, unlink-Absent, number,
}

-- Each bucket is a chain, each live fid is in the bucket of its number, and the addresses still to
-- come are not in use.
pub record IsPool (heap : Ptr → Option Npfid) (htable : ℕ → List Ptr) (next : ℕ) : Type 0 where
  pub chains : (i : ℕ) → Chain (fid_of heap) i (htable i)
  pub indexed : (p : Ptr) (n : ℕ) → fid_of heap p ≡ some n → In p (htable (n % fid_htable_size))
  pub fresh : (p : Ptr) → next ≤ p → heap p ≡ none

abbrev pub WellFormed : St → Type 0
WellFormed s = IsPool s.heap s.htable s.next

-- A statement about each bucket, after one bucket was replaced.
at_bucket {ℓ} :
    (P : ℕ → List Ptr → Type ℓ) (t : ℕ → List Ptr) (i : ℕ) (l : List Ptr)
    → P i l
    → ((j : ℕ) → j ≢ i → P j (t j))
    → (j : ℕ) → P j (put_bucket t i l j)
at_bucket P t i l here other j = elim (Bool-cases (j == i)) [
  | inl hit ↦ rw hit (subst (λ k. P k l) (sym (eq_of_== j i hit)) here)
  | inr miss ↦ rw miss (other j (ne_of_== j i miss))
]

Chain-injective :
    (g : Ptr → Option ℕ) (i : ℕ) (p q : Ptr) (n : ℕ) (ps : List Ptr)
    → Chain g i ps
    → In p ps
    → In q ps
    → g p ≡ some n
    → g q ≡ some n
    → p ≡ q
Chain-injective g i p q n [] c mp mq ep eq = absurd mp
Chain-injective g i p q n (r ∷ rs) c (inl a) (inl b) ep eq = sym a ∙ b
Chain-injective g i p q n (r ∷ rs) ((k, e, h, x), c) (inl a) (inr m) ep eq =
    absurd (Absent-ne g k q rs m x (ground arith))
Chain-injective g i p q n (r ∷ rs) ((k, e, h, x), c) (inr m) (inl b) ep eq =
    absurd (Absent-ne g k p rs m x (ground arith))
Chain-injective g i p q n (r ∷ rs) (x, c) (inr m) (inr o) ep eq =
    Chain-injective g i p q n rs c m o ep eq

module _ {heap : Ptr → Option Npfid} {htable : ℕ → List Ptr} {next : ℕ}
    (v : IsPool heap htable next) where
  -- Two fids of one number are one fid.
  pub fid_of-injective :
      (p q : Ptr) (n : ℕ) → fid_of heap p ≡ some n → fid_of heap q ≡ some n → p ≡ q
  fid_of-injective p q n ep eq =
      Chain-injective _ _ p q n _ (v.chains (n % fid_htable_size)) (v.indexed p n ep)
        (v.indexed q n eq) ep eq

  pub IsPool-to_front :
      (i : ℕ) (p : Ptr)
      → In p (htable i)
      → IsPool heap (put_bucket htable i (to_front p (htable i))) next
  IsPool-to_front i p m = record {
    chains =
        at_bucket (λ j l. Chain (fid_of heap) j l) htable i _
          (Chain-to_front _ i p _ (v.chains i) m) (λ j _. v.chains j);
    indexed = λ q n e.
        at_bucket (λ j l. In q (htable j) → In q l) htable i _ (In-to_front q p (htable i))
          (λ j _ x. x) (n % fid_htable_size) (v.indexed q n e);
    fresh = v.fresh;
  }

  not_next : (j : ℕ) (q : Ptr) → In q (htable j) → q ≢ next
  not_next j q m e =
      let (n, live, _) = Chain-hash (fid_of heap) j q (htable j) (v.chains j) m in
      ground (arith, v.fresh next (omega arith))

  -- The new fid of np_fid_create: its number is not in the pool yet.
  pub IsPool-create :
      (n next' : ℕ)
      → Absent (fid_of heap) n (htable (n % fid_htable_size))
      → next < next'
      → IsPool
          (put_fid heap next (some (new_fid n)))
          (put_bucket htable (n % fid_htable_size) (next ∷ htable (n % fid_htable_size)))
          next'
  IsPool-create n next' a lt = record {
    chains =
        at_bucket (λ j l. Chain g' j l) htable i _
          ((n, rw ==_self refl, refl, Absent-frame n _ (same i) a), kept i) (λ j _. kept j);
    indexed = λ q k e. elim (Bool-cases (q == next)) [
      | inl hit ↦ new_member q k e (eq_of_== q next hit)
      | inr miss ↦
          at_bucket (λ j l. In q (htable j) → In q l) htable i _ (λ x. inr x) (λ j _ x. x)
            (k % fid_htable_size) (v.indexed q k (ground arith))
    ];
    fresh = λ p h. put_fid_ne heap next p _ (λ e. absurd (omega arith)) ∙ v.fresh p (omega arith);
  }
    where
      i : ℕ
      i = n % fid_htable_size

      g' : Ptr → Option ℕ
      g' = fid_of (put_fid heap next (some (new_fid n)))

      same : (j : ℕ) (q : Ptr) → In q (htable j) → g' q ≡ fid_of heap q
      same j q m = ap number (put_fid_ne heap next q _ (not_next j q m))

      new_member :
          (q : Ptr) (k : ℕ)
          → g' q ≡ some k
          → q ≡ next
          → In q (put_bucket htable i (next ∷ htable i) (k % fid_htable_size))
      new_member q k e hit =
          let number_new : some n ≡ some k =
            ap number (sym (put_fid_self heap next (some (new_fid n)))) ∙ ap g' (sym hit) ∙ e in
          let same_number : n ≡ k = cc number_new in
          subst (λ m. In q (put_bucket htable i (next ∷ htable i) (m % fid_htable_size)))
            same_number (rw ==_self (inl (sym hit)))

      kept : (j : ℕ) → Chain g' j (htable j)
      kept j = Chain-frame j (htable j) (same j) (v.chains j)

  -- np_fid_destroy takes a fid out and frees it.
  pub IsPool-destroy :
      (p : Ptr) (n : ℕ)
      → fid_of heap p ≡ some n
      → IsPool
          (put_fid heap p none)
          (put_bucket htable (n % fid_htable_size) (unlink p (htable (n % fid_htable_size))))
          next
  IsPool-destroy p n live = record {
    chains =
        at_bucket (λ j l. Chain g' j l) htable i _
          (Chain-frame i _ (λ q m. same q (here q m)) (Chain-unlink _ i p _ (v.chains i)))
          (λ j ne. Chain-frame j _ (λ q m. same q (there j ne q m)) (v.chains j));
    indexed = λ q k e.
        at_bucket (λ j l. In q (htable j) → In q l) htable i _
          (In-unlink q p (htable i) (ground arith)) (λ j _ x. x) (k % fid_htable_size)
          (v.indexed q k (ground arith));
    fresh = λ q h. gone q (v.fresh q h);
  }
    where
      i : ℕ
      i = n % fid_htable_size

      g' : Ptr → Option ℕ
      g' = fid_of (put_fid heap p none)

      gone : (q : Ptr) → heap q ≡ none → put_fid heap p none q ≡ none
      gone q e = elim (Bool-cases (q == p)) [ inl hit ↦ rw hit | inr miss ↦ rw miss e ]

      same : (q : Ptr) → q ≢ p → g' q ≡ fid_of heap q
      same q ne = ap number (put_fid_ne heap p q none ne)

      here : (q : Ptr) → In q (unlink p (htable i)) → q ≢ p
      here q m e =
          Absent-ne (fid_of heap) n q (unlink p (htable i)) m
            (unlink-Absent (fid_of heap) i n p (htable i) (v.chains i) (v.indexed p n live) live)
            (rw e live)

      there : (j : ℕ) → j ≢ i → (q : Ptr) → In q (htable j) → q ≢ p
      there j ne q m e =
          let (k, ek, h) = Chain-hash (fid_of heap) j q (htable j) (v.chains j) m in
          ground (arith, ne)
