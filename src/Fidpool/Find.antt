-- ===== src/Fidpool/Find.antt =====
-- libnpfs/fidpool.c: np_fid_lookup and np_fid_find.
use npfs.Prelude.{ℕ, ◌%◌, ◌≡◌, ◌≢◌, refl, Option, none, some, List, arith}
use npfs.Constants.{fid_htable_size}
use npfs.State.{Ptr, St, ok, fault}
use npfs.State.Mem.{put_bucket}
use npfs.State.Returns.{Returns, returns}
use npfs.Fidpool.{scan, to_front, np_fid_lookup, np_fid_find}
use npfs.Fidpool.Chains.{Found, fid_of, scan-Found, Absent-ne}
use npfs.Fidpool.WellFormed.{IsPool, WellFormed, IsPool-to_front}

-- What np_fid_lookup and np_fid_find do: they touch the order of a bucket alone, and the fid that
-- they return is the one of that number.
pub record Looked (s : St) (n : ℕ) (r : Option Ptr) (s' : St) : Type 0 where
  pub table : ℕ → List Ptr
  pub moved : s' ≡ record s { htable = table }
  pub well : IsPool s.heap table s.next
  pub none_absent : r ≡ none → (p : Ptr) → fid_of s.heap p ≢ some n
  pub some_found : (p : Ptr) → r ≡ some p → fid_of s.heap p ≡ some n

module _ (s : St) (v : WellFormed s) where
  pub np_fid_lookup-Looked :
      (n : ℕ) → Returns (Looked s n) (np_fid_lookup n (n % fid_htable_size) s)
  unfolding np_fid_lookup
  np_fid_lookup-Looked n =
      looked (scan s.heap n bucket) (scan-Found s.heap (n % fid_htable_size) n bucket (v.chains _))
    where
      bucket : List Ptr
      bucket = s.htable (n % fid_htable_size)

      looked :
          (r : Option (Option Ptr))
          → Found s.heap n bucket r
          → Returns (Looked s n) (elim r [
            | none ↦ fault
            | some none ↦ ok none s
            | some (some p) ↦ ok (some p) (record s {
              htable = put_bucket s.htable (n % fid_htable_size) (to_front p bucket);
            })
          ])
      looked none x = absurd x
      looked (some none) x = returns (record {
        table = s.htable;
        moved = refl;
        well = v;
        none_absent = λ _ p e. Absent-ne (fid_of s.heap) n p bucket (v.indexed p n e) x e;
        some_found = λ p e. cc;
      })
      looked (some (some p)) (m, e) = returns (record {
        table = _;
        moved = refl;
        well = IsPool-to_front v (n % fid_htable_size) p m;
        none_absent = λ e. cc;
        some_found = λ q i. ground (arith, e, i);
      })

  pub np_fid_find-Looked : (n : ℕ) → Returns (Looked s n) (np_fid_find n s)
  unfolding np_fid_find
  np_fid_find-Looked n = np_fid_lookup-Looked n
