-- ===== src/Fcall/Sizes.antt =====
-- libnpfs/fcall.c: the test of np_read, np_write and np_readdir on the count of a message.
use npfs.Prelude.{ℕ, ◌+◌, ◌-◌, ◌≤◌, ◌<◌, ◌%◌, ◌≡◌, ◌↔◌, false, arith}
use npfs.Constants.{iohdrsz, u32_mod}
use npfs.Fcall.Files.{is_too_large}

wrapped : (n : ℕ) → u32_mod ≤ n → n < u32_mod + u32_mod → n % u32_mod ≡ n - u32_mod
wrapped n le lt = omega arith

-- For a u32 count and a message size that the header fits: where the sum does not wrap, the test
-- lets through exactly the counts that fit the message size with the header. Where it wraps, it lets every count through.
pub is_too_large-bounds :
    (count msize : ℕ)
    → count < u32_mod
    → iohdrsz ≤ msize
    → (count + iohdrsz < u32_mod → is_too_large count msize ≡ false ↔ count + iohdrsz ≤ msize)
      × (u32_mod ≤ count + iohdrsz → is_too_large count msize ≡ false)
unfolding is_too_large
is_too_large-bounds count msize small header =
    ((λ lt. (λ h. ground (arith), λ h. ground arith)), λ wraps. ground arith)
