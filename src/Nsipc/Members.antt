-- ===== src/Nsipc/Members.antt =====
-- lib/nsipc.c: the members of the page for requests, behind stores of words and copies of blocks.
use jos_smp.Base.{ℕ, ◌+◌, ◌^◌, ◌<◌, ◌≤◌, ◌≡◌, ◌∙◌, arith}
use jos_smp.Memory.Defs.{Mem, memmove}
use jos_smp.Nsipc.Defs.{Layout, put32}
use jos_smp.Nsipc.Messages.{member, block, IsMember, IsOutside}
use jos_smp.Nsipc.Words.{
  Apart, bytes_at, put32-Apart, memmove-Apart, read32-put32, read32-put32-Apart, bytes_at-put32,
  read32-memmove-Apart, bytes_at-memmove,
}

module _ (l : Layout) (in_memory : l.nsipcbuf + 4096 < 2 ^ 32) where
  pub member-one :
      (a v : ℕ) (m : Mem) → IsMember l a v → member l (put32 (l.nsipcbuf + a) v m) a ≡ v
  member-one a v m (h, k) = read32-put32 (l.nsipcbuf + a) v m (omega arith) k

  pub member-past :
      (a b v : ℕ) (m : Mem)
      → a + 4 ≤ 4096
      → b + 4 ≤ 4096
      → Apart a 4 b 4
      → member l (put32 (l.nsipcbuf + b) v m) a ≡ member l m a
  member-past a b v m h k apart =
      read32-put32-Apart (l.nsipcbuf + b) v m (omega arith) (l.nsipcbuf + a) (omega arith)
        (omega arith)

  pub member-past_block :
      (a b p n : ℕ) (m : Mem)
      → a + 4 ≤ 4096
      → b + n ≤ 4096
      → IsOutside l p n
      → Apart a 4 b n
      → member l (memmove (l.nsipcbuf + b) p n m) a ≡ member l m a
  member-past_block a b p n m h k (low, out) apart =
      read32-memmove-Apart (l.nsipcbuf + b) p n m (l.nsipcbuf + a) (omega arith) low (omega arith)
        (omega arith)

  pub block-past :
      (a b n v : ℕ) (m : Mem)
      → b + 4 ≤ 4096
      → Apart b 4 a n
      → block l (put32 (l.nsipcbuf + b) v m) a n ≡ block l m a n
  block-past a b n v m h apart =
      bytes_at-put32 (l.nsipcbuf + b) v m (omega arith) (l.nsipcbuf + a) n (omega arith)

  -- A copied block, after a word was stored in the page.
  pub block-memmove :
      (a b p n v : ℕ) (m : Mem)
      → a + n ≤ 4096
      → b + 4 ≤ 4096
      → IsOutside l p n
      → block l (memmove (l.nsipcbuf + a) p n (put32 (l.nsipcbuf + b) v m)) a n ≡ bytes_at m p n
  block-memmove a b p n v m h k (low, out) =
      bytes_at-memmove (l.nsipcbuf + a) p n (put32 (l.nsipcbuf + b) v m) (omega arith) low
      ∙ bytes_at-put32 (l.nsipcbuf + b) v m (omega arith) p n (omega arith)

  -- Two words; three; and a word, a block with its length.
  pub two_held :
      (a b v w : ℕ) (m : Mem)
      → IsMember l a v
      → IsMember l b w
      → Apart a 4 b 4
      → (member l (put32 (l.nsipcbuf + b) w (put32 (l.nsipcbuf + a) v m)) a ≡ v)
        × (member l (put32 (l.nsipcbuf + b) w (put32 (l.nsipcbuf + a) v m)) b ≡ w)
  two_held a b v w m h k apart =
      let m1 = put32 (l.nsipcbuf + a) v m in
      (member-past a b w m1 h.0 k.0 apart ∙ member-one a v m h, member-one b w m1 k)

  pub three_held :
      (a b c v w x : ℕ) (m : Mem)
      → IsMember l a v
      → IsMember l b w
      → IsMember l c x
      → Apart a 4 b 4
      → Apart a 4 c 4
      → Apart b 4 c 4
      → let m' = put32 (l.nsipcbuf + c) x (put32 (l.nsipcbuf + b) w (put32 (l.nsipcbuf + a) v m)) in
        (member l m' a ≡ v) × (member l m' b ≡ w) × (member l m' c ≡ x)
  three_held a b c v w x m h k i ab ac bc =
      let m2 = put32 (l.nsipcbuf + b) w (put32 (l.nsipcbuf + a) v m) in
      let first = two_held a b v w m h k ab in
      (
        member-past a c x m2 h.0 i.0 ac ∙ first.0,
        member-past b c x m2 k.0 i.0 bc ∙ first.1,
        member-one c x m2 i,
      )

  pub block_held :
      (a b c v p n : ℕ) (m : Mem)
      → IsMember l a v
      → IsMember l b n
      → c + n ≤ 4096
      → IsOutside l p n
      → Apart a 4 b 4
      → Apart a 4 c n
      → Apart b 4 c n
      → let m' =
          put32 (l.nsipcbuf + b) n (memmove (l.nsipcbuf + c) p n (put32 (l.nsipcbuf + a) v m)) in
        (member l m' a ≡ v) × (member l m' b ≡ n) × (block l m' c n ≡ bytes_at m p n)
  block_held a b c v p n m h k fits out ab ac bc =
      let m1 = put32 (l.nsipcbuf + a) v m in
      let m2 = memmove (l.nsipcbuf + c) p n m1 in
      (
        member-past a b n m2 h.0 k.0 ab
            ∙ member-past_block a c p n m1 h.0 fits out ac
            ∙ member-one a v m h,
        member-one b n m2 k,
        block-past c b n n m2 k.0 bc ∙ block-memmove c a p n v m fits h.0 out,
      )

  pub put32-outside :
      (b v : ℕ) (m : Mem) (a : ℕ)
      → b + 4 ≤ 4096
      → Apart l.nsipcbuf 4096 a 1
      → put32 (l.nsipcbuf + b) v m a ≡ m a
  put32-outside b v m a h out = put32-Apart (l.nsipcbuf + b) v m a (omega arith) (omega arith)

  pub memmove-outside :
      (b p n : ℕ) (m : Mem) (a : ℕ)
      → b + n ≤ 4096
      → IsOutside l p n
      → Apart l.nsipcbuf 4096 a 1
      → memmove (l.nsipcbuf + b) p n m a ≡ m a
  memmove-outside b p n m a h (low, apart) out =
      memmove-Apart (l.nsipcbuf + b) p n m a (omega arith) low (omega arith)
