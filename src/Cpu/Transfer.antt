-- ===== src/Cpu/Transfer.antt =====
-- inc/x86.h: a block sent to a device word by word and read back.
use jos_smp.Base.{
  ℕ, zero, suc, ◌+◌, ◌-◌, ◌*◌, ◌/◌, ◌%◌, ◌^◌, ◌<◌, ◌≡◌, refl, sym, ap, ◌∙◌, List, [], ◌∷◌, ◌++◌,
  append_assoc, append-nil, arith, ◌&&◌, leb, ltb, if◌then◌else◌, fun_ext,
}
use jos_smp.Base.Word.{add32}
use jos_smp.Memory.Defs.{Mem, write32}
use jos_smp.Memory.Move.{moved}
use jos_smp.Cpu.Strings.{Bus, store32, load32, inl, outl, insl, outsl}

-- A device with a queue of words behind a port: a write puts one behind the others, a read takes
-- the first.
pub record Queue {W : Type 0} (bus : Bus W) (port : ℕ) (queue : W → List ℕ) : Type 0 where
  pub queue-out32 : (v : ℕ) (w : W) → queue (bus.out32 port v w) ≡ queue w ++ v ∷ []
  pub in32_first :
      (w : W) (v : ℕ) (q : List ℕ)
      → queue w ≡ v ∷ q
      → ((bus.in32 port w).0 ≡ v) × (queue (bus.in32 port w).1 ≡ q)

-- The `n` words of memory from `p` on.
abbrev words : Mem → ℕ → ℕ → List ℕ
words m p zero = []
words m p (suc n) = load32 m p ∷ words m (add32 p 4) n

-- Memory `m` with the `n` bytes of `from` at `src` put at `dst`, read at `a`.
abbrev placed : ℕ → ℕ → ℕ → Mem → Mem → Mem
placed dst src n from m a = if leb dst a && ltb a (dst + n) then from (src + (a - dst)) else m a

load32_bound : (m : Mem) (p : ℕ) → ((a : ℕ) → m a < 256) → load32 m p < 2 ^ 32
load32_bound m p bytes =
    omega (arith, bytes p, bytes (add32 p 1), bytes (add32 p 2), bytes (add32 p 3))

store32-load32 :
    (dst src : ℕ) (from m : Mem) (a : ℕ)
    → ((b : ℕ) → from b < 256)
    → dst + 4 < 2 ^ 32
    → src + 4 < 2 ^ 32
    → store32 dst (load32 from src) m a ≡ placed dst src 4 from m a
store32-load32 dst src from m a bytes p q =
    let b0 = bytes src in
    let b1 = bytes (add32 src 1) in
    let b2 = bytes (add32 src 2) in
    let b3 = bytes (add32 src 3) in
    let e0 : load32 from src % 256 ≡ from src = omega arith in
    let e1 : load32 from src / 256 % 256 ≡ from (add32 src 1) = omega arith in
    let e2 : load32 from src / 65536 % 256 ≡ from (add32 src 2) = omega arith in
    let e3 : load32 from src / 16777216 % 256 ≡ from (add32 src 3) = omega arith in
    rw (e0, e1, e2, e3) (four dst src from m a p q)
  where
    four :
        (dst src : ℕ) (from m : Mem) (a : ℕ)
        → dst + 4 < 2 ^ 32
        → src + 4 < 2 ^ 32
        → write32 m dst (from src) (from (add32 src 1)) (from (add32 src 2)) (from (add32 src 3)) a
          ≡ placed dst src 4 from m a
    four dst src from m a p q = ground arith

module _ {W : Type 0} (bus : Bus W) (port : ℕ) (queue : W → List ℕ) (device : Queue bus port queue)
    (is_port : port < 2 ^ 16) where
  queue-outl : (v : ℕ) (w : W) → v < 2 ^ 32 → queue (outl bus port v w) ≡ queue w ++ v ∷ []
  unfolding outl
  queue-outl v w h =
      let p : port % 2 ^ 16 ≡ port = omega arith in
      let e : v % 2 ^ 32 ≡ v = omega arith in rw (outl, p, e) (device.queue-out32 v w)

  queue-outsl :
      (n src : ℕ) (m : Mem) (w : W)
      → ((a : ℕ) → m a < 256)
      → queue (outsl bus port src n m w) ≡ queue w ++ words m src n
  unfolding outsl
  queue-outsl zero src m w bytes = sym (append-nil _)
  queue-outsl (suc n) src m w bytes =
      queue-outsl n (add32 src 4) m (outl bus port (load32 m src) w) bytes
      ∙ ap (λ q. q ++ words m (add32 src 4) n)
          (queue-outl (load32 m src) w (load32_bound m src bytes))
      ∙ append_assoc (queue w) (load32 m src ∷ []) (words m (add32 src 4) n)

  inl_first :
      (w : W) (v : ℕ) (q : List ℕ)
      → v < 2 ^ 32
      → queue w ≡ v ∷ q
      → ((inl bus port w).0 ≡ v) × (queue (inl bus port w).1 ≡ q)
  unfolding inl
  inl_first w v q h e =
      let p : port % 2 ^ 16 ≡ port = omega arith in
      let (first, left) = device.in32_first w v q e in rw p (ground (arith, first), left)

  insl_none : (dst : ℕ) (m : Mem) (w : W) → insl bus port dst 0 (m, w) ≡ (m, w)
  unfolding insl
  insl_none dst m w = refl

  insl_step :
      (n dst : ℕ) (m : Mem) (w : W)
      → insl bus port dst (suc n) (m, w)
        ≡ insl bus port (add32 dst 4) n (store32 dst (inl bus port w).0 m, (inl bus port w).1)
  unfolding insl
  insl_step n dst m w = refl

  insl-placed :
      (n dst src : ℕ) (from m : Mem) (w : W) (rest : List ℕ)
      → ((a : ℕ) → from a < 256)
      → dst + 4 * n < 2 ^ 32
      → src + 4 * n < 2 ^ 32
      → queue w ≡ words from src n ++ rest
      → ((a : ℕ) → (insl bus port dst n (m, w)).0 a ≡ placed dst src (4 * n) from m a)
        × (queue (insl bus port dst n (m, w)).1 ≡ rest)
  insl-placed zero dst src from m w rest bytes p q e = rw (insl_none dst m w) (λ a. ground arith, e)
  insl-placed (suc n) dst src from m w rest bytes p q e =
      let (first, left) =
        inl_first w (load32 from src) (words from (add32 src 4) n ++ rest)
          (load32_bound from src bytes) e in
      let d : add32 dst 4 ≡ dst + 4 = omega arith in
      let s : add32 src 4 ≡ src + 4 = omega arith in
      let left' = rw s at left in
      let (mem, end) =
        insl-placed n (dst + 4) (src + 4) from (placed dst src 4 from m) (inl bus port w).1 rest
          bytes (omega arith) (omega arith) left' in
      rw
        (
          insl_step n dst m w,
          d,
          first,
          fun_ext (λ x. store32-load32 dst src from m x bytes (omega arith) (omega arith)),
        )
        (λ a. mem a ∙ ground arith, end)

  -- Through a device that queues 32-bit words, with an empty queue, outsl of `n` words and then insl
  -- of `n` words leave at `dst` the bytes that stood at `src`, also where the blocks overlap, and
  -- every other byte as it was, and the queue is empty again.
  pub insl-outsl :
      (n dst src : ℕ) (m : Mem) (w : W)
      → ((a : ℕ) → m a < 256)
      → dst + 4 * n < 2 ^ 32
      → src + 4 * n < 2 ^ 32
      → queue w ≡ []
      → ((a : ℕ)
          → (insl bus port dst n (m, outsl bus port src n m w)).0 a ≡ moved dst src (4 * n) m a)
        × (queue (insl bus port dst n (m, outsl bus port src n m w)).1 ≡ [])
  insl-outsl n dst src m w bytes p q e =
      insl-placed n dst src m m (outsl bus port src n m w) [] bytes p q
        (queue-outsl n src m w bytes ∙ rw (e, append-nil) refl)
