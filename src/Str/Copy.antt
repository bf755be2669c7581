-- ===== src/Str/Copy.antt =====
-- memset and memmove of kernel/string.c against their pointwise descriptions.
use oslab.Prelude.{
  ℕ, zero, suc, ◌+◌, ◌-◌, ◌%◌, ◌≤◌, ◌≡◌, ◌⊎◌, Bool, ◌&&◌, arith, leb, ltb, if◌then◌else◌,
}
use oslab.Str.{Memory, store, memset_loop, memset, forward, backward, memmove}

-- the address `a` lies in the `n` bytes from `p`
abbrev pub in_range : ℕ → ℕ → ℕ → Bool
in_range p n a = leb p a && ltb a (p + n)

memset_loop_lem :
    (n dst i c a : ℕ) (m : Memory)
    → memset_loop n dst i c m a ≡ (if in_range (dst + i) n a then c % 256 else m a)
unfolding memset_loop
memset_loop_lem zero dst i c a m = ground arith
memset_loop_lem (suc n) dst i c a m =
    ground (arith, memset_loop_lem n dst (i + 1) c a (store m (dst + i) (c % 256)))

-- After memset, each of the n bytes from dst is the low byte of c, and every other byte is as before.
pub memset_lem :
    (m : Memory) (dst c n a : ℕ) → memset m dst c n a ≡ (if in_range dst n a then c % 256 else m a)
unfolding memset
memset_lem m dst c n a = ground (arith, memset_loop_lem n dst 0 c a m)

pub forward_lem :
    (n d s a : ℕ) (m : Memory)
    → (d ≤ s) ⊎ (s + n ≤ d)
    → forward n d s m a ≡ (if in_range d n a then m (s + (a - d)) else m a)
unfolding forward
forward_lem zero d s a m h = ground arith
forward_lem (suc n) d s a m h = ground (arith, forward_lem n (d + 1) (s + 1) a (store m d (m s)))

-- one round of the backward loop; `de` and `se` are the ends of the ranges
backward_round :
    (n de se a x : ℕ) (m : Memory)
    → suc n ≤ se
    → se ≤ de
    → let m' = store m (de - 1) (m (se - 1)) in
      x ≡ (if in_range (de - 1 - n) n a then m' (se - 1 - (de - 1 - a)) else m' a)
      → x ≡ (if in_range (de - suc n) (suc n) a then m (se - (de - a)) else m a)
backward_round n de se a x m h k e = ground arith

pub backward_lem :
    (n de se a : ℕ) (m : Memory)
    → n ≤ se
    → se ≤ de
    → backward n de se m a ≡ (if in_range (de - n) n a then m (se - (de - a)) else m a)
unfolding backward
backward_lem zero de se a m h k = ground arith
backward_lem (suc n) de se a m h k =
    backward_round n de se a _ m h k (
      backward_lem n (de - 1) (se - 1) a (store m (de - 1) (m (se - 1))) (omega arith)
        (omega arith))

-- After memmove, the n bytes from dst are the bytes that stood at src before the call, and every
-- other byte is as before, however the two ranges overlap.
pub memmove_lem :
    (m : Memory) (dst src n a : ℕ)
    → memmove m dst src n a ≡ (if in_range dst n a then m (src + (a - dst)) else m a)
unfolding memmove
memmove_lem m dst src n a =
    ground (arith, forward_lem n dst src a m, backward_lem n (dst + n) (src + n) a m)
