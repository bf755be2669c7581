-- ===== src/Str.antt =====
-- kernel/string.c over a byte memory: each function takes the memory and returns the new one, or
-- the value that it computes. Addresses do not wrap. A loop `while(n-- > 0)` recurs on `n`; an `int`
-- count that is negative behaves as 0.
pub mod Copy
pub mod Compare
pub mod Terminated
mod Tests
use oslab.Prelude.{
  ℕ, zero, suc, ◌+◌, ◌-◌, ◌%◌, Bool, true, false, not, ◌&&◌, ◌||◌, Option, none, some, ltb, ◌==◌,
  if◌then◌else◌,
}
use oslab.Prelude.Int.{ℤ, pos, sub_ℕ}

-- the byte at each address
abbrev pub Memory : Type 0
Memory = ℕ → ℕ

abbrev pub store : Memory → ℕ → ℕ → Memory
store m p c a = if p == a then c else m a

-- `for(i = 0; i < n; i++) cdst[i] = c;` with `rounds` left; the assignment truncates to a char
unfoldable pub memset_loop : ℕ → ℕ → ℕ → ℕ → Memory → Memory
memset_loop zero dst i c m = m
memset_loop (suc rounds) dst i c m = memset_loop rounds dst (i + 1) c (store m (dst + i) (c % 256))

unfoldable pub memset : Memory → ℕ → ℕ → ℕ → Memory
unfolding memset_loop
memset m dst c n = memset_loop n dst 0 c m

unfoldable pub memcmp : Memory → ℕ → ℕ → ℕ → ℤ
memcmp m s1 s2 zero = pos 0
memcmp m s1 s2 (suc n) =
    let rest = memcmp m (s1 + 1) (s2 + 1) n in
    if not (m s1 == m s2) then sub_ℕ (m s1) (m s2) else rest

-- `while(n-- > 0) *d++ = *s++;`
unfoldable pub forward : ℕ → ℕ → ℕ → Memory → Memory
forward zero d s m = m
forward (suc n) d s m = forward n (d + 1) (s + 1) (store m d (m s))

-- `while(n-- > 0) *--d = *--s;`
unfoldable pub backward : ℕ → ℕ → ℕ → Memory → Memory
backward zero d s m = m
backward (suc n) d s m = backward n (d - 1) (s - 1) (store m (d - 1) (m (s - 1)))

unfoldable pub memmove : Memory → ℕ → ℕ → ℕ → Memory
unfolding forward backward
memmove m dst src n =
    if n == 0
    then m
    else if ltb src dst && ltb dst (src + n)
    then backward n (dst + n) (src + n) m
    else forward n dst src m

unfoldable pub memcpy : Memory → ℕ → ℕ → ℕ → Memory
unfolding memmove
memcpy m dst src n = memmove m dst src n

unfoldable pub strncmp : Memory → ℕ → ℕ → ℕ → ℤ
strncmp m p q zero = pos 0
strncmp m p q (suc n) =
    let rest = strncmp m (p + 1) (q + 1) n in
    if not (m p == 0) && m p == m q then rest else sub_ℕ (m p) (m q)

-- `while(n-- > 0) *s++ = 0;`
zero_fill : ℕ → ℕ → Memory → Memory
zero_fill zero s m = m
zero_fill (suc n) s m = zero_fill n (s + 1) (store m s 0)

-- both loops of strncpy: the first goes over into the second when it has copied a NUL
unfoldable pub strncpy : Memory → ℕ → ℕ → ℕ → Memory
unfolding zero_fill
strncpy m s t zero = m
strncpy m s t (suc n) =
    let rest = strncpy (store m s (m t)) (s + 1) (t + 1) n in
    if m t == 0 then zero_fill n (s + 1) (store m s (m t)) else rest

-- `while(--n > 0 && (*s++ = *t++) != 0) ; *s = 0;` with `n` already decremented
safestrcpy_loop : ℕ → ℕ → ℕ → Memory → Memory
safestrcpy_loop zero s t m = store m s 0
safestrcpy_loop (suc n) s t m =
    let rest = safestrcpy_loop n (s + 1) (t + 1) (store m s (m t)) in
    if m t == 0 then store (store m s (m t)) (s + 1) 0 else rest

unfoldable pub safestrcpy : Memory → ℕ → ℕ → ℕ → Memory
unfolding safestrcpy_loop
safestrcpy m s t zero = m
safestrcpy m s t (suc n) = safestrcpy_loop n s t m

-- `for(n = 0; s[n]; n++)` on fuel; `none` means that the fuel ran out
strlen_loop : ℕ → Memory → ℕ → ℕ → Option ℕ
strlen_loop zero m s n = none
strlen_loop (suc fuel) m s n =
    let rest = strlen_loop fuel m s (n + 1) in if m (s + n) == 0 then some n else rest

unfoldable pub strlen : ℕ → Memory → ℕ → Option ℕ
unfolding strlen_loop
strlen fuel m s = strlen_loop fuel m s 0
