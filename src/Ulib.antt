-- ===== src/Ulib.antt =====
-- user/ulib.c over the byte memory of a process. A loop over a string has fuel, and `none` means that it ran
-- out. `read` of a terminal or a file takes from the list of the bytes that are there, one at a time.
pub mod Strings
pub mod Lines
pub mod Numbers
mod Tests
use oslab.Prelude.{
  ℕ, zero, suc, ◌+◌, ◌-◌, ◌*◌, ◌%◌, ◌^◌, Bool, true, false, not, ◌&&◌, ◌||◌, List, [], ◌∷◌, Option,
  none, some, ltb, leb, ◌==◌, if◌then◌else◌,
}
use oslab.Prelude.Int.{ℤ, pos, sub_ℕ}
use oslab.Str.{Memory, store, memset_loop, forward, backward}

-- `while((*s++ = *t++) != 0) ;`
unfoldable pub strcpy : ℕ → Memory → ℕ → ℕ → Option Memory
strcpy zero m s t = none
strcpy (suc fuel) m s t =
    let rest = strcpy fuel (store m s (m t)) (s + 1) (t + 1) in
    if m t == 0 then some (store m s (m t)) else rest

unfoldable pub strcmp : ℕ → Memory → ℕ → ℕ → Option ℤ
strcmp zero m p q = none
strcmp (suc fuel) m p q =
    let rest = strcmp fuel m (p + 1) (q + 1) in
    if not (m p == 0) && m p == m q then rest else some (sub_ℕ (m p) (m q))

strlen_loop : ℕ → Memory → ℕ → ℕ → Option ℕ
strlen_loop zero m s n = none
strlen_loop (suc fuel) m s n =
    let rest = strlen_loop fuel m s (n + 1) in if m (s + n) == 0 then some n else rest

unfoldable pub strlen : ℕ → Memory → ℕ → Option ℕ
unfolding strlen_loop
strlen fuel m s = strlen_loop fuel m s 0

unfoldable pub memset : Memory → ℕ → ℕ → ℕ → Memory
unfolding memset_loop
memset m dst c n = memset_loop n dst 0 c m

-- the address of the character, or 0
unfoldable pub strchr : ℕ → Memory → ℕ → ℕ → Option ℕ
strchr zero m s c = none
strchr (suc fuel) m s c =
    let rest = strchr fuel m (s + 1) c in
    if m s == 0 then some 0 else if m s == c then some s else rest

-- The loop of gets with `rounds` left: the memory, the end of what it stored, and the bytes that are left.
pub gets_loop : ℕ → Memory → ℕ → List ℕ → Memory × ℕ × List ℕ
gets_loop zero m p input = (m, p, input)
gets_loop (suc rounds) m p [] = (m, p, [])
gets_loop (suc rounds) m p (c ∷ input) =
    let rest = gets_loop rounds (store m p c) (p + 1) input in
    if c == 10 || c == 13 then (store m p c, p + 1, input) else rest

unfoldable pub gets : Memory → ℕ → ℕ → List ℕ → Memory × List ℕ
unfolding gets_loop
gets m buf max input =
    let (more, p, rest) = gets_loop (max - 1) m buf input in (store more p 0, rest)

pub atoi_loop : ℕ → Memory → ℕ → ℕ → Option ℕ
atoi_loop zero m s n = none
atoi_loop (suc fuel) m s n =
    let rest = atoi_loop fuel m (s + 1) ((n * 10 + m s - 48) % 2 ^ 32) in
    if leb 48 (m s) && leb (m s) 57 then rest else some n

unfoldable pub atoi : ℕ → Memory → ℕ → Option ℕ
unfolding atoi_loop
atoi fuel m s = atoi_loop fuel m s 0

-- A negative `n` behaves as 0.
unfoldable pub memmove : Memory → ℕ → ℕ → ℕ → Memory
unfolding forward backward
memmove m vdst vsrc n =
    if ltb vdst vsrc then forward n vdst vsrc m else backward n (vdst + n) (vsrc + n) m

unfoldable pub memcmp : Memory → ℕ → ℕ → ℕ → ℤ
memcmp m p1 p2 zero = pos 0
memcmp m p1 p2 (suc n) =
    let rest = memcmp m (p1 + 1) (p2 + 1) n in
    if not (m p1 == m p2) then sub_ℕ (m p1) (m p2) else rest

unfoldable pub memcpy : Memory → ℕ → ℕ → ℕ → Memory
unfolding memmove
memcpy m dst src n = memmove m dst src n
