-- ===== src/Libc.antt =====
-- kernel/libc/string.cpp: the memory and string routines. Memory is a function from addresses to
-- bytes; no object reaches past the end of the address space, so pointers do not wrap around. A
-- loop that runs to the end of a string has fuel for the whole address space.
pub mod Move
pub mod Strings
mod Tests
use mesa_os.Prelude.{
  ℕ, zero, suc, ◌+◌, ◌-◌, ◌%◌, ◌^◌, Bool, true, false, not, ◌&&◌, Option, none, some, ltb, ◌==◌,
  if◌then◌else◌, update,
}

abbrev pub Memory : Type 0
Memory = ℕ → ℕ

-- The loop of `memset`, over `i` with `n` rounds left.
pub set_bytes : Memory → ℕ → ℕ → ℕ → ℕ → Memory
set_bytes m buf value i zero = m
set_bytes m buf value i (suc n) = set_bytes (update m (buf + i) (value % 256)) buf value (i + 1) n

pub memset : Memory → ℕ → ℕ → ℕ → Memory
memset m buf value size = set_bytes m buf value 0 size

-- The loop of `memcpy`, and the forward one of `memmove`.
pub copy_forward : Memory → ℕ → ℕ → ℕ → ℕ → Memory
copy_forward m dst src i zero = m
copy_forward m dst src i (suc n) = copy_forward (update m (dst + i) (m (src + i))) dst src (i + 1) n

pub memcpy : Memory → ℕ → ℕ → ℕ → Memory
memcpy m dst src size = copy_forward m dst src 0 size

-- The backward loop of `memmove`, with `i` bytes left.
pub copy_backward : Memory → ℕ → ℕ → ℕ → Memory
copy_backward m dst src zero = m
copy_backward m dst src (suc i) = copy_backward (update m (dst + i) (m (src + i))) dst src i

pub memmove : Memory → ℕ → ℕ → ℕ → Memory
memmove m dst src n =
    if ltb dst src
    then copy_forward m dst src 0 n
    else if ltb src dst
    then copy_backward m dst src n
    else m

-- The result -1, as a 32-bit word in two's complement.
abbrev pub minus_one : ℕ
minus_one = 2 ^ 32 - 1

-- The loop of `memcmp`, over `i` with `n` rounds left.
pub memcmp_from : Memory → ℕ → ℕ → ℕ → ℕ → ℕ
memcmp_from m s1 s2 i zero = 0
memcmp_from m s1 s2 i (suc n) =
    let rest = memcmp_from m s1 s2 (i + 1) n in
    if ltb (m (s1 + i)) (m (s2 + i))
    then minus_one
    else if ltb (m (s2 + i)) (m (s1 + i))
    then 1
    else rest

pub memcmp : Memory → ℕ → ℕ → ℕ → ℕ
memcmp m s1 s2 n = memcmp_from m s1 s2 0 n

-- The fuel for a loop over a string.
abbrev pub address_space : ℕ
address_space = 2 ^ 32

pub strlen_from : Memory → ℕ → ℕ → ℕ → ℕ
strlen_from m str len zero = len
strlen_from m str len (suc f) =
    let rest = strlen_from m str (len + 1) f in if m (str + len) == 0 then len else rest

pub strlen : Memory → ℕ → ℕ
strlen m str = strlen_from m str 0 address_space

-- The difference of two characters, as a 32-bit word in two's complement.
abbrev pub difference : ℕ → ℕ → ℕ
difference a b = (a + 2 ^ 32 - b) % 2 ^ 32

pub strcmp_from : Memory → ℕ → ℕ → ℕ → ℕ
strcmp_from m s1 s2 zero = difference (m s1) (m s2)
strcmp_from m s1 s2 (suc f) =
    let rest = strcmp_from m (s1 + 1) (s2 + 1) f in
    if not (m s1 == 0) && m s1 == m s2 then rest else difference (m s1) (m s2)

pub strcmp : Memory → ℕ → ℕ → ℕ
strcmp m s1 s2 = strcmp_from m s1 s2 address_space

pub strcpy_from : Memory → ℕ → ℕ → ℕ → Memory
strcpy_from m dst src zero = m
strcpy_from m dst src (suc f) =
    let m' = update m dst (m src) in
    let rest = strcpy_from m' (dst + 1) (src + 1) f in if m src == 0 then m' else rest

pub strcpy : Memory → ℕ → ℕ → Memory
strcpy m dst src = strcpy_from m dst src address_space

-- The end of `dst` is found as in `strlen`.
pub strcat : Memory → ℕ → ℕ → Memory
strcat m dst src = strcpy m (dst + strlen m dst) src

-- The place of the first `c`, or null; `c` is a byte.
pub strchr_from : Memory → ℕ → ℕ → ℕ → Option ℕ
strchr_from m s c zero = none
strchr_from m s c (suc f) =
    let rest = strchr_from m (s + 1) c f in
    if m s == c then some s else if m s == 0 then none else rest

pub strchr : Memory → ℕ → ℕ → Option ℕ
strchr m s c = strchr_from m s c address_space

pub strncmp : Memory → ℕ → ℕ → ℕ → ℕ
strncmp m s1 s2 zero = 0
strncmp m s1 s2 (suc n) =
    let rest = strncmp m (s1 + 1) (s2 + 1) n in
    if not (m s1 == 0) && m s1 == m s2 then rest else difference (m s1) (m s2)

-- The first loop of `strncpy`, over `i` with `n` rounds left; the second one fills up with zeros.
pub strncpy_from : Memory → ℕ → ℕ → ℕ → ℕ → Memory
strncpy_from m dst src i zero = m
strncpy_from m dst src i (suc n) =
    let rest = strncpy_from (update m (dst + i) (m (src + i))) dst src (i + 1) n in
    if m (src + i) == 0 then set_bytes m dst 0 i (suc n) else rest

pub strncpy : Memory → ℕ → ℕ → ℕ → Memory
strncpy m dst src n = strncpy_from m dst src 0 n

-- The loop of `strncat`, with the zero that is written after it.
pub strncat_from : Memory → ℕ → ℕ → ℕ → ℕ → Memory
strncat_from m d src i zero = update m (d + i) 0
strncat_from m d src i (suc n) =
    let rest = strncat_from (update m (d + i) (m (src + i))) d src (i + 1) n in
    if m (src + i) == 0 then update m (d + i) 0 else rest

pub strncat : Memory → ℕ → ℕ → ℕ → Memory
strncat m dst src n = strncat_from m (dst + strlen m dst) src 0 n
