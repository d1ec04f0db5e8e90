-- ===== src/Strings.antt =====
-- Bytes in memory: string.c, with stosb and stosl of x86.h. A byte is a number below 256, a memory
-- gives the byte at each address, and no object runs over the end of the address space.
pub mod Move
pub mod Fill
pub mod Copy
use tron_boss_os.Base.{
  ℕ, zero, suc, ◌+◌, ◌-◌, ◌*◌, ◌/◌, ◌%◌, Bool, true, false, ◌&&◌, ◌||◌, not, Option, none, some,
  ◌==◌, ltb, leb, if◌then◌else◌, ℤ, pos, negsuc, update,
}

abbrev pub Memory : Type 0
Memory = ℕ → ℕ

-- The difference of two bytes
abbrev pub minus : ℕ → ℕ → ℤ
minus a b = if leb b a then pos (a - b) else negsuc (b - a - 1)

-- `rep stosb` of the low byte of `value`
unfoldable pub stosb : (addr value cnt : ℕ) → Memory → Memory
stosb addr value zero m = m
stosb addr value (suc cnt) m = stosb (suc addr) value cnt (update m addr (value % 256))

-- A word is stored with its low byte first.
abbrev pub store_word : (addr value : ℕ) → Memory → Memory
store_word addr value m =
    update
      (update (update (update m addr (value % 256)) (addr + 1) (value / 256 % 256)) (addr + 2)
        (value / 65536 % 256))
      (addr + 3) (value / 16777216 % 256)

-- `rep stosl`
unfoldable pub stosl : (addr value cnt : ℕ) → Memory → Memory
stosl addr value zero m = m
stosl addr value (suc cnt) m = stosl (addr + 4) value cnt (store_word addr value m)

-- `c` is the argument as an unsigned number: the shifted bytes do not overlap, so their sum is `|`.
unfoldable pub memset : (dst c n : ℕ) → Memory → Memory
memset dst c n m =
    let b = c % 256 in
    if (dst % 4 == 0) && (n % 4 == 0)
    then stosl dst (b * 16777216 + b * 65536 + b * 256 + b) (n / 4) m
    else stosb dst c n m

unfoldable pub memcmp : (m : Memory) (v1 v2 n : ℕ) → ℤ
memcmp m v1 v2 zero = pos 0
memcmp m v1 v2 (suc n) =
    let rest = memcmp m (suc v1) (suc v2) n in if m v1 == m v2 then rest else minus (m v1) (m v2)

-- `while(n-- > 0) *d++ = *s++`
unfoldable pub copy_up : (d s n : ℕ) → Memory → Memory
copy_up d s zero m = m
copy_up d s (suc n) m = copy_up (suc d) (suc s) n (update m d (m s))

-- `while(n-- > 0) *--d = *--s`, which begins behind the last byte
unfoldable pub copy_down : (d s n : ℕ) → Memory → Memory
copy_down d s zero m = m
copy_down d s (suc n) m = copy_down (d - 1) (s - 1) n (update m (d - 1) (m (s - 1)))

unfoldable pub memmove : (dst src n : ℕ) → Memory → Memory
memmove dst src n m =
    if ltb src dst && ltb dst (src + n)
    then copy_down (dst + n) (src + n) n m
    else copy_up dst src n m

unfoldable pub strncmp : (m : Memory) (p q n : ℕ) → ℤ
strncmp m p q zero = pos 0
strncmp m p q (suc n) =
    let rest = strncmp m (suc p) (suc q) n in
    if not (m p == 0) && (m p == m q) then rest else minus (m p) (m q)

-- The second loop of strncpy, with `n` bytes to go
unfoldable pub pad : (s n : ℕ) → Memory → Memory
pad s zero m = m
pad s (suc n) m = pad (suc s) n (update m s 0)

-- The loops of strncpy, with `n` bytes to go
unfoldable pub strncpy_loop : (s t n : ℕ) → Memory → Memory
strncpy_loop s t zero m = m
strncpy_loop s t (suc n) m =
    let m' = update m s (m t) in
    let rest = strncpy_loop (suc s) (suc t) n m' in if m t == 0 then pad (suc s) n m' else rest

unfoldable pub strncpy : (s t : ℕ) (n : ℤ) → Memory → Memory
strncpy s t (negsuc n) m = m
strncpy s t (pos n) m = strncpy_loop s t n m

-- The loop of safestrcpy and the NUL behind it, where `--n` is still to be positive `n` times
unfoldable pub safestrcpy_loop : (s t n : ℕ) → Memory → Memory
safestrcpy_loop s t zero m = update m s 0
safestrcpy_loop s t (suc n) m =
    let m' = update m s (m t) in
    let rest = safestrcpy_loop (suc s) (suc t) n m' in
    if m t == 0 then update m' (suc s) 0 else rest

unfoldable pub safestrcpy : (s t : ℕ) (n : ℤ) → Memory → Memory
safestrcpy s t (negsuc n) m = m
safestrcpy s t (pos zero) m = m
safestrcpy s t (pos (suc n)) m = safestrcpy_loop s t n m

-- `for(n = 0; s[n]; n++)` for at most `fuel` bytes
unfoldable pub strlen_loop : (fuel : ℕ) (m : Memory) (s n : ℕ) → Option ℕ
strlen_loop zero m s n = none
strlen_loop (suc fuel) m s n =
    let rest = strlen_loop fuel m s (suc n) in if m (s + n) == 0 then some n else rest

unfoldable pub strlen : (fuel : ℕ) (m : Memory) (s : ℕ) → Option ℕ
strlen fuel m s = strlen_loop fuel m s 0
