-- ===== src/Base/Bytes.antt =====
-- Little-endian integers, as encoding/binary lays them out. A byte is a number below 256.
use channel.Base.Lists.{length, All, All-take, length-take, take}
use Prim.Native.Nat.{ℕ, zero, suc, ◌+◌, ◌*◌, ◌/◌, ◌%◌, ◌^◌, ◌<◌, ◌≤◌}
use mathlib.Core.Path.{◌≡◌, refl, ap}
use mathlib.Core.List.{List, [], ◌∷◌}
use native.Mathlib.Nat.{pow-suc}
use native.Mathlib.Omega.{arith}

abbrev pub Bytes : Type 0
Bytes = List ℕ

abbrev pub IsByte : ℕ → Type 0
IsByte b = b < 256

abbrev pub u32_mod : ℕ
u32_mod = 2 ^ 32

-- `binary.LittleEndian.PutUint16`, `PutUint32` and `PutUint64` at widths 2, 4 and 8.
unfoldable pub put_le : ℕ → ℕ → Bytes
put_le zero n = []
put_le (suc w) n = (n % 256) ∷ put_le w (n / 256)

-- `binary.LittleEndian.Uint16` and so on, of all bytes given.
unfoldable pub get_le : Bytes → ℕ
get_le [] = 0
get_le (b ∷ bs) = b + 256 * get_le bs

pub length-put_le : (w n : ℕ) → length (put_le w n) ≡ w
unfolding put_le
length-put_le zero n = refl
length-put_le (suc w) n = ap suc (length-put_le w (n / 256))

pub put_le-IsByte : (w n : ℕ) → All IsByte (put_le w n)
unfolding put_le
put_le-IsByte zero n = tt
put_le-IsByte (suc w) n = (omega arith, put_le-IsByte w (n / 256))

pub get_le-put_le : (w n : ℕ) → n < 256 ^ w → get_le (put_le w n) ≡ n
unfolding put_le get_le
get_le-put_le zero n h = omega arith
get_le-put_le (suc w) n h = omega (arith, get_le-put_le w (n / 256) (omega (arith, pow-suc 256 w)))

pub get_le-lt : (bs : Bytes) → All IsByte bs → get_le bs < 256 ^ length bs
unfolding get_le
get_le-lt [] h = omega arith
get_le-lt (b ∷ bs) h = omega (arith, pow-suc 256 (length bs), get_le-lt bs h.1, h.0)

-- Bytes are determined by the number that they encode.
put_le-get_le : (bs : Bytes) → All IsByte bs → put_le (length bs) (get_le bs) ≡ bs
unfolding put_le get_le
put_le-get_le [] h = refl
put_le-get_le (b ∷ bs) h =
    let low : (b + 256 * get_le bs) % 256 ≡ b = omega (arith, h.0) in
    let high : (b + 256 * get_le bs) / 256 ≡ get_le bs = omega (arith, h.0) in
    rw (low, high, put_le-get_le bs h.1)

-- A field of `w` bytes in front of a buffer.
pub put_le-take :
    (w : ℕ) (bs : Bytes) → All IsByte bs → w ≤ length bs → put_le w (get_le (take w bs)) ≡ take w bs
put_le-take w bs h room =
    let e : length (take w bs) ≡ w = omega (arith, length-take w bs) in
    rw e at (put_le-get_le (take w bs) (All-take IsByte w bs h))
