-- ===== src/PageAlloc/Bitmap/Laws.antt =====
-- port/src/bitmapalloc.rs: writing a bit of a byte, and the lowest clear bit of one, by tables over
-- all bytes.
use r9x.Prelude.{
  ℕ, zero, suc, ◌+◌, ◌*◌, ◌/◌, ◌%◌, ◌<◌, ◌≡◌, ◌≢◌, refl, Bool, true, false, not, ◌&&◌, ◌||◌, arith,
  ltb, ◌==◌, if◌then◌else◌, ltb→lt,
}
use r9x.PageAlloc.Bitmap.{bit_set, put_bit, trailing_ones}

-- Whether a test holds of every number below a bound.
every : (ℕ → Bool) → ℕ → Bool
every test zero = true
every test (suc top) = if test top then every test top else false

every-below : (test : ℕ → Bool) (top n : ℕ) → n < top → every test top ≡ true → test n ≡ true
unfolding every
every-below test zero n below h = absurd (omega arith)
every-below test (suc top) n below h = ground (arith, every-below test top n)

bool_eq : Bool → Bool → Bool
bool_eq true b = b
bool_eq false b = not b

bool_eq_sound : (a b : Bool) → bool_eq a b ≡ true → a ≡ b
unfolding bool_eq
bool_eq_sound a b h = ground arith

-- What is checked of a byte, two bit positions and a value.
holds_at : ℕ → ℕ → ℕ → Bool → Bool
holds_at byte j i v =
    let written = put_bit byte i v in
    bool_eq (bit_set written j) (if i == j then v else bit_set byte j) && ltb written 256

-- The four as one number below 256 * 8 * 8 * 2.
abbrev row : ℕ → Bool
row n = holds_at (n / 128) (n / 16 % 8) (n / 2 % 8) (n % 2 == 1)

table : every row 32768 ≡ true
unfolding every bool_eq holds_at
table = refl

abbrev digit : Bool → ℕ
digit true = 1
digit false = 0

parity : (m : ℕ) (v : Bool) → ((m * 2 + digit v) % 2 == 1) ≡ v
parity m true = ground arith
parity m false = ground arith

holds : (byte j i : ℕ) (v : Bool) → byte < 256 → j < 8 → i < 8 → holds_at byte j i v ≡ true
holds byte j i v hb hj hi = cc (byte_is, j_is, i_is, v_is, every-below row 32768 n small table)
  where
    m : ℕ
    m = byte * 64 + j * 8 + i

    n : ℕ
    n = m * 2 + digit v

    bound : digit v < 2
    bound = ground arith

    small : n < 32768
    small = omega (arith, bound)

    byte_is : n / 128 ≡ byte
    byte_is = omega (arith, bound)

    j_is : n / 16 % 8 ≡ j
    j_is = omega (arith, bound)

    i_is : n / 2 % 8 ≡ i
    i_is = omega (arith, bound)

    v_is : (n % 2 == 1) ≡ v
    v_is = parity m v

-- A write changes the bit that it names, and no other; the result is a byte.
pub bit-put :
    (byte i j : ℕ) (v : Bool)
    → byte < 256
    → i < 8
    → j < 8
    → bit_set (put_bit byte i v) j ≡ (if i == j then v else bit_set byte j)
unfolding holds_at
bit-put byte i j v hb hi hj = bool_eq_sound _ _ (and_left _ _ (holds byte j i v hb hj hi))
  where
    and_left : (a b : Bool) → (a && b) ≡ true → a ≡ true
    and_left a b h = ground arith

pub put_bit-lt : (byte i : ℕ) (v : Bool) → byte < 256 → i < 8 → put_bit byte i v < 256
unfolding holds_at
put_bit-lt byte i v hb hi = ltb→lt _ _ (and_right _ _ (holds byte i i v hb hi hi))
  where
    and_right : (a b : Bool) → (a && b) ≡ true → b ≡ true
    and_right a b h = ground arith

-- `byte |= 1 << trailing_ones` takes the lowest clear bit of a byte that is not full.
lowest : ℕ → Bool
lowest byte =
    byte == 255
    || (ltb (trailing_ones byte) 8
        && not (bit_set byte (trailing_ones byte))
        && every (bit_set byte) (trailing_ones byte))

lowest_table : every lowest 256 ≡ true
unfolding every lowest trailing_ones
lowest_table = refl

pub record IsLowestClear (byte i : ℕ) : Type 0 where
  pub in_byte : i < 8
  pub clear : bit_set byte i ≡ false
  pub full_below : (j : ℕ) → j < i → bit_set byte j ≡ true

pub trailing_ones-IsLowestClear :
    (byte : ℕ) → byte < 256 → byte ≢ 255 → IsLowestClear byte (trailing_ones byte)
unfolding lowest
trailing_ones-IsLowestClear byte hb ne = record {
  in_byte = ground (arith, h);
  clear = ground (arith, h);
  full_below = λ j lt. every-below (bit_set byte) (trailing_ones byte) j lt (ground (arith, h));
}
  where
    h : lowest byte ≡ true
    h = every-below lowest 256 byte hb lowest_table

pub bit_set-full : (t : ℕ) → t < 8 → bit_set 255 t ≡ true
unfolding every
bit_set-full t h = every-below (bit_set 255) 8 t h refl
