-- ===== src/Base/Bytes.antt =====
-- Memory as lists of bytes: `memcpy` into an array, 32-bit little-endian numbers, and the lemmas on
-- splitting a list that the framing code needs.
use Prim.Native.Nat.add
use mathlib.Core.List.{reverse, reverse-cons}
use iocp_chat_server.Base.{
  ℕ, zero, suc, ◌+◌, ◌*◌, ◌/◌, ◌%◌, ◌^◌, ◌≤◌, ◌<◌, ◌≡◌, refl, ap, ◌∙◌, List, [], ◌∷◌, ◌++◌, arith,
  length, length-append, length-take, length-drop, take, drop, get_or, append_assoc,
}

-- `array<char, n>::fill(0)`. Not an `abbrev`: at the program's size it is long.
unfoldable pub zeroed : ℕ → List ℕ
zeroed zero = []
zeroed (suc n) = 0 ∷ zeroed n

pub length-zeroed : (n : ℕ) → length (zeroed n) ≡ n
unfolding zeroed
length-zeroed zero = refl
length-zeroed (suc n) = ap suc (length-zeroed n)

-- `memcpy (buf + off, bytes, length bytes)`, where the range lies in `buf`.
unfoldable pub write_at : List ℕ → ℕ → List ℕ → List ℕ
write_at buf off bytes = take off buf ++ bytes ++ drop (off + length bytes) buf

-- An `int32_t` in memory, and the bit pattern that four bytes hold.
unfoldable pub bytes_of_int32 : ℕ → List ℕ
bytes_of_int32 w = w % 256 ∷ w / 256 % 256 ∷ w / 65536 % 256 ∷ w / 16777216 % 256 ∷ []

unfoldable pub int32_of_bytes : List ℕ → ℕ
int32_of_bytes bs =
    get_or bs 0 0 + 256 * get_or bs 1 0 + 65536 * get_or bs 2 0 + 16777216 * get_or bs 3 0

pub int32_of_bytes-bytes_of_int32 : (w : ℕ) → w < 2 ^ 32 → int32_of_bytes (bytes_of_int32 w) ≡ w
unfolding int32_of_bytes bytes_of_int32
int32_of_bytes-bytes_of_int32 w h = omega arith

pub length-bytes_of_int32 : (w : ℕ) → length (bytes_of_int32 w) ≡ 4
unfolding bytes_of_int32
length-bytes_of_int32 w = refl

module _ {ℓ} {A : Type ℓ} where
  pub take-append_left : (n : ℕ) (xs ys : List A) → n ≡ length xs → take n (xs ++ ys) ≡ xs
  take-append_left zero [] ys h = refl
  take-append_left zero (x ∷ xs) ys h = absurd (omega arith)
  take-append_left (suc n) [] ys h = absurd (omega arith)
  take-append_left (suc n) (x ∷ xs) ys h = ap (◌∷◌ x) (take-append_left n xs ys (omega arith))

  pub drop-append_left : (n : ℕ) (xs ys : List A) → n ≡ length xs → drop n (xs ++ ys) ≡ ys
  drop-append_left zero [] ys h = refl
  drop-append_left zero (x ∷ xs) ys h = absurd (omega arith)
  drop-append_left (suc n) [] ys h = absurd (omega arith)
  drop-append_left (suc n) (x ∷ xs) ys h = drop-append_left n xs ys (omega arith)

  pub take-append_le : (n : ℕ) (xs ys : List A) → n ≤ length xs → take n (xs ++ ys) ≡ take n xs
  take-append_le zero xs ys h = refl
  take-append_le (suc n) [] ys h = absurd (omega arith)
  take-append_le (suc n) (x ∷ xs) ys h = ap (◌∷◌ x) (take-append_le n xs ys (omega arith))

  pub drop-nil : (n : ℕ) → drop {A = A} n [] ≡ []
  drop-nil zero = refl
  drop-nil (suc n) = refl

  pub drop-drop : (m n : ℕ) (xs : List A) → drop n (drop m xs) ≡ drop (m + n) xs
  drop-drop zero n xs = rw (add.zero n)
  drop-drop (suc m) n [] = rw (add.suc m n) (drop-nil n)
  drop-drop (suc m) n (x ∷ xs) = rw (add.suc m n) (drop-drop m n xs)

  take-nil : (n : ℕ) → take {A = A} n [] ≡ []
  take-nil zero = refl
  take-nil (suc n) = refl

  pub take-all : (n : ℕ) (xs : List A) → length xs ≤ n → take n xs ≡ xs
  take-all zero [] h = refl
  take-all zero (x ∷ xs) h = absurd (omega arith)
  take-all (suc n) [] h = refl
  take-all (suc n) (x ∷ xs) h = ap (◌∷◌ x) (take-all n xs (omega arith))

  pub take-take-drop : (m n : ℕ) (xs : List A) → take m xs ++ take n (drop m xs) ≡ take (m + n) xs
  take-take-drop zero n xs = rw (add.zero n)
  take-take-drop (suc m) n [] = rw (add.suc m n) (ground (arith, take-nil n))
  take-take-drop (suc m) n (x ∷ xs) = rw (add.suc m n) (ap (◌∷◌ x) (take-take-drop m n xs))

  pub length-reverse : (xs : List A) → length (reverse xs) ≡ length xs
  length-reverse [] = refl
  length-reverse (x ∷ xs) =
      rw (reverse-cons x xs, length-append (reverse xs) (x ∷ []), length-reverse xs) (omega arith)

-- A write within the array keeps its size.
pub length-write_at :
    (buf : List ℕ) (off : ℕ) (bytes : List ℕ)
    → off + length bytes ≤ length buf
    → length (write_at buf off bytes) ≡ length buf
unfolding write_at
length-write_at buf off bytes h =
    let rest = drop (off + length bytes) buf in
    length-append (take off buf ++ bytes) rest
    ∙ omega (
      arith,
      length-append (take off buf) bytes,
      length-take off buf,
      length-drop (off + length bytes) buf,
    )

-- A write behind what is there: the array holds `p`, and `bytes` land right after it.
pub write_at-append :
    (p tail bytes : List ℕ) (buf : List ℕ) (off : ℕ)
    → buf ≡ p ++ tail
    → off ≡ length p
    → write_at buf off bytes ≡ (p ++ bytes) ++ drop (length bytes) tail
unfolding write_at
write_at-append p tail bytes buf off e h = rw (
  e,
  take-append_left off p tail h,
  ← drop-drop off (length bytes) (p ++ tail),
  drop-append_left off p tail h,
  append_assoc p bytes (drop (length bytes) tail),
)
