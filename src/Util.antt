-- ===== src/Util.antt =====
-- Util.h: ranges, the test for an overflow, and the conversion of texts. SAFE_DELETE stands in
-- IocpServer.antt.
use iocp_chat_server.Base.{
  ℕ, ◌+◌, ◌-◌, ◌*◌, ◌/◌, ◌%◌, ◌^◌, ◌≡◌, ◌<◌, ◌↔◌, Bool, true, false, not, ◌&&◌, ◌==◌, ltb,
  if◌then◌else◌, length, arith, List, [], ◌∷◌, refl,
}
use iocp_chat_server.Base.Int.{ℤ, ltb_ℤ, ◌≤ℤ◌}
use iocp_chat_server.Base.Text.{Text}

-- The macros `max` and `min` of Windows.
unfoldable pub max_ℤ : ℤ → ℤ → ℤ
max_ℤ a b = if ltb_ℤ b a then a else b

unfoldable pub min_ℤ : ℤ → ℤ → ℤ
min_ℤ a b = if ltb_ℤ a b then a else b

unfoldable pub fix_in_range : ℤ → ℤ → ℤ → ℤ
unfolding max_ℤ min_ℤ
fix_in_range minimum x maximum = min_ℤ maximum (max_ℤ x minimum)

abbrev pub eq_ℤ : ℤ → ℤ → Bool
eq_ℤ a b = not (ltb_ℤ a b) && not (ltb_ℤ b a)

unfoldable pub is_in_range : ℤ → ℤ → ℤ → Bool
unfolding fix_in_range
is_in_range minimum x maximum = if eq_ℤ x (fix_in_range minimum x maximum) then true else false

-- `x & 0x80000000` for an `unsigned int`
abbrev pub top_bit : ℕ → ℕ
top_bit x = 2 ^ 31 * (x / 2 ^ 31 % 2)

unfoldable pub is_over_flower_uint : ℕ → ℕ → Bool
is_over_flower_uint original add =
    let after = (original + add) % 2 ^ 32 in
    if not (top_bit original == top_bit after) then false else true

-- What a conversion leaves in its destination: nothing written, this text with its zero, or
-- characters that Windows does not specify.
pub data Converted : Type 0 where
  unchanged : Converted
  holds : Text → Converted
  unspecified : Converted

module _ (convert : Text → Text) where
  -- `MultiByteToWideChar` and `WideCharToMultiByte` of a whole text into this many characters; 0 asks
  -- for the size.
  unfoldable pub into : ℕ → Text → Converted
  into n src =
      if n == 0
      then unchanged
      else if ltb (length (convert src)) n
      then holds (convert src)
      else unspecified

  unfoldable pub str_conv_a2w : Text → ℕ → Converted
  unfolding into
  str_conv_a2w src dest_len = if ltb dest_len 1 then unchanged else into (dest_len - 1) src

  unfoldable pub str_conv_w2a : Text → ℕ → Converted
  unfolding into
  str_conv_w2a src dest_len = if ltb dest_len 1 then unchanged else into dest_len src

  -- With UNICODE a TCHAR is a WCHAR.
  unfoldable pub str_conv_a2t : Text → ℕ → Converted
  unfolding into
  str_conv_a2t src dest_len = if ltb dest_len 1 then unchanged else into (dest_len - 1) src

  unfoldable pub str_conv_t2a : Text → ℕ → Converted
  unfolding into
  str_conv_t2a src dest_len = if ltb dest_len 1 then unchanged else into dest_len src

-- What the macros that give an object back do to the object at a pointer.
pub data GivesBack : Type 0 where
  deletes_array frees releases : ℕ → GivesBack

-- The value of the pointer afterwards, and what was done.
unfoldable pub safe_delete_array : ℕ → ℕ × List GivesBack
safe_delete_array arr = (0, (if arr == 0 then [] else deletes_array arr ∷ []))

unfoldable pub safe_free : ℕ → ℕ × List GivesBack
safe_free obj = (0, (if obj == 0 then [] else frees obj ∷ []))

unfoldable pub safe_release : ℕ → ℕ × List GivesBack
safe_release obj = (obj, (if obj == 0 then [] else releases obj ∷ []))

-- Of two uses of a macro on one pointer, the second of SAFE_DELETE_ARRAY and of SAFE_FREE does nothing,
-- and that of SAFE_RELEASE does the same as the first.
pub safe_delete_array_twice :
    (p : ℕ)
    → (safe_delete_array (safe_delete_array p).0 ≡ (0, []))
      × (safe_free (safe_free p).0 ≡ (0, []))
      × (safe_release (safe_release p).0 ≡ safe_release p)
unfolding safe_delete_array safe_free safe_release
safe_delete_array_twice p = (refl, refl, refl)

-- With a range that is not empty: `fixInRange` gives a number of the range, and `isInRange` says
-- exactly of the numbers of the range that they are in it.
pub fix_in_range_bounds :
    (minimum x maximum : ℤ)
    → minimum ≤ℤ maximum
    → (minimum ≤ℤ fix_in_range minimum x maximum)
      × (fix_in_range minimum x maximum ≤ℤ maximum)
      × ((is_in_range minimum x maximum ≡ true) ↔ ((minimum ≤ℤ x) × (x ≤ℤ maximum)))
unfolding fix_in_range is_in_range
fix_in_range_bounds minimum x maximum h =
    (ground arith, ground arith, ((λ e. (ground arith, ground arith)), (λ e. ground arith)))

-- For two numbers below 2 ^ 31, whose sum an `unsigned int` always holds, `isOverFlower_uint` answers
-- true exactly if the sum is below 2 ^ 31.
pub is_over_flower_uint-small :
    (original add : ℕ)
    → original < 2 ^ 31
    → add < 2 ^ 31
    → is_over_flower_uint original add ≡ ltb (original + add) (2 ^ 31)
unfolding is_over_flower_uint
is_over_flower_uint-small original add h k = ground arith

-- A text that `StrConvA2W` stores leaves room for its zero and for one more character.
pub str_conv_a2w_room :
    (convert : Text → Text) (src t : Text) (dest_len : ℕ)
    → str_conv_a2w convert src dest_len ≡ holds t
    → (t ≡ convert src) × (length t + 1 < dest_len)
unfolding str_conv_a2w
str_conv_a2w_room convert src t dest_len e = (ground arith, ground arith)
