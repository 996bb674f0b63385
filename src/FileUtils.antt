-- ===== src/FileUtils.antt =====
-- FileUtils.cpp: reading a file. `text_mode` is what a stream that is not opened with `ios::binary`
-- gives for the bytes of a file.
use iocp_chat_server.Base.{
  ℕ, zero, suc, false, ◌+◌, ◌-◌, ◌%◌, ◌^◌, ◌≡◌, refl, ap, ◌∙◌, ◌<◌, ◌≤◌, Option, none, some, List,
  [], ◌++◌, ◌==◌, if◌then◌else◌, length, take, drop, arith,
}
use iocp_chat_server.Base.Bytes.{zeroed, take-all, write_at}
use iocp_chat_server.Base.Text.{Text}

-- `ReadFile`; `none` is `ret[0]` of an empty vector.
unfoldable pub read_file : (List ℕ → List ℕ) → List ℕ → Option (List ℕ)
read_file text_mode file =
    let file_size = length file % 2 ^ 32 in
    let ret = zeroed file_size in
    if file_size == 0 then none else some (write_at ret 0 (take file_size (text_mode file)))

-- `Convert`, with `MultiByteToWideChar` of a text that is not empty.
unfoldable pub convert : (Text → Text) → Text → Text
convert to_wide str = if length str == 0 then [] else to_wide str

drop-zeroed : (k n : ℕ) → k ≤ n → drop k (zeroed n) ≡ zeroed (n - k)
unfolding zeroed
drop-zeroed zero n h = ap zeroed (omega arith)
drop-zeroed (suc k) zero h = absurd (omega arith)
drop-zeroed (suc k) (suc n) h =
    let next : n - k ≡ suc n - suc k = omega arith in drop-zeroed k n (omega arith) ∙ ap zeroed next

-- For a file that is not empty and is shorter than 2 ^ 32 bytes: `ReadFile` gives what the text stream
-- gives, and a zero for each byte that the text stream has taken out.
pub read_file-text :
    (text_mode : List ℕ → List ℕ) (file : List ℕ)
    → 0 < length file
    → length file < 2 ^ 32
    → length (text_mode file) ≤ length file
    → read_file text_mode file
      ≡ some (text_mode file ++ zeroed (length file - length (text_mode file)))
unfolding read_file write_at
read_file-text text_mode file p h le =
    let size : length file % 2 ^ 32 ≡ length file = omega arith in
    let some_bytes : (length file == 0) ≡ false = ground arith in
    let all = take-all (length file) (text_mode file) le in
    let rest : drop (0 + length (text_mode file)) (zeroed (length file))
        ≡ zeroed (length file - length (text_mode file)) =
      ap (λ (k : ℕ). drop k (zeroed (length file))) (omega arith)
      ∙ drop-zeroed (length (text_mode file)) (length file) le in
    rw (size, some_bytes, all, rest) refl
