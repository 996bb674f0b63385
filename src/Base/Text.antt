-- ===== src/Base/Text.antt =====
-- Texts, `char` and `WCHAR` strings alike, as lists of code units without the terminating zero.
use Prim.Native.Char.{code}
use Prim.Native.String.{String}
use iocp_chat_server.Base.{ℕ, ◌≡◌, refl, Bool, true, false, ◌&&◌, List, [], ◌∷◌, ◌==◌, arith}

abbrev pub Text : Type 0
Text = List ℕ

abbrev pub codes : String → Text
codes String.[] = []
codes (String.◌∷◌ c s) = code c ∷ codes s

-- `strcmp (s, t) == 0`, and the equality of `wstring`s.
unfoldable pub same_text : Text → Text → Bool
same_text [] [] = true
same_text [] (d ∷ ds) = false
same_text (c ∷ cs) [] = false
same_text (c ∷ cs) (d ∷ ds) = c == d && same_text cs ds

pub same_text_self : (s : Text) → same_text s s ≡ true
unfolding same_text
same_text_self [] = refl
same_text_self (c ∷ cs) = ground (arith, same_text_self cs)

pub same_text→eq : (s t : Text) → same_text s t ≡ true → s ≡ t
unfolding same_text
same_text→eq [] [] e = refl
same_text→eq [] (d ∷ ds) e = cc
same_text→eq (c ∷ cs) [] e = cc
same_text→eq (c ∷ cs) (d ∷ ds) e =
    let head : c ≡ d = ground arith in
    let tail : same_text cs ds ≡ true = ground arith in cc (same_text→eq cs ds tail)
