-- ===== src/Prelude/Text.antt =====
-- The bytes of a text and their base64 form, as Python's `encode("utf-8")` and `b64encode` give them.
use Prim.Native.Nat.{ℕ, zero, suc, ◌+◌, ◌*◌, ◌/◌, ◌%◌}
use Prim.Native.Char.{Char, code}
use Prim.Native.String.{String}
use mathlib.Core.Path.{◌≡◌, refl}
use mathlib.Core.List.{List, [], ◌∷◌, ◌++◌}
use mathlib.Core.Bool.{Bool, not, ◌&&◌, ◌||◌}
use archon_vibe.Prelude.Tests.{ltb, leb, nat_beq, nonempty_text, if◌then◌else◌}

-- One code point in UTF-8.
unfoldable pub utf8_char : ℕ → List ℕ
utf8_char c =
    if ltb c 0x80
    then c ∷ []
    else if ltb c 0x800
    then (0xC0 + c / 64) ∷ (0x80 + c % 64) ∷ []
    else if ltb c 0x10000
    then (0xE0 + c / 4096) ∷ (0x80 + c / 64 % 64) ∷ (0x80 + c % 64) ∷ []
    else (0xF0 + c / 262144) ∷ (0x80 + c / 4096 % 64) ∷ (0x80 + c / 64 % 64) ∷ (0x80 + c % 64) ∷ []

unfoldable pub utf8 : String → List ℕ
unfolding utf8_char
utf8 String.[] = []
utf8 (String.◌∷◌ c s) = utf8_char (code c) ++ utf8 s

-- The character at a position; `=` past the end, which the alphabet's 64 digits never reach.
unfoldable pub char_at : String → ℕ → Char
char_at String.[] n = "="
char_at (String.◌∷◌ c s) zero = c
char_at (String.◌∷◌ c s) (suc n) = char_at s n

unfoldable pub digit64 : ℕ → Char
unfolding char_at
digit64 = char_at "ABCDEFGHIJKLMNOPQRSTUVWXYZabcdefghijklmnopqrstuvwxyz0123456789+/"

unfoldable pub b64encode : List ℕ → String
unfolding digit64
b64encode [] = ""
b64encode (a ∷ []) = String.◌∷◌ (digit64 (a / 4)) (String.◌∷◌ (digit64 (a % 4 * 16)) "==")
b64encode (a ∷ b ∷ []) =
    String.◌∷◌ (digit64 (a / 4))
      (String.◌∷◌ (digit64 (a % 4 * 16 + b / 16)) (String.◌∷◌ (digit64 (b % 16 * 4)) "="))
b64encode (a ∷ b ∷ c ∷ rest) = String.◌∷◌ (digit64 (a / 4)) (
    String.◌∷◌ (digit64 (a % 4 * 16 + b / 16))
      (String.◌∷◌ (digit64 (b % 16 * 4 + c / 64)) (String.◌∷◌ (digit64 (c % 64)) (b64encode rest))))

b64encode_mail : b64encode (utf8 "a@b.fr") ≡ "YUBiLmZy"
unfolding b64encode utf8
b64encode_mail = refl

b64encode_padded : b64encode (utf8 "é!") ≡ "w6kh"
unfolding b64encode utf8
b64encode_padded = refl

-- `str.isspace` of one code point
unfoldable pub is_space : ℕ → Bool
is_space c =
    (leb 9 c && leb c 13)
    || (leb 28 c && leb c 32)
    || nat_beq c 133
    || nat_beq c 160
    || nat_beq c 5760
    || (leb 8192 c && leb c 8202)
    || nat_beq c 8232
    || nat_beq c 8233
    || nat_beq c 8239
    || nat_beq c 8287
    || nat_beq c 12288

unfoldable strip_start : String → String
unfolding is_space
strip_start String.[] = ""
strip_start (String.◌∷◌ c s) =
    let rest = strip_start s in if is_space (code c) then rest else String.◌∷◌ c s

unfoldable strip_end : String → String
unfolding is_space
strip_end String.[] = ""
strip_end (String.◌∷◌ c s) =
    let rest = strip_end s in
    if is_space (code c) && not (nonempty_text rest) then "" else String.◌∷◌ c rest

-- `s.strip()`
unfoldable pub strip : String → String
unfolding strip_start strip_end
strip s = strip_end (strip_start s)

-- `len(s)`, in code points
unfoldable pub text_length : String → ℕ
text_length String.[] = 0
text_length (String.◌∷◌ c s) = suc (text_length s)

strip_both : strip "  a b\n" ≡ "a b"
unfolding strip strip_start strip_end is_space
strip_both = refl

abbrev pub nonempty_word : String → List String → List String
nonempty_word w ws = if nonempty_text w then w ∷ ws else ws

-- The word that a text starts with, and those after it.
unfoldable pub split_word : String → String × List String
split_word String.[] = ("", [])
split_word (String.◌∷◌ c s) =
    let (w, ws) = split_word s in
    if is_space (code c) then ("", nonempty_word w ws) else (String.◌∷◌ c w, ws)

-- `s.split()`
unfoldable pub words : String → List String
words s = let (w, ws) = split_word s in nonempty_word w ws

-- `s + t`, by the characters of s
unfoldable pub concat : String → String → String
concat String.[] t = t
concat (String.◌∷◌ c s) t = String.◌∷◌ c (concat s t)

-- `" ".join(ws)`
unfoldable pub join_words : List String → String
unfolding concat
join_words [] = ""
join_words (w ∷ []) = w
join_words (w ∷ v ∷ ws) = concat w (String.◌∷◌ " " (join_words (v ∷ ws)))

words_joined : words (join_words ("a:b" ∷ "cd" ∷ [])) ≡ "a:b" ∷ "cd" ∷ []
unfolding words split_word is_space join_words concat
words_joined = refl
