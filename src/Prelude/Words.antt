-- ===== src/Prelude/Words.antt =====
-- Words split from a text: `s.split()` undoes `" ".join(ws)`.
use Prim.Native.String.{String}
use Prim.Native.Char.{code}
use mathlib.Core.Path.{◌≡◌, refl}
use mathlib.Core.Bool.{Bool, true, not, ◌&&◌}
use mathlib.Core.List.{List, [], ◌∷◌}
use native.Mathlib.Omega.{arith}
use archon_vibe.Prelude.Tests.{nonempty_text}
use archon_vibe.Prelude.Lists.{All}
use archon_vibe.Prelude.Text.{is_space, split_word, words, concat, join_words}

-- No character of the text is a space.
unfoldable pub is_solid : String → Bool
is_solid String.[] = true
is_solid (String.◌∷◌ c s) = not (is_space (code c)) && is_solid s

abbrev pub IsWord : String → Type 0
IsWord w = (nonempty_text w ≡ true) × (is_solid w ≡ true)

split_word-alone : (w : String) → is_solid w ≡ true → split_word w ≡ (w, [])
unfolding split_word is_solid
split_word-alone String.[] h = refl
split_word-alone (String.◌∷◌ c s) h = ground (arith, h, split_word-alone s)

split_word-space : (t : String) → split_word (String.◌∷◌ " " t) ≡ ("", words t)
unfolding split_word words is_space
split_word-space t = refl

split_word-concat :
    (w t : String) → is_solid w ≡ true → split_word (concat w (String.◌∷◌ " " t)) ≡ (w, words t)
unfolding split_word is_solid concat
split_word-concat String.[] t h = split_word-space t
split_word-concat (String.◌∷◌ c s) t h = ground (arith, h, split_word-concat s t)

words-empty : words "" ≡ []
unfolding words split_word
words-empty = refl

pub words-join_words : (ws : List String) → All IsWord ws → words (join_words ws) ≡ ws
unfolding words join_words
words-join_words [] h = words-empty
words-join_words (w ∷ []) h = ground (arith, h, split_word-alone w)
words-join_words (w ∷ v ∷ ws) h =
    ground (arith, h, split_word-concat w (join_words (v ∷ ws)), words-join_words (v ∷ ws) h.1)
