-- ===== src/Base/Text.antt =====
-- JavaScript's strings, as lists of UTF-16 code units, where the program looks into them.
use Prim.Native.Nat.{ℕ}
use Prim.Native.Char.{code}
use Prim.Native.String.{String}
use mathlib.Core.Bool.{Bool, true, false, not, ◌||◌, ◌&&◌}
use mathlib.Core.List.{List, [], ◌∷◌, ◌++◌, reverse}
use mathlib.Core.Path.{◌≡◌, refl}
use mathlib.Core.Logic.{◌↔◌}
use native.Mathlib.Omega.{arith}
use khulnasoft_lsp.Base.Tests.{leb, eqb, if◌then◌else◌}
use khulnasoft_lsp.Base.Lists.{filter, drop, length}
use khulnasoft_lsp.Base.Keys.{Key}

abbrev pub JsText : Type 0
JsText = List ℕ

-- The code units of a text in ASCII.
abbrev pub text_of : String → JsText
text_of String.[] = []
text_of (String.◌∷◌ c s) = code c ∷ text_of s

-- What `\s` and `trim` take for white space.
unfoldable pub is_white : ℕ → Bool
is_white u =
    eqb u 32
    || leb 9 u && leb u 13
    || eqb u 160
    || eqb u 5760
    || leb 8192 u && leb u 8202
    || eqb u 8232
    || eqb u 8233
    || eqb u 8239
    || eqb u 8287
    || eqb u 12288
    || eqb u 65279

abbrev is_some_unit : JsText → Bool
is_some_unit [] = false
is_some_unit (u ∷ t) = true

-- `t.replace(/\s/g, '').length`, as a test, and `t.trim().length > 0`.
unfoldable pub has_text : JsText → Bool
unfolding filter is_white
has_text t = is_some_unit (filter (λ (u : ℕ). not (is_white u)) t)

-- `text.startsWith(start)`
unfoldable pub starts_with : JsText → JsText → Bool
starts_with text [] = true
starts_with [] (v ∷ start) = false
starts_with (u ∷ text) (v ∷ start) = eqb u v && starts_with text start

-- `text.replace(pattern, '')` with a string: the first occurrence is taken out.
unfoldable pub without_first : JsText → JsText → JsText
unfolding starts_with
without_first pattern [] = []
without_first pattern (u ∷ text) =
    let rest = without_first pattern text in
    if starts_with (u ∷ text) pattern then drop (length pattern) (u ∷ text) else u ∷ rest

-- `text.replace(pattern, replacement)` with a string that holds no `$`: the first occurrence is replaced.
unfoldable pub replace_first : JsText → JsText → JsText → JsText
unfolding starts_with
replace_first pattern replacement [] = if is_some_unit pattern then [] else replacement
replace_first pattern replacement (u ∷ text) =
    let rest = replace_first pattern replacement text in
    if starts_with (u ∷ text) pattern
    then replacement ++ drop (length pattern) (u ∷ text)
    else u ∷ rest

-- `text.includes(part)`
unfoldable pub includes : JsText → JsText → Bool
unfolding starts_with
includes [] part = starts_with [] part
includes (u ∷ text) part = starts_with (u ∷ text) part || includes text part

-- `text.endsWith(end)`
unfoldable pub ends_with : JsText → JsText → Bool
unfolding starts_with
ends_with text ending = starts_with (reverse text) (reverse ending)

-- `text.trim()`
unfoldable pub trim_start : JsText → JsText
unfolding is_white
trim_start [] = []
trim_start (u ∷ text) = let rest = trim_start text in if is_white u then rest else u ∷ text

unfoldable pub trim : JsText → JsText
unfolding trim_start
trim text = reverse (trim_start (reverse (trim_start text)))

abbrev equal_units : JsText → JsText → Bool
equal_units [] [] = true
equal_units [] (v ∷ t) = false
equal_units (u ∷ s) [] = false
equal_units (u ∷ s) (v ∷ t) = eqb u v && equal_units s t

equal_units_refl : (s : JsText) → equal_units s s ≡ true
equal_units_refl [] = refl
equal_units_refl (u ∷ s) = ground (arith, equal_units_refl s)

equal_units_sound : (s t : JsText) → equal_units s t ≡ true → s ≡ t
equal_units_sound [] [] h = refl
equal_units_sound [] (v ∷ t) h = ground arith
equal_units_sound (u ∷ s) [] h = ground arith
equal_units_sound (u ∷ s) (v ∷ t) h = ground (arith, equal_units_sound s t)

pub equal_units_iff : (s t : JsText) → (equal_units s t ≡ true) ↔ (s ≡ t)
equal_units_iff s t = (equal_units_sound s t, λ e. rw e (equal_units_refl t))

instance abbrev pub units_key : Key JsText
units_key = record { same = equal_units; same_iff = equal_units_iff }
