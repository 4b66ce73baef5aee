-- ===== src/Base/Text.antt =====
-- The JavaScript string operations that the program uses, over the native texts.
use Prim.Native.Nat.{◌-◌, ℕ, ◌+◌}
use mathlib.Core.List.{List, [], ◌∷◌}
use noudle_agents.Base.Tests.{◌==◌, leb, eqb, if◌then◌else◌}
use Prim.Native.Char.{code}
use Prim.Native.String.{String, ◌++◌}
use mathlib.Core.Bool.{Bool, true, false, ◌&&◌, ◌||◌}

-- `s.length`: UTF-16 code units.
unfoldable pub utf16_length : String → ℕ
utf16_length String.[] = 0
utf16_length (String.◌∷◌ c s) = (if leb (code c) 65535 then 1 else 2) + utf16_length s

-- White space and line terminators, as `trim` strips them.
abbrev pub is_space : ℕ → Bool
is_space c =
    (leb 9 c && leb c 13)
    || eqb c 32
    || eqb c 160
    || eqb c 5760
    || (leb 8192 c && leb c 8202)
    || eqb c 8232
    || eqb c 8233
    || eqb c 8239
    || eqb c 8287
    || eqb c 12288
    || eqb c 65279

trim_start : String → String
trim_start String.[] = String.[]
trim_start (String.◌∷◌ c s) =
    let rest = trim_start s in if is_space (code c) then rest else String.◌∷◌ c s

abbrev is_empty : String → Bool
is_empty String.[] = true
is_empty (String.◌∷◌ c s) = false

trim_end : String → String
trim_end String.[] = String.[]
trim_end (String.◌∷◌ c s) =
    let rest = trim_end s in
    if is_space (code c) && is_empty rest then String.[] else String.◌∷◌ c rest

-- `s.trim()`.
unfoldable pub trim : String → String
unfolding trim_start trim_end
trim s = trim_end (trim_start s)

-- `a + b`.
abbrev pub append : String → String → String
append s t = s ++ t

-- `s.slice(0, n)`. A surrogate pair that the cut would halve is left out whole.
abbrev pub slice_to : ℕ → String → String
slice_to n String.[] = String.[]
slice_to n (String.◌∷◌ c s) =
    let units = if leb (code c) 65535 then 1 else 2 in
    let rest = slice_to (n - units) s in if leb units n then String.◌∷◌ c rest else String.[]

-- `s.startsWith(t)`.
abbrev pub starts_with : String → String → Bool
starts_with s String.[] = true
starts_with String.[] (String.◌∷◌ d t) = false
starts_with (String.◌∷◌ c s) (String.◌∷◌ d t) = eqb (code c) (code d) && starts_with s t

-- `s.includes(t)`.
abbrev pub includes : String → String → Bool
includes String.[] t = t == String.[]
includes (String.◌∷◌ c s) t = starts_with (String.◌∷◌ c s) t || includes s t

-- The first part, joined with what `s.split(separator)` gives of the rest.
abbrev push_char : String → List String → List String
push_char c [] = c ∷ []
push_char c (part ∷ parts) = (c ++ part) ∷ parts

-- `s.split(separator)`, for a separator of one character.
abbrev pub split : ℕ → String → List String
split separator String.[] = "" ∷ []
split separator (String.◌∷◌ c s) =
    let rest = split separator s in
    if eqb (code c) separator then "" ∷ rest else push_char (String.◌∷◌ c "") rest

-- `s.replace(/\s+/g, " ")`; `after_space` says that the character before was white space.
abbrev squeeze : Bool → String → String
squeeze after_space String.[] = ""
squeeze after_space (String.◌∷◌ c s) =
    let spaced = is_space (code c) in
    let rest = squeeze spaced s in
    if spaced then (if after_space then rest else " " ++ rest) else String.◌∷◌ c rest

abbrev pub squeeze_spaces : String → String
squeeze_spaces s = squeeze false s

-- `s.replaceAll(c, "")`, for one character.
abbrev pub without_char : ℕ → String → String
without_char unwanted String.[] = ""
without_char unwanted (String.◌∷◌ c s) =
    let rest = without_char unwanted s in if eqb (code c) unwanted then rest else String.◌∷◌ c rest
