-- ===== src/Text/Search.antt =====
-- Searching, trimming and splitting strings, as the language does.
use rge.Prelude.{
  ℕ, zero, suc, ◌+◌, ◌/◌, ◌%◌, ltb, Bool, true, false, ◌&&◌, ◌||◌, List, [], ◌∷◌, ◌++◌, any, leb,
  ◌==◌, if◌then◌else◌,
}
use rge.Text.{Str}

-- White space and line ends of the language, as `trim` and `parseInt` skip them.
abbrev pub is_space : ℕ → Bool
is_space c =
    leb 9 c && leb c 13
    || leb 8192 c && leb c 8202
    || any (λ d. d == c) (32 ∷ 160 ∷ 5760 ∷ 8232 ∷ 8233 ∷ 8239 ∷ 8287 ∷ 12288 ∷ 65279 ∷ [])

-- `s.startsWith(prefix)`
unfoldable pub starts_with : Str → Str → Bool
starts_with [] s = true
starts_with (_ ∷ _) [] = false
starts_with (c ∷ prefix) (d ∷ s) = c == d && starts_with prefix s

-- `s.includes(part)`
unfoldable pub includes : Str → Str → Bool
unfolding starts_with
includes part [] = starts_with part []
includes part (c ∷ s) = starts_with part (c ∷ s) || includes part s

abbrev pub trim_start : Str → Str
trim_start [] = []
trim_start (c ∷ s) = let rest = trim_start s in if is_space c then rest else c ∷ s

-- A white unit is dropped at the end where only white space follows.
abbrev pub trim_end : Str → Str
trim_end [] = []
trim_end (c ∷ s) = elim (trim_end s) [ [] ↦ if is_space c then [] else c ∷ [] | d ∷ t ↦ c ∷ d ∷ t ]

unfoldable pub trim : Str → Str
trim s = trim_end (trim_start s)

-- `s.split(c)` for a single unit: what stands before the first `c`, and the parts after it.
unfoldable pub split_from : ℕ → Str → Str → List Str
split_from c part [] = part ∷ []
split_from c part (d ∷ s) =
    if d == c then part ∷ split_from c [] s else split_from c (part ++ (d ∷ [])) s

unfoldable pub split : ℕ → Str → List Str
unfolding split_from
split c s = split_from c [] s

-- `array.join(separator)`
unfoldable pub join : Str → List Str → Str
join separator [] = []
join separator (s ∷ []) = s
join separator (s ∷ t ∷ rest) = s ++ (separator ++ join separator (t ∷ rest))

-- A number in decimal (`String(n)`), in front of other text; each round takes a digit.
unfoldable pub decimal_from : ℕ → ℕ → Str → Str
decimal_from zero n rest = rest
decimal_from (suc rounds) n rest =
    if ltb n 10 then (48 + n) ∷ rest else decimal_from rounds (n / 10) ((48 + n % 10) ∷ rest)

unfoldable pub decimal_text : ℕ → Str
unfolding decimal_from
decimal_text n = decimal_from (suc n) n []
