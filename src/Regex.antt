-- ===== src/Regex.antt =====
-- Regular expressions that are searched for anywhere in a text, by derivatives.
use bai_rui_cloud_agent_plat.Prelude.{
  ℕ, zero, suc, ◌+◌, Bool, true, false, ◌&&◌, ◌||◌, [], ◌∷◌, take, ◌≡◌, arith, ◌==◌, if◌then◌else◌,
}
use bai_rui_cloud_agent_plat.Json.{Text}
use bai_rui_cloud_agent_plat.Patterns.{is_upper}

pub data Regex : Type 0 where
  nothing empty : Regex
  class : (ℕ → Bool) → Regex
  seq alt : Regex → Regex → Regex
  star : Regex → Regex

unfoldable pub nullable : Regex → Bool
nullable nothing = false
nullable empty = true
nullable (class p) = false
nullable (seq r s) = nullable r && nullable s
nullable (alt r s) = nullable r || nullable s
nullable (star r) = true

-- What is left to match after one character.
unfoldable pub deriv : ℕ → Regex → Regex
unfolding nullable
deriv c nothing = nothing
deriv c empty = nothing
deriv c (class p) = if p c then empty else nothing
deriv c (seq r s) = alt (seq (deriv c r) s) (if nullable r then deriv c s else nothing)
deriv c (alt r s) = alt (deriv c r) (deriv c s)
deriv c (star r) = seq (deriv c r) (star r)

-- Some prefix of the text matches.
unfoldable pub starts : Regex → Text → Bool
unfolding nullable deriv
starts r [] = nullable r
starts r (c ∷ cs) = nullable r || starts (deriv c r) cs

-- `r.test(text)`: the text has a match somewhere.
unfoldable pub finds : Regex → Text → Bool
unfolding starts
finds r [] = starts r []
finds r (c ∷ cs) = starts r (c ∷ cs) || finds r cs

-- `r{n}`
unfoldable pub times : ℕ → Regex → Regex
times zero r = empty
times (suc n) r = seq r (times n r)

-- `r{n,}`
abbrev pub at_least : ℕ → Regex → Regex
at_least n r = seq (times n r) (star r)

-- A letter in either case, as the `i` flag compares ASCII letters.
abbrev pub fold_case : ℕ → ℕ
fold_case c = if is_upper c then c + 32 else c

abbrev pub char_i : ℕ → Regex
char_i d = class (λ c. fold_case c == fold_case d)

-- A literal, under the `i` flag.
abbrev pub literal : Text → Regex
literal [] = empty
literal (c ∷ cs) = seq (char_i c) (literal cs)

starts-take : (r : Regex) (n : ℕ) (cs : Text) → starts r (take n cs) ≡ true → starts r cs ≡ true
unfolding starts
starts-take r zero [] e = e
starts-take r zero (c ∷ cs) e = ground arith
starts-take r (suc n) [] e = e
starts-take r (suc n) (c ∷ cs) e = ground (arith, starts-take (deriv c r) n cs)

-- What is found in a prefix is found in the text.
pub finds-take : (r : Regex) (n : ℕ) (cs : Text) → finds r (take n cs) ≡ true → finds r cs ≡ true
unfolding finds
finds-take r zero [] e = e
finds-take r zero (c ∷ cs) e = ground (arith, starts-take r 0 (c ∷ cs))
finds-take r (suc n) [] e = e
finds-take r (suc n) (c ∷ cs) e = ground (arith, starts-take r (suc n) (c ∷ cs), finds-take r n cs)
