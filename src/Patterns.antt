-- ===== src/Patterns.antt =====
-- The regular expressions of the program that fix a text from its start to its end: a class for
-- the first character, another for up to n more.
use bai_rui_cloud_agent_plat.Prelude.{
  ℕ, Bool, true, false, ◌&&◌, ◌||◌, leb, ◌==◌, List, [], ◌∷◌, length, String, any,
}
use bai_rui_cloud_agent_plat.Json.{Text, codes}

abbrev pub all {ℓ} : {A : Type ℓ} → (A → Bool) → List A → Bool
all p [] = true
all p (x ∷ xs) = p x && all p xs

abbrev pub is_digit : ℕ → Bool
is_digit c = leb b'0' c && leb c b'9'

abbrev pub is_lower : ℕ → Bool
is_lower c = leb b'a' c && leb c b'z'

abbrev pub is_upper : ℕ → Bool
is_upper c = leb b'A' c && leb c b'Z'

abbrev pub is_alnum : ℕ → Bool
is_alnum c = is_digit c || is_lower c || is_upper c

-- One of the characters of a literal.
abbrev pub one_of : String → ℕ → Bool
one_of s c = any (λ d. c == d) (codes s)

-- `^[first][rest]{0,n}$`
unfoldable pub first_then : (ℕ → Bool) → (ℕ → Bool) → ℕ → Text → Bool
first_then first rest n [] = false
first_then first rest n (c ∷ cs) = first c && leb (length cs) n && all rest cs

-- `^[class]{lo,hi}$`
unfoldable pub run_of : (ℕ → Bool) → ℕ → ℕ → Text → Bool
run_of class lo hi cs = leb lo (length cs) && leb (length cs) hi && all class cs
