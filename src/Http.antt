-- ===== src/Http.antt =====
-- src/http/http.h and src/http/http.cpp: the messages of HTTP. A text is its bytes.
pub mod Methods
pub mod Statuses
pub mod Headers
pub mod Messages
pub mod Names
pub mod Lookup
pub mod Sorted
pub mod Ascii
pub mod Dump
pub mod Parser
pub mod Parsed
mod Tests
use net_ninja.Common.{ℕ, Bool, true, false, ◌&&◌, List, [], ◌∷◌, ◌==◌, if◌then◌else◌}
use Prim.Native.Char.{code}
use Prim.Native.String.{String}

abbrev pub Text : Type 0
Text = List ℕ

-- The bytes of a literal in ASCII.
abbrev pub codes : String → Text
codes String.[] = []
codes (String.◌∷◌ c s) = code c ∷ codes s

-- What a C function sees of `c_str()`: up to the first zero byte.
unfoldable pub c_str : Text → Text
c_str [] = []
c_str (x ∷ s) = let rest = c_str s in if x == 0 then [] else x ∷ rest

-- `s == t` of two strings, and `strcmp(s, t) == 0` for texts without a zero byte.
unfoldable pub same_text : Text → Text → Bool
same_text [] [] = true
same_text [] (y ∷ t) = false
same_text (x ∷ s) [] = false
same_text (x ∷ s) (y ∷ t) = x == y && same_text s t

-- `strncmp(s, t, strlen(s)) == 0`.
unfoldable pub starts_with : Text → Text → Bool
starts_with [] t = true
starts_with (x ∷ s) [] = false
starts_with (x ∷ s) (y ∷ t) = x == y && starts_with s t
