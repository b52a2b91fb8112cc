-- ===== src/Conf/Names.antt =====
-- internal/conf/path.go: IsValidPathName, over the code points of the name.
use plux_mtx.Base.{
  ℕ, String, Bool, true, ◌&&◌, ◌||◌, not, Option, some, none, List, [], ◌∷◌, ◌==◌, leb, codes,
  if◌then◌else◌,
}

pub data NameErr : Type 0 where
  empty_name begins_with_slash ends_with_slash bad_character : NameErr

-- The class `[0-9a-zA-Z_\-/\.~:]`.
unfoldable pub is_name_char : ℕ → Bool
is_name_char c =
    (leb b'0' c && leb c b'9')
    || ((leb b'a' c && leb c b'z')
        || ((leb b'A' c && leb c b'Z')
            || (c == b'_'
                || (c == b'-' || (c == b'/' || (c == b'.' || (c == b'~' || c == b':')))))))

unfoldable pub all_name_chars : List ℕ → Bool
unfolding is_name_char
all_name_chars [] = true
all_name_chars (c ∷ s) = is_name_char c && all_name_chars s

-- `s[len(s)-1]` of a text that begins with `c`.
unfoldable pub last_char : ℕ → List ℕ → ℕ
last_char c [] = c
last_char c (d ∷ s) = last_char d s

unfoldable pub check_name : List ℕ → Option NameErr
unfolding all_name_chars last_char
check_name [] = some empty_name
check_name (c ∷ s) =
    if c == b'/'
    then some begins_with_slash
    else if last_char c s == b'/'
    then some ends_with_slash
    else if not (all_name_chars (c ∷ s))
    then some bad_character
    else none

unfoldable pub is_valid_path_name : String → Option NameErr
unfolding check_name
is_valid_path_name s = check_name (codes s)
