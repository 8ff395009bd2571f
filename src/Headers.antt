-- ===== src/Headers.antt =====
-- The headers that the routes read: `_extract_bearer` of app/api/deps.py, and `_client_meta`, which
-- the modules of app/api/v1 write out alike. A header's characters are those of latin-1, for which
-- the white space of `strip` is listed here.
use Prim.Native.Char.{code}
use text.Mathlib.Text.{◌==◌ as str_eq}
use rolling_api.Prelude.{
  ℕ, ◌+◌, String, Bool, ◌&&◌, ◌||◌, Option, none, some, leb, ◌==◌, if◌then◌else◌, Result, ok, err,
  unauthorized_error,
}

abbrev pub is_space : ℕ → Bool
is_space c = (leb 9 c && leb c 13) || ((leb 28 c && leb c 32) || (c == 133 || c == 160))

abbrev pub lower_code : ℕ → ℕ
lower_code c = if leb b'A' c && leb c b'Z' then c + 32 else c

unfoldable pub lstrip : String → String
lstrip String.[] = String.[]
lstrip (String.◌∷◌ c s) = let rest = lstrip s in if is_space (code c) then rest else String.◌∷◌ c s

unfoldable pub rstrip : String → String
rstrip String.[] = String.[]
rstrip (String.◌∷◌ c s) =
    let rest = rstrip s in
    if is_space (code c) && str_eq rest "" then String.[] else String.◌∷◌ c rest

unfoldable pub strip : String → String
unfolding lstrip rstrip
strip s = rstrip (lstrip s)

-- what follows the prefix, which is in lower case, if the text begins with it in any case
unfoldable pub after_prefix : String → String → Option String
after_prefix String.[] s = some s
after_prefix (String.◌∷◌ p ps) String.[] = none
after_prefix (String.◌∷◌ p ps) (String.◌∷◌ c s) =
    let rest = after_prefix ps s in if code p == lower_code (code c) then rest else none

abbrev pub token_in : Option String → Result String
token_in none = err unauthorized_error
token_in (some rest) = ok (strip rest)

-- `_extract_bearer`: the prefix ends with the first space, at which the code splits
unfoldable pub extract_bearer : Option String → Result String
unfolding after_prefix strip
extract_bearer none = err unauthorized_error
extract_bearer (some header) = token_in (after_prefix "bearer " header)

-- `text.split(",")[0]`
unfoldable pub first_field : String → String
first_field String.[] = String.[]
first_field (String.◌∷◌ c s) =
    let rest = first_field s in if code c == b',' then String.[] else String.◌∷◌ c rest

-- `a or b` of texts
abbrev pub text_or : String → Option String → Option String
text_or a b = if str_eq a "" then b else some a

-- the address of `_client_meta`: the first one that was forwarded, or else the connection's
unfoldable pub client_ip : Option String → Option String → Option String
unfolding strip first_field
client_ip host none = host
client_ip host (some forwarded) =
    if str_eq forwarded "" then host else text_or (strip (first_field forwarded)) host
