-- ===== src/Client/Names.antt =====
-- src/chattice/client/_names.py: canonical resource names.
pub mod Canonical
use Prim.Native.Char.{code}
use Prim.Native.String
use chattice.Base.{
  ℕ, suc, String, Bool, true, false, Option, none, some, if◌then◌else◌, ◌&&◌, nat_beq, ltb,
}
use chattice.Base.Text.{strip, is_empty}
use text.Mathlib.Text.{starts_with}

-- parent.count("/")
unfoldable pub slashes : String → ℕ
slashes String.[] = 0
slashes (String.◌∷◌ c s) = if nat_beq (code c) b'/' then suc (slashes s) else slashes s

-- A stripped name under the collection `prefix`; none is a `ChatAPIError`.
unfoldable pub under : String → String → Option String
unfolding slashes
under prefix parent =
    if is_empty parent
    then none
    else if ltb 0 (slashes parent)
    then (if starts_with parent prefix && nat_beq (slashes parent) 1 then some parent else none)
    else some (String.◌++◌ prefix parent)

unfoldable pub canonical : String → Option String → Option String
unfolding under
canonical prefix none = none
canonical prefix (some name) = under prefix (strip name)

-- `_canonical_space` and `_canonical_user` of a text or of the name of a reference.
unfoldable pub canonical_space : Option String → Option String
unfolding canonical
canonical_space name = canonical "spaces/" name

unfoldable pub canonical_user : Option String → Option String
unfolding canonical
canonical_user name = canonical "users/" name
