-- ===== src/Prelude/Texts.antt =====
-- Native texts: `format!` of texts, `starts_with` and what follows a prefix.
use Prim.Native.Char.{code}
use Prim.Native.String.{String}
use Prim.Native.String.{◌++◌ as string_append}
use mathlib.Core.Bool.{Bool, true, false}
use mathlib.Core.List.{List, [], ◌∷◌}
use mathlib.Core.Option.{Option, none, some}
use splinter.Prelude.Tests.{nat_beq, if◌then◌else◌}

abbrev pub format : List String → String
format [] = ""
format (x ∷ xs) = string_append x (format xs)

-- what follows the prefix
unfoldable pub strip_prefix : String → String → Option String
strip_prefix String.[] s = some s
strip_prefix (String.◌∷◌ c p) String.[] = none
strip_prefix (String.◌∷◌ c p) (String.◌∷◌ d s) =
    let rest = strip_prefix p s in if nat_beq (code c) (code d) then rest else none

abbrev pub is_some {ℓ} : {A : Type ℓ} → Option A → Bool
is_some none = false
is_some (some a) = true

unfoldable pub starts_with : String → String → Bool
starts_with prefix s = is_some (strip_prefix prefix s)
