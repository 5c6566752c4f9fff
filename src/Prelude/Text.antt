-- ===== src/Prelude/Text.antt =====
-- Equality of strings.
use Prim.Native.Nat.{Ordering}
use Prim.Native.String.{String, compare}
use mathlib.Core.Bool.{Bool, true, false}

-- `==` on strings.
abbrev pub equals : String → String → Bool
equals a b = elim (compare a b) [ Ordering.eq ↦ true | _ ↦ false ]
