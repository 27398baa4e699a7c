-- ===== src/Common/Strings.antt =====
-- Text with a common prefix.
use Prim.Native.Char.{Char}
use Prim.Native.String.{String, ◌++◌}
use Prim.Native.String.append
use mathlib.Core.Path.{◌≡◌}

tail_injective :
    (c : Char) (s t : String) → ◌≡◌ {A = String} (String.◌∷◌ c s) (String.◌∷◌ c t) → s ≡ t
tail_injective c s t h = cc

pub append_cancel : (p s t : String) → ◌≡◌ {A = String} (p ++ s) (p ++ t) → s ≡ t
append_cancel String.[] s t h = rw (append.nil s, append.nil t) at h
append_cancel (String.◌∷◌ c p) s t h =
    append_cancel p s t
      (tail_injective c (p ++ s) (p ++ t) (rw (append.cons c p s, append.cons c p t) at h))
