-- ===== src/Hydentity/Ids.antt =====
-- How an id, a name and a hash with a colon between them, falls apart.
use Prim.Native.Char.{char, code}
use Prim.Native.String.{String, ◌++◌}
use Prim.Native.String.append
use truth_seeker.Common.{◌≡◌, refl, Bool, false, [], ◌∷◌, ◌==◌, nat_eq, ◌||◌, arith}
use truth_seeker.Hydentity.{split}

unfoldable pub has_colon : String → Bool
has_colon String.[] = false
has_colon (String.◌∷◌ c s) = code c == 58 || has_colon s

pub split_plain : (s : String) → has_colon s ≡ false → split s ≡ (s, [])
unfolding has_colon split
split_plain String.[] h = refl
split_plain (String.◌∷◌ c s) h = ground (arith, split_plain s)

split_colon : (t : String) → has_colon t ≡ false → split (":" ++ t) ≡ ("", t ∷ [])
unfolding split
split_colon t h = rw (append.cons (char 58 tt) "" t, append.nil t) (ground (arith, split_plain t h))

pub split_at_colon :
    (s t : String) → has_colon s ≡ false → has_colon t ≡ false → split (s ++ ":" ++ t) ≡ (s, t ∷ [])
unfolding has_colon split
split_at_colon String.[] t h k = rw (append.nil (":" ++ t)) (split_colon t k)
split_at_colon (String.◌∷◌ c s) t h k =
    rw (append.cons c s (":" ++ t)) (ground (arith, split_at_colon s t))
