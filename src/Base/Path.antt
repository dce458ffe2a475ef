-- ===== src/Base/Path.antt =====
-- Package path/filepath on slashes, for clean paths of files, and `%06d`.
use Prim.Native.Nat.{ℕ, zero, suc, ◌-◌}
use mathlib.Core.List.{[], ◌∷◌, ◌++◌}
use gof.Base.Tests.{◌==◌, if◌then◌else◌}
use gof.Base.Lists.{length}
use gof.Base.Texts.{Text}
use gof.Base.Decimal.{decimal}
use gof.Base.Replace.{replace_all}

-- `Base`: what follows the last slash
unfoldable pub base_loop : Text → Text → Text
base_loop cur [] = cur
base_loop cur (c ∷ s) =
    let fresh = base_loop [] s in
    let longer = base_loop (cur ++ c ∷ []) s in if c == b'/' then fresh else longer

unfoldable pub base : Text → Text
unfolding base_loop
base p = base_loop [] p

-- `Ext` of a name without slashes: from its last dot
unfoldable pub ext_of_name : Text → Text
ext_of_name [] = []
ext_of_name (c ∷ s) =
    let later = ext_of_name s in elim later [ d ∷ e ↦ d ∷ e | [] ↦ if c == b'.' then c ∷ s else [] ]

unfoldable pub ext : Text → Text
unfolding base ext_of_name
ext p = ext_of_name (base p)

-- `Dir`: what precedes the last slash
unfoldable pub dir_loop : Text → Text → Text → Text
dir_loop done cur [] = done
dir_loop done cur (c ∷ s) =
    let next = dir_loop cur (cur ++ c ∷ []) s in
    let same = dir_loop done (cur ++ c ∷ []) s in if c == b'/' then next else same

unfoldable pub dir : Text → Text
unfolding dir_loop
dir p = dir_loop [] [] p

-- `Join` of two parts
unfoldable pub join_path : Text → Text → Text
join_path d s = d ++ (b'/' ∷ s)

-- the name without its extension, by `strings.Replace`
unfoldable pub stem : Text → Text
unfolding base ext replace_all
stem p = replace_all (ext p) [] (base p)

-- `%06d`
unfoldable pub zeros : ℕ → Text → Text
zeros zero s = s
zeros (suc n) s = b'0' ∷ zeros n s

unfoldable pub padded : ℕ → Text
unfolding zeros decimal
padded n = zeros (6 - length (decimal n)) (decimal n)
