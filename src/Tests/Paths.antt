-- ===== src/Tests/Paths.antt =====
-- Tests of the path helpers.
use dirpc.Prelude.{◌≡◌, Bytes, codes, refl, [], ◌∷◌}
use dirpc.Paths.{parts, path_filename, path_variants, strip_64_suffix}
use dirpc.Paths.Variants.{all_variants, last_four, path_variants_lem}

abbrev game_path : Bytes
game_path = codes "C:\\games\\a/run.x64"

filename_test : path_filename game_path ≡ codes "run.x64"
unfolding path_filename
filename_test = refl

variants_test :
    path_variants game_path
    ≡ codes "C:/games/a/run.x64"
      ∷ codes "C:/games/a/run"
      ∷ codes "games/a/run.x64"
      ∷ codes "games/a/run"
      ∷ codes "a/run.x64"
      ∷ codes "a/run"
      ∷ codes "run.x64"
      ∷ codes "run"
      ∷ []
unfolding path_variants
variants_test = refl

strip_64_test : strip_64_suffix (codes "game_64") ≡ codes "game"
unfolding strip_64_suffix
strip_64_test = refl

path_variants_lem_example : path_variants game_path ≡ all_variants (last_four (parts game_path))
path_variants_lem_example = path_variants_lem game_path
