-- ===== src/Samples/Released.antt =====
-- `main` of src/release.py at concrete arguments.
use dcfpe.Common.{◌≡◌, refl, [], ◌∷◌, Text, codes, text_eq}
use dcfpe.Common.Results.{ok, raise}
use dcfpe.Scripts.{Disk, undefined_name, PathOrder, release_each, release_main}

unknown_skipped :
    (order : PathOrder) (join : Text → Text → Text) (root : Text) (disk : Disk)
    → release_main order join root (codes "release.py" ∷ codes "rs" ∷ []) disk ≡ ok disk
unfolding release_main release_each text_eq
unknown_skipped order join root disk = refl

dcfpe_undefined :
    (order : PathOrder) (join : Text → Text → Text) (root : Text) (disk : Disk)
    → release_main order join root (codes "release.py" ∷ codes "dcfpe" ∷ codes "dpe" ∷ []) disk
      ≡ raise (undefined_name (codes "releaes_dcfpe"))
unfolding release_main release_each text_eq
dcfpe_undefined order join root disk = refl
