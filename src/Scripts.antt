-- ===== src/Scripts.antt =====
-- src/release.py and src/install.py: what the scripts do to the file system. Paths are joined by
-- the parameter `join`, as os.path.join does, and ordered by a parameter; `root` is ENV_SOLUTION_DIRECTORY.
pub mod Copying
use dcfpe.Common.{
  ◌+◌, Bool, true, false, ◌||◌, Option, none, some, List, [], ◌∷◌, ◌++◌, if◌then◌else◌, Text, codes,
  text_eq, text_Eq, Dict, lookup, has_key, insert, contains,
}
use dcfpe.Common.Results.{Result, ok, raise, ◌>>=◌}

-- A call of the scripts: `rmdir /S /Q` of a directory that is there, os.makedirs, or shutil.copyfile.
pub data Step : Type 0 where
  clear make_directories : Text → Step
  copy_file : (from to : Text) → Step

-- The files by their paths, with their contents, and the directories.
pub record Disk : Type 0 where
  pub files : Dict Text Text
  pub directories : List Text

pub data Failure : Type 0 where
  missing_file missing_directory directory_exists undefined_name : Text → Failure

-- What the platform knows of a path: its directory, all directories above it, and whether it lies
-- in a directory at some depth or is that directory.
pub record PathOrder : Type 0 where
  pub parent : Text → Text
  pub ancestors : Text → List Text
  pub is_below : (directory path : Text) → Bool

-- What lies in a directory goes with it.
unfoldable pub without_files : (Text → Bool) → Dict Text Text → Dict Text Text
without_files below [] = []
without_files below ((p, c) ∷ files) =
    let rest = without_files below files in if below p then rest else (p, c) ∷ rest

unfoldable pub without_paths : (Text → Bool) → List Text → List Text
without_paths below [] = []
without_paths below (p ∷ paths) =
    let rest = without_paths below paths in if below p then rest else p ∷ rest

module _ (order : PathOrder) where
  unfoldable pub perform : Step → Disk → Result Failure Disk
  perform (clear directory) disk = ok (
      if contains directory disk.directories
      then record {
        files = without_files (order.is_below directory) disk.files;
        directories = without_paths (order.is_below directory) disk.directories;
      }
      else disk)
  perform (make_directories directory) disk =
      if contains directory disk.directories
      then raise (directory_exists directory)
      else ok
          (record disk { directories = directory ∷ order.ancestors directory ++ disk.directories })
  perform (copy_file from to) disk = elim (lookup from disk.files) [
    | none ↦ raise (missing_file from)
    | some contents ↦
        if contains (order.parent to) disk.directories
        then ok (record disk { files = insert to contents disk.files })
        else raise (missing_directory to)
  ]

  unfoldable pub perform_all : List Step → Disk → Result Failure Disk
  unfolding perform
  perform_all [] disk = ok disk
  perform_all (s ∷ steps) disk = perform s disk >>= perform_all steps

module _ (join : Text → Text → Text) where
  -- `shutil.copyfile(os.path.join(from, name), os.path.join(to, name))`
  abbrev pub copy_named : (from to name : Text) → Step
  copy_named from to name = copy_file (join from name) (join to name)

  -- A resource of dpe/web, which loses its directory.
  abbrev pub copy_web : (dpe_dir to name : Text) → Step
  copy_web dpe_dir to name = copy_file (join dpe_dir (codes "web\\" ++ name)) (join to name)

  unfoldable pub copy_runtime : (src_dir dest_dir : Text) → List Step
  copy_runtime src_dir dest_dir =
      copy_named src_dir dest_dir (codes "msvcr120.dll")
      ∷ copy_named src_dir dest_dir (codes "msvcp120.dll")
      ∷ copy_named src_dir dest_dir (codes "zmq.dll")
      ∷ []

  unfoldable pub copy_dpe_files : (dpe_dir dest_dir : Text) → List Step
  copy_dpe_files dpe_dir dest_dir =
      copy_web dpe_dir dest_dir (codes "Chart.bundle.js")
      ∷ copy_web dpe_dir dest_dir (codes "index.html")
      ∷ copy_web dpe_dir dest_dir (codes "jquery.min.js")
      ∷ copy_named dpe_dir dest_dir (codes "main.cc")
      ∷ []

  module _ (root : Text) where
    -- One turn of the loop of `release_dpe`.
    unfoldable pub release_dpe_for : Text → List Step
    unfolding copy_runtime copy_dpe_files
    release_dpe_for dir =
        let src_dir = join root (codes "output\\" ++ dir) in
        let dest_dir = join (join root (codes "release\\dpe")) dir in
        let dpe_dir = join root (codes "dpe") in
        make_directories dest_dir ∷ copy_runtime src_dir dest_dir
        ++ copy_named src_dir dest_dir (codes "dpe.dll") ∷ copy_dpe_files dpe_dir dest_dir
        ++ copy_named dpe_dir dest_dir (codes "dpe.h") ∷ []

    unfoldable pub release_dpe : List Step
    unfolding release_dpe_for
    release_dpe =
        let output = join root (codes "release\\dpe") in
        let dpe_dir = join root (codes "dpe") in
        clear output ∷ make_directories output ∷ release_dpe_for (codes "Release")
        ++ release_dpe_for (codes "Release_x64")
        ++ copy_named dpe_dir output (codes "README.md")
          ∷ copy_named dpe_dir output (codes "README_cn.md")
          ∷ []

    -- One turn of the loop of `release_dcfpe`.
    unfoldable pub release_dcfpe_for : Text → List Step
    unfolding copy_runtime copy_dpe_files
    release_dcfpe_for dir =
        let src_dir = join root (codes "output\\" ++ dir) in
        let output = join root (codes "release\\dcfpe") in
        let rs_dest = join output (codes "rs\\" ++ dir) in
        let rs_dir = join root (codes "remote_shell") in
        let dpe_dest = join output (codes "dpe\\" ++ dir) in
        let dpe_dir = join root (codes "dpe") in
        make_directories rs_dest ∷ copy_runtime src_dir rs_dest
        ++ copy_named src_dir rs_dest (codes "rs.exe")
          ∷ copy_named rs_dir rs_dest (codes "deploy_demo.txt")
          ∷ copy_named rs_dir rs_dest (codes "deploy_demo_README.txt")
          ∷ make_directories dpe_dest
          ∷ copy_runtime src_dir dpe_dest
        ++ copy_named src_dir dpe_dest (codes "dpe.dll")
          ∷ copy_named src_dir dpe_dest (codes "pm.exe")
          ∷ copy_dpe_files dpe_dir dpe_dest
        ++ copy_named dpe_dir dpe_dest (codes "dpe.h") ∷ []

    unfoldable pub release_dcfpe : List Step
    unfolding release_dcfpe_for
    release_dcfpe =
        let output = join root (codes "release\\dcfpe") in
        let dpe_dir = join root (codes "dpe") in
        clear output ∷ make_directories output ∷ release_dcfpe_for (codes "Release")
        ++ release_dcfpe_for (codes "Release_x64")
        ++ copy_named dpe_dir (join output (codes "dpe")) (codes "README.md")
          ∷ copy_named dpe_dir (join output (codes "dpe")) (codes "README_cn.txt")
          ∷ copy_named (join root (codes "remote_shell")) (join output (codes "rs"))
              (codes "README.md")
          ∷ copy_file (join root (codes "../README.md")) (join output (codes "README.md"))
          ∷ []

    -- `main` of install.py, where HOMEDIR is set; without it the script exits with status -1.
    unfoldable pub install : (homedir : Text) → Option (List Step)
    unfolding copy_dpe_files
    install [] = none
    install (c ∷ s) =
        let src_dir = join root (codes "output\\Release_x64") in
        let dpe_dir = join root (codes "dpe") in
        let dest_dir = join (c ∷ s) (codes "usr\\bin\\dpe") in
        some (
          clear dest_dir
            ∷ make_directories dest_dir
            ∷ copy_named src_dir dest_dir (codes "zmq.dll")
            ∷ copy_named src_dir dest_dir (codes "dpe.dll")
            ∷ copy_dpe_files dpe_dir dest_dir
          ++ copy_named dpe_dir (join (c ∷ s) (codes "usr\\include")) (codes "dpe.h") ∷ [])

module _ (order : PathOrder) (join : Text → Text → Text) (root : Text) where
  -- The loop of `main` of release.py. For dcfpe it calls a function by a name that is not defined.
  unfoldable pub release_each : List Text → Disk → Result Failure Disk
  unfolding perform_all release_dpe
  release_each [] disk = ok disk
  release_each (target ∷ targets) disk =
      let skip = release_each targets disk in
      let after_dpe = (perform_all order (release_dpe join root) disk >>= release_each targets) in
      if text_eq target (codes "dpe")
      then after_dpe
      else if text_eq target (codes "dcfpe")
      then raise (undefined_name (codes "releaes_dcfpe"))
      else skip

  unfoldable pub release_main : (argv : List Text) → Disk → Result Failure Disk
  unfolding release_each
  release_main (script ∷ target ∷ targets) disk = release_each (target ∷ targets) disk
  release_main _ disk = release_each (codes "dpe" ∷ []) disk
