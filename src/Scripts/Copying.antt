-- ===== src/Scripts/Copying.antt =====
-- What a sequence of the calls of src/release.py and src/install.py leaves on the disk.
use dcfpe.Common.{
  ◌≡◌, refl, ap, sym, ◌∙◌, inl, inr, Bool, true, false, not, some, List, [], ◌∷◌, ◌++◌,
  if◌then◌else◌, Text, text_eq, text_eq_iff, text_Eq, Dict, lookup, insert, lookup-insert,
  lookup-insert_self, contains, ◌&&◌, Bool-cases, Option-cases, arith,
}
use dcfpe.Common.Results.{Result, ok, raise, >>=-ok}
use dcfpe.Scripts.{
  Step, clear, make_directories, copy_file, Disk, Failure, missing_file, directory_exists, perform,
  perform_all, PathOrder, without_files, missing_directory,
}

lookup-without_files :
    (below : Text → Bool) (p : Text) (files : Dict Text Text)
    → below p ≡ false
    → lookup p (without_files below files) ≡ lookup p files
unfolding without_files lookup
lookup-without_files below p [] h = refl
lookup-without_files below p ((q, c) ∷ files) h = elim (Bool-cases (text_eq p q)) [
  | inl same ↦ ground (arith, ap below ((text_eq_iff p q).0 same))
  | inr other ↦ ground (arith, lookup-without_files below p files h)
]

abbrev files_of : Dict Text Text → Result Failure Disk → Dict Text Text
files_of otherwise (ok disk) = disk.files
files_of otherwise (raise e) = otherwise

module _ (order : PathOrder) where
  -- A call that copies no file to a path, and clears no directory that it lies in.
  unfoldable pub leaves : Text → Step → Bool
  leaves p (clear directory) = not (order.is_below directory p)
  leaves p (make_directories directory) = true
  leaves p (copy_file from to) = not (text_eq p to)

  unfoldable pub all_leave : Text → List Step → Bool
  all_leave p [] = true
  all_leave p (s ∷ steps) = leaves p s && all_leave p steps

  copied :
      (from to : Text) (disk disk' : Disk)
      → perform order (copy_file from to) disk ≡ ok disk'
      → (contents : Text) × (lookup from disk.files ≡ some contents)
        × (disk'.files ≡ insert to contents disk.files)
  unfolding perform
  copied from to disk disk' h = elim (Option-cases (lookup from disk.files)) [
    | inl missing ↦
        let h' : raise (missing_file from) ≡ ok disk' = (rw (missing, perform) at h) in
        absurd (ground arith)
    | inr found ↦
        let h' : (if contains (order.parent to) disk.directories
              then ok (record disk { files = insert to found.0 disk.files })
              else raise (missing_directory to))
            ≡ ok disk' =
          (rw (found.1, perform) at h) in
        elim (Bool-cases (contains (order.parent to) disk.directories)) [
          | inl there ↦
              let h'' : ok (record disk { files = insert to found.0 disk.files }) ≡ ok disk' =
                (rw there at h') in
              (found.0, found.1, sym (ap (files_of disk.files) h''))
          | inr none_there ↦ absurd (ground arith)
        ]
  ]

  perform-leaves :
      (p : Text) (s : Step) (disk disk' : Disk)
      → leaves p s ≡ true
      → perform order s disk ≡ ok disk'
      → lookup p disk'.files ≡ lookup p disk.files
  unfolding leaves perform
  perform-leaves p (clear directory) disk disk' l h =
      ap (lookup p) (sym (ap (files_of disk.files) h))
      ∙ elim (Bool-cases (contains directory disk.directories)) [
        | inl there ↦
            rw there (lookup-without_files (order.is_below directory) p disk.files (ground arith))
        | inr none_there ↦ rw none_there refl
      ]
  perform-leaves p (make_directories directory) disk disk' l h =
      elim (Bool-cases (contains directory disk.directories)) [
        | inl there ↦
            let h' : raise (directory_exists directory) ≡ ok disk' = (rw (there, perform) at h) in
            absurd (ground arith)
        | inr none_there ↦
            let made : Disk = record disk {
              directories = directory ∷ order.ancestors directory ++ disk.directories;
            } in
            let h' : ok made ≡ ok disk' = (rw (none_there, perform) at h) in
            ap (lookup p) (sym (ap (files_of disk.files) h'))
      ]
  perform-leaves p (copy_file from to) disk disk' l h =
      let c = copied from to disk disk' h in
      ap (lookup p) c.2 ∙ (lookup-insert to p c.0 disk.files ∙ ground arith)

  perform_all-leaves :
      (p : Text) (steps : List Step) (disk disk' : Disk)
      → all_leave p steps ≡ true
      → perform_all order steps disk ≡ ok disk'
      → lookup p disk'.files ≡ lookup p disk.files
  unfolding all_leave perform_all
  perform_all-leaves p [] disk disk' l h = ap (lookup p) (sym (ap (files_of disk.files) h))
  perform_all-leaves p (s ∷ steps) disk disk' l h =
      let first = >>=-ok (perform order s disk) (perform_all order steps) h in
      perform_all-leaves p steps first.0 disk' (ground arith) first.2
      ∙ perform-leaves p s disk first.0 (ground arith) first.1

  -- A copy in a sequence of calls that runs to its end: if no call before it touches the file that is
  -- copied, and no call behind it the copy, then the copy has at the end what the file had at the
  -- beginning.
  pub perform_all-copy_file :
      (before after : List Step) (from to : Text) (disk disk' : Disk)
      → all_leave from before ≡ true
      → all_leave to after ≡ true
      → perform_all order (before ++ copy_file from to ∷ after) disk ≡ ok disk'
      → (contents : Text) × (lookup from disk.files ≡ some contents)
        × (lookup to disk'.files ≡ some contents)
  unfolding all_leave perform_all
  perform_all-copy_file [] after from to disk disk' b a h =
      let first = >>=-ok (perform order (copy_file from to) disk) (perform_all order after) h in
      let c = copied from to disk first.0 first.1 in
      (
        c.0,
        c.1,
        perform_all-leaves to after first.0 disk' a first.2
            ∙ (ap (lookup to) c.2 ∙ lookup-insert_self to c.0 disk.files),
      )
  perform_all-copy_file (s ∷ before) after from to disk disk' b a h =
      let first =
        >>=-ok (perform order s disk) (perform_all order (before ++ copy_file from to ∷ after)) h in
      let rest =
        perform_all-copy_file before after from to first.0 disk' (ground arith) a first.2 in
      (rest.0, sym (perform-leaves from s disk first.0 (ground arith) first.1) ∙ rest.1, rest.2)
