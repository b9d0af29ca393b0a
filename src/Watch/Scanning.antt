-- ===== src/Watch/Scanning.antt =====
-- A scan of a kind's directory, with a file, a directory without a description, and two extensions.
use greentic_designer_extens.Base.{
  ◌≡◌, ◌≢◌, refl, true, false, some, List, [], ◌∷◌, ◌||◌, Memᴰ, Text, codes,
}
use greentic_designer_extens.Base.Outcome.{ok, err}
use greentic_designer_extens.Capability.Sample.{sample, kinds}
use greentic_designer_extens.Runtime.Defs.{FilePath, path_eq}
use greentic_designer_extens.Watch.Defs.{present, find_extension_dir}
use greentic_designer_extens.Watch.Discovery.{DirEntry, Directories, scan_kind_dir}
use greentic_designer_extens.Watch.Rescan.{Scanned, watched, scan_kind_dir_lem}

abbrev root : FilePath
root = codes "extensions" ∷ codes "home" ∷ []

abbrev design : FilePath
design = codes "design" ∷ root

abbrev at : Text → FilePath
at name = name ∷ design

abbrev folder : Text → DirEntry
folder name = record { name = name; is_dir = ok true }

abbrev tree : Directories
tree = record {
  exists = λ p.
      path_eq p design
      || (path_eq p (codes "describe.json" ∷ at (codes "b"))
          || path_eq p (codes "describe.json" ∷ at (codes "a")));
  read_dir = λ p. ok (
      ok (folder (codes "b"))
      ∷ ok (record { name = codes "a.txt"; is_dir = ok false })
      ∷ ok (folder (codes "empty"))
      ∷ ok (folder (codes "a"))
      ∷ []);
}

abbrev out : List FilePath
out = at (codes "a") ∷ at (codes "b") ∷ []

scan_test : scan_kind_dir tree design ≡ ok out
unfolding scan_kind_dir
scan_test = refl

unreadable_test :
    scan_kind_dir (record tree { read_dir = λ p. ok (err (codes "denied") ∷ []) }) design
    ≡ err (codes "denied")
unfolding scan_kind_dir
unreadable_test = refl

missing_test : scan_kind_dir tree (codes "deploy" ∷ root) ≡ ok []
unfolding scan_kind_dir
missing_test = refl

design-plain : codes "design" ≢ codes ".."
design-plain e = cc (e)

scan_kind_dir_lem_example :
    Scanned tree design out
    × ((d : FilePath)
        → Memᴰ d out
        → find_extension_dir sample kinds (watched sample kinds tree (λ p. present)) (root ∷ []) d
          ≡ some d)
scan_kind_dir_lem_example =
    scan_kind_dir_lem sample kinds tree (λ p. present) (root ∷ []) root (codes "design") out refl
      (Memᴰ.head refl) design-plain (Memᴰ.head refl) scan_test
