-- ===== src/Watch/Rescan.antt =====
-- What a scan of a kind's directory lists is what the watcher takes a changed path to belong to.
use greentic_designer_extens.Base.{
  ◌≡◌, ◌≢◌, ◌↔◌, inl, inr, true, some, List, [], ◌∷◌, Memᴰ, Text, codes, Bool-cases,
}
use greentic_designer_extens.Base.Outcome.{Outcome, Outcome-cases, ok}
use greentic_designer_extens.Base.Sorting.{sort, Sorted, sort-Memᴰ, sort-Sorted}
use greentic_designer_extens.Capability.Contract.{Semver, Contract}
use greentic_designer_extens.Runtime.Defs.{FilePath}
use greentic_designer_extens.Watch.Defs.{FileSystem, Stat, find_extension_dir}
use greentic_designer_extens.Watch.Walk.{self, Above-le, find_extension_dir_iff}
use greentic_designer_extens.Watch.Discovery.{
  DirEntry, Directories, scan_entries, path_leb, scan_kind_dir,
}
use greentic_designer_extens.Watch.Scan.{Listed, scan_entries-Listed, path_leb-total}

-- The directory exists, and has an entry that is listed at the path.
pub record Found (fs : Directories) (kind_dir d : FilePath) : Type 0 where
  pub entries : List (Outcome Text DirEntry)
  pub there : fs.exists kind_dir ≡ true
  pub read : fs.read_dir kind_dir ≡ ok entries
  pub listed : Listed fs kind_dir entries d

-- The scan lists what it finds, in order.
pub record Scanned (fs : Directories) (kind_dir : FilePath) (out : List FilePath) : Type 0 where
  pub found : (d : FilePath) → Memᴰ d out ↔ Found fs kind_dir d
  pub sorted : Sorted path_leb out

sorted-Scanned :
    (fs : Directories) (kind_dir : FilePath) (entries : List (Outcome Text DirEntry))
    (o : List FilePath)
    → fs.exists kind_dir ≡ true
    → fs.read_dir kind_dir ≡ ok entries
    → scan_entries fs kind_dir entries ≡ ok o
    → Scanned fs kind_dir (sort path_leb o)
sorted-Scanned fs kind_dir entries o there read h = record {
  found = λ d. (to d, from d);
  sorted = sort-Sorted path_leb path_leb-total o;
}
  where
    to : (d : FilePath) → Memᴰ d (sort path_leb o) → Found fs kind_dir d
    to d i = record {
      entries = entries;
      there = there;
      read = read;
      listed = (scan_entries-Listed fs kind_dir entries o h d).0 ((sort-Memᴰ path_leb o d).0 i);
    }

    from : (d : FilePath) → Found fs kind_dir d → Memᴰ d (sort path_leb o)
    from d f =
        let same : f.entries ≡ entries = cc (f.read, read) in
        (sort-Memᴰ path_leb o d).1
          ((scan_entries-Listed fs kind_dir entries o h d).1 (rw same at f.listed))

scan_kind_dir-Scanned :
    (fs : Directories) (kind_dir : FilePath) (out : List FilePath)
    → scan_kind_dir fs kind_dir ≡ ok out
    → Scanned fs kind_dir out
unfolding scan_kind_dir
scan_kind_dir-Scanned fs kind_dir out h = elim (Bool-cases (fs.exists kind_dir)) [
  | inr missing ↦
      let empty : [] ≡ out = cc (rw missing at h) in
      rw (← empty) (record {
        found = λ d. (λ i. elim i [ ], λ f. absurd (cc (f.there, missing)));
        sorted = Sorted.none;
      })
  | inl there ↦ elim (Outcome-cases (fs.read_dir kind_dir)) [
    | inl (e, bad) ↦ absurd (cc (rw (there, bad) at h))
    | inr (entries, read) ↦ elim (Outcome-cases (scan_entries fs kind_dir entries)) [
      | inl (e, bad) ↦ absurd (cc (rw (there, read, bad) at h))
      | inr (o, good) ↦
          let same : sort path_leb o ≡ out = cc (rw (there, read, good) at h) in
          rw (← same) (sorted-Scanned fs kind_dir entries o there read good)
    ]
  ]
]

module _ (s : Semver) (c : Contract) where
  open c use {ExtensionKind, all_kinds, dir_name, describe_entry_name}

  -- The files as the watcher sees them.
  abbrev pub watched : Directories → (FilePath → Stat) → FileSystem
  watched fs stat = record { exists = fs.exists; symlink_metadata = stat }

  -- If the contract's description is `describe.json`, and the scan of a kind's directory below a
  -- configured root succeeds, it lists in order exactly the entries of the directory that are
  -- directories with a description, and the watcher takes each of them to be an extension's directory.
  pub scan_kind_dir_lem :
      (fs : Directories) (stat : FilePath → Stat) (roots : List FilePath) (root : FilePath)
      (kind : ExtensionKind) (out : List FilePath)
      → describe_entry_name ≡ codes "describe.json"
      → Memᴰ kind all_kinds
      → dir_name kind ≢ codes ".."
      → Memᴰ root roots
      → scan_kind_dir fs (dir_name kind ∷ root) ≡ ok out
      → Scanned fs (dir_name kind ∷ root) out
        × ((d : FilePath) → Memᴰ d out → find_extension_dir s c (watched fs stat) roots d ≡ some d)
  scan_kind_dir_lem fs stat roots root kind out named known plain configured h =
      let scanned = scan_kind_dir-Scanned fs (dir_name kind ∷ root) out h in
      (
        scanned,
        λ d i.
            let f = (scanned.found d).0 i in
            (find_extension_dir_iff s c (watched fs stat) roots d d).1 (
              record {
                above = self;
                described = rw (named, f.listed.path) f.listed.has_description;
                is_dir = record {
                  name = f.listed.entry.name;
                  kind = kind;
                  root = root;
                  known = known;
                  plain = plain;
                  configured = configured;
                  shape = f.listed.path;
                };
              },
              λ q o. Above-le q d o.above,
            ),
      )
