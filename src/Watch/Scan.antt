-- ===== src/Watch/Scan.antt =====
-- `scan_kind_dir`, and the directories that the watcher owns.
use greentic_designer_extens.Base.{
  ◌≡◌, refl, sym, ◌↔◌, ◌⊎◌, inl, inr, true, false, List, [], ◌∷◌, Memᴰ, Text, text_eq, text_eq_iff,
  Bool-cases,
}
use greentic_designer_extens.Base.Outcome.{Outcome, Outcome-cases, ok, err}
use greentic_designer_extens.Base.Sorting.{text_leb-total}
use greentic_designer_extens.Runtime.Defs.{FilePath}
use greentic_designer_extens.Watch.Discovery.{
  DirEntry, Directories, described, push_entry, scan_entries, components, names_leb, path_leb,
}

names_leb-total : (p q : List Text) → (names_leb p q ≡ true) ⊎ (names_leb q p ≡ true)
names_leb-total [] q = inl refl
names_leb-total (a ∷ p) [] = inr refl
names_leb-total (a ∷ p) (b ∷ q) = elim (Bool-cases (text_eq a b)) [
  | inl e ↦
      let back : text_eq b a ≡ true = (text_eq_iff b a).1 (sym ((text_eq_iff a b).0 e)) in
      rw (e, back) (names_leb-total p q)
  | inr e ↦ elim (Bool-cases (text_eq b a)) [
    | inl back ↦ absurd (cc (e, (text_eq_iff a b).1 (sym ((text_eq_iff b a).0 back))))
    | inr back ↦ rw (e, back) (text_leb-total a b)
  ]
]

pub path_leb-total : (p q : FilePath) → (path_leb p q ≡ true) ⊎ (path_leb q p ≡ true)
path_leb-total p q = names_leb-total (components p) (components q)

-- An entry of the directory that is one itself and has a description.
pub record Listed (fs : Directories) (kind_dir : FilePath) (entries : List (Outcome Text DirEntry))
    (d : FilePath) : Type 0 where
  pub entry : DirEntry
  pub there : Memᴰ (ok entry) entries
  pub is : entry.is_dir ≡ ok true
  pub has_description : described fs kind_dir entry ≡ true
  pub path : d ≡ entry.name ∷ kind_dir

module _ (fs : Directories) (kind_dir : FilePath) where
  skipped :
      (x : Outcome Text DirEntry) (entries : List (Outcome Text DirEntry)) (d : FilePath)
      → Listed fs kind_dir entries d
      → Listed fs kind_dir (x ∷ entries) d
  skipped x entries d l = record {
    entry = l.entry;
    there = Memᴰ.tail l.there;
    is = l.is;
    has_description = l.has_description;
    path = l.path;
  }

  -- The entry in front is the one that is listed, or stands behind it.
  first_or_later :
      (entry : DirEntry) (entries : List (Outcome Text DirEntry)) (d : FilePath)
      → Listed fs kind_dir (ok entry ∷ entries) d
      → ((entry.is_dir ≡ ok true)
          × (described fs kind_dir entry ≡ true)
          × (d ≡ entry.name ∷ kind_dir))
        ⊎ Listed fs kind_dir entries d
  first_or_later entry entries d l = elim (l.there) [
    | Memᴰ.head same ↦
        let one : l.entry ≡ entry = cc (same) in
        inl (rw one at l.is, rw one at l.has_description, rw one at l.path)
    | Memᴰ.tail i ↦ inr (record {
      entry = l.entry;
      there = i;
      is = l.is;
      has_description = l.has_description;
      path = l.path;
    })
  ]

  push_first :
      (entry : DirEntry) (entries : List (Outcome Text DirEntry)) (o : List FilePath)
      → entry.is_dir ≡ ok true
      → described fs kind_dir entry ≡ true
      → ((d : FilePath) → Memᴰ d o ↔ Listed fs kind_dir entries d)
      → (d : FilePath)
      → Memᴰ d ((entry.name ∷ kind_dir) ∷ o) ↔ Listed fs kind_dir (ok entry ∷ entries) d
  push_first entry entries o is shown ih d = (to, from)
    where
      to : Memᴰ d ((entry.name ∷ kind_dir) ∷ o) → Listed fs kind_dir (ok entry ∷ entries) d
      to (Memᴰ.head same) = record {
        entry = entry;
        there = Memᴰ.head refl;
        is = is;
        has_description = shown;
        path = same;
      }
      to (Memᴰ.tail i) = skipped (ok entry) entries d ((ih d).0 i)

      from : Listed fs kind_dir (ok entry ∷ entries) d → Memᴰ d ((entry.name ∷ kind_dir) ∷ o)
      from l = elim (first_or_later entry entries d l) [
        | inl (_, _, same) ↦ Memᴰ.head same
        | inr later ↦ Memᴰ.tail ((ih d).1 later)
      ]

  skip_first :
      (entry : DirEntry) (entries : List (Outcome Text DirEntry)) (o : List FilePath)
      → ((entry.is_dir ≡ ok true) → (described fs kind_dir entry ≡ true) → ⊥)
      → ((d : FilePath) → Memᴰ d o ↔ Listed fs kind_dir entries d)
      → (d : FilePath) → Memᴰ d o ↔ Listed fs kind_dir (ok entry ∷ entries) d
  skip_first entry entries o not_one ih d = (
    λ i. skipped (ok entry) entries d ((ih d).0 i),
    λ l. elim (first_or_later entry entries d l) [
      | inl (is, shown, _) ↦ absurd (not_one is shown)
      | inr later ↦ (ih d).1 later
    ],
  )

  pub scan_entries-Listed :
      (entries : List (Outcome Text DirEntry)) (out : List FilePath)
      → scan_entries fs kind_dir entries ≡ ok out
      → (d : FilePath) → Memᴰ d out ↔ Listed fs kind_dir entries d
  unfolding scan_entries push_entry
  scan_entries-Listed [] out h d =
      let empty : [] ≡ out = cc (h) in rw (← empty) (λ i. elim i [ ], λ l. elim (l.there) [ ])
  scan_entries-Listed (err e ∷ entries) out h d = absurd (cc (h))
  scan_entries-Listed (ok entry ∷ entries) out h d =
      let ih = scan_entries-Listed entries in
      elim (Outcome-cases (entry.is_dir)) [
        | inl (e, bad) ↦ absurd (cc (rw bad at h))
        | inr (false, file) ↦
            skip_first entry entries out (λ is shown. cc (is, file)) (ih out (rw file at h)) d
        | inr (true, dir) ↦ elim (Bool-cases (described fs kind_dir entry)) [
          | inr bare ↦
              skip_first entry entries out (λ is shown. cc (shown, bare))
                (ih out (rw (dir, bare) at h)) d
          | inl shown ↦ elim (Outcome-cases (scan_entries fs kind_dir entries)) [
            | inl (e, bad) ↦ absurd (cc (rw (dir, shown, bad) at h))
            | inr (o, good) ↦
                let same : (entry.name ∷ kind_dir) ∷ o ≡ out = cc (rw (dir, shown, good) at h) in
                rw (← same) (push_first entry entries o dir shown (ih o good) d)
          ]
        ]
      ]
