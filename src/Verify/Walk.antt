-- ===== src/Verify/Walk.antt =====
-- The walk over an unverified directory leaves no file out.
use greentic_designer_extens.Base.{
  ℕ, zero, suc, ◌≡◌, refl, subst, ◌≢◌, ◌⊎◌, inl, inr, List, [], ◌∷◌, ◌++◌, Memᴰ, Memᴰ-append_left,
  Memᴰ-append_right,
}
use greentic_designer_extens.Base.Outcome.{Outcome, Outcome-cases, ok}
use greentic_designer_extens.Runtime.Defs.{FilePath}
use greentic_designer_extens.Verify.Sdk.{Meta, is_file, is_dir, is_other, Disk}
use greentic_designer_extens.Verify.Defs.{
  VerifyError, collect_entries, collect_into, collect_pack_files, max_pack_depth,
}

pub is_dir_or : (m : Meta) → (m ≡ is_dir) ⊎ (m ≢ is_dir)
is_dir_or is_file = inr (λ e. cc (e))
is_dir_or is_dir = inl refl
is_dir_or is_other = inr (λ e. cc (e))

module _ (disk : Disk) where
  -- A path that is no directory, below `current` by directories that are read and no links.
  pub data Reached (p : FilePath) : FilePath → Type 0 where
    at_level :
        (current : FilePath) (entries : List FilePath) (m : Meta)
        → disk.read_dir current ≡ ok entries
        → Memᴰ p entries
        → disk.symlink_metadata p ≡ ok m
        → m ≢ is_dir
        → Reached p current
    inside :
        (current : FilePath) (entries : List FilePath) (q : FilePath)
        → disk.read_dir current ≡ ok entries
        → Memᴰ q entries
        → disk.symlink_metadata q ≡ ok is_dir
        → Reached p q
        → Reached p current

  module _ (descend : FilePath → List FilePath → Outcome VerifyError (List FilePath)) where
    -- One round of the loop: a directory is entered, anything else is appended, an error ends it.
    round :
        (path : FilePath) (entries out out' : List FilePath)
        → collect_entries disk descend (path ∷ entries) out ≡ ok out'
        → ((disk.symlink_metadata path ≡ ok is_dir)
            × ((mid : List FilePath) × (descend path out ≡ ok mid)
                × (collect_entries disk descend entries mid ≡ ok out')))
          ⊎ ((disk.symlink_metadata path ≢ ok is_dir)
              × (collect_entries disk descend entries (out ++ (path ∷ [])) ≡ ok out'))
    unfolding collect_entries
    round path entries out out' h = elim (Outcome-cases (disk.symlink_metadata path)) [
      | inl (e, bad) ↦ absurd (cc (rw (bad, collect_entries) at h))
      | inr (is_dir, e) ↦ elim (Outcome-cases (descend path out)) [
        | inl (e', bad) ↦ absurd (cc (rw (e, collect_entries, bad) at h))
        | inr (mid, good) ↦ inl (e, (mid, good, rw (e, collect_entries, good) at h))
      ]
      | inr (is_file, e) ↦ inr (λ k. cc (e, k), rw (e, collect_entries) at h)
      | inr (is_other, e) ↦ inr (λ k. cc (e, k), rw (e, collect_entries) at h)
    ]

    entries_keep :
        (x : FilePath)
        → ((q : FilePath) (o o' : List FilePath) → descend q o ≡ ok o' → Memᴰ x o → Memᴰ x o')
        → (entries out out' : List FilePath) → collect_entries disk descend entries out ≡ ok out'
        → Memᴰ x out
        → Memᴰ x out'
    unfolding collect_entries
    entries_keep x keeps [] out out' h i = subst (λ l. Memᴰ x l) (cc (h)) i
    entries_keep x keeps (path ∷ entries) out out' h i = elim (round path entries out out' h) [
      | inl (_, (mid, e, rest)) ↦
          entries_keep x keeps entries mid out' rest (keeps path out mid e i)
      | inr (_, rest) ↦
          entries_keep x keeps entries _ out' rest (Memᴰ-append_left x out (path ∷ []) i)
    ]

    -- A file of the directory is found, and so is what the call finds below a directory in it.
    entries_find :
        (x q : FilePath)
        → ((q : FilePath) (o o' : List FilePath) → descend q o ≡ ok o' → Memᴰ x o → Memᴰ x o')
        → ((disk.symlink_metadata q ≢ ok is_dir) × (x ≡ q))
          ⊎ ((disk.symlink_metadata q ≡ ok is_dir)
              × ((o o' : List FilePath) → descend q o ≡ ok o' → Memᴰ x o'))
        → (entries out out' : List FilePath) → collect_entries disk descend entries out ≡ ok out'
        → Memᴰ q entries
        → Memᴰ x out'
    entries_find x q keeps why [] out out' h i = elim i [ ]
    entries_find x q keeps why (path ∷ entries) out out' h (Memᴰ.tail i) =
        elim (round path entries out out' h) [
          | inl (_, (mid, e, rest)) ↦ entries_find x q keeps why entries mid out' rest i
          | inr (_, rest) ↦ entries_find x q keeps why entries _ out' rest i
        ]
    entries_find x q keeps why (path ∷ entries) out out' h (Memᴰ.head same) =
        elim (round path entries out out' h) [
          | inl (d, (mid, e, rest)) ↦ elim why [
            | inl (no_dir, _) ↦ absurd (no_dir (rw same d))
            | inr (_, finds) ↦
                entries_keep x keeps entries mid out' rest (finds out mid (rw same e))
          ]
          | inr (no_dir, rest) ↦ elim why [
            | inr (d, _) ↦ absurd (no_dir (rw (← same) d))
            | inl (_, e) ↦
                entries_keep x keeps entries _ out' rest
                  (Memᴰ-append_right x out (path ∷ []) (Memᴰ.head (cc (e, same))))
          ]
        ]

  into_keep :
      (x : FilePath) (levels : ℕ) (current : FilePath) (out out' : List FilePath)
      → collect_into disk levels current out ≡ ok out'
      → Memᴰ x out
      → Memᴰ x out'
  unfolding collect_into
  into_keep x zero current out out' h i = cc (h)
  into_keep x (suc levels) current out out' h i = elim (Outcome-cases (disk.read_dir current)) [
    | inl (e, bad) ↦ absurd (cc (rw (bad, collect_into) at h))
    | inr (entries, good) ↦
        entries_keep (collect_into disk levels) x (into_keep x levels) entries out out'
          (rw (good, collect_into) at h) i
  ]

  into_find :
      (x : FilePath) (levels : ℕ) (current : FilePath) (out out' : List FilePath)
      → Reached x current
      → collect_into disk levels current out ≡ ok out'
      → Memᴰ x out'
  unfolding collect_into
  into_find x zero current out out' r h = cc (h)
  into_find x (suc levels) _ out out' (at_level current entries m reads i meta ne) h =
      entries_find (collect_into disk levels) x x (into_keep x levels)
        (inl ((λ e. ne (cc (e, meta))), refl)) entries out out' (rw (reads, collect_into) at h) i
  into_find x (suc levels) _ out out' (inside current entries q reads i meta r) h =
      entries_find (collect_into disk levels) x q (into_keep x levels)
        (inr (meta, λ o o' e. into_find x levels q o o' r e)) entries out out'
        (rw (reads, collect_into) at h) i

  -- When the walk answers, its answer holds every file below the directory.
  pub collect_pack_files_complete :
      (dir x : FilePath) (found : List FilePath)
      → collect_pack_files disk dir ≡ ok found
      → Reached x dir
      → Memᴰ x found
  unfolding collect_pack_files
  collect_pack_files_complete dir x found h r = into_find x (suc max_pack_depth) dir [] found r h
