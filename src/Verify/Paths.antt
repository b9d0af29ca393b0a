-- ===== src/Verify/Paths.antt =====
-- `pack_relative_path`: a path below the directory, and each of them.
use greentic_designer_extens.Base.{
  ℕ, ◌≡◌, ◌≢◌, refl, sym, ◌∙◌, subst, inl, inr, Bool, false, ◌||◌, some, List, [], ◌∷◌, ◌++◌, Memᴰ,
  Text, codes, text_eq, All, split_on, push_head, ◌==◌, Bool-cases, arith, if◌then◌else◌,
}
use mathlib.Core.List.{append_assoc}
use greentic_designer_extens.Runtime.Defs.{FilePath}
use greentic_designer_extens.Verify.Defs.{
  Component, normal, root_dir, cur_dir, parent_dir, later_components, components_of, join_normal,
  pack_relative_path,
}

-- A name in a directory.
pub record IsName (n : Text) : Type 0 where
  pub inhabited : n ≢ []
  pub no_dot : n ≢ codes "."
  pub no_dots : n ≢ codes ".."
  pub no_slash : Memᴰ b'/' n → ⊥

-- The path is below the directory, by names alone.
pub record IsUnder (dir p : FilePath) : Type 0 where
  pub names : List Text
  pub inhabited : names ≢ []
  pub split : p ≡ names ++ dir
  pub named : All IsName names

abbrev pub NoSlash : Text → Type 0
NoSlash s = Memᴰ b'/' s → ⊥

cons_NoSlash : (b : ℕ) (s : Text) → (b == b'/') ≡ false → NoSlash s → NoSlash (b ∷ s)
cons_NoSlash b s e f (Memᴰ.head same) = ground (arith)
cons_NoSlash b s e f (Memᴰ.tail i) = f i

push_head-NoSlash :
    (b : ℕ) (parts : List Text)
    → (b == b'/') ≡ false
    → All NoSlash parts
    → All NoSlash (push_head b parts)
unfolding push_head
push_head-NoSlash b [] e f = (cons_NoSlash b [] e (λ i. elim i [ ]), tt)
push_head-NoSlash b (s ∷ parts) e f = (cons_NoSlash b s e f.0, f.1)

pub split_on-NoSlash : (s : Text) → All NoSlash (split_on b'/' s)
unfolding split_on
split_on-NoSlash [] = ((λ i. elim i [ ]), tt)
split_on-NoSlash (c ∷ s) = elim (Bool-cases (c == b'/')) [
  | inl e ↦ rw e ((λ i. elim i [ ]), split_on-NoSlash s)
  | inr e ↦ rw e (push_head-NoSlash c (split_on b'/' s) e (split_on-NoSlash s))
]

-- What the components of a path without slashes are.
unfoldable pub Good : Component → Type 0
Good (normal n) = IsName n
Good root_dir = Unit
Good cur_dir = Unit
Good parent_dir = Unit

segment_named :
    (p : Text)
    → (text_eq p [] || text_eq p (codes ".")) ≡ false
    → text_eq p (codes "..") ≡ false
    → NoSlash p
    → IsName p
segment_named p e d f = record {
  inhabited = λ h. cc (rw h at e);
  no_dot = λ h. cc (rw h at e);
  no_dots = λ h. cc (rw h at d);
  no_slash = f;
}

pub later_Good : (ps : List Text) → All NoSlash ps → All Good (later_components ps)
unfolding Good
later_Good [] f = tt
later_Good (p ∷ ps) f = elim (Bool-cases (text_eq p [] || text_eq p (codes "."))) [
  | inl e ↦ rw e (later_Good ps f.1)
  | inr e ↦ elim (Bool-cases (text_eq p (codes ".."))) [
    | inl d ↦ rw (e, d) (tt, later_Good ps f.1)
    | inr d ↦ rw (e, d) (segment_named p e d f.0, later_Good ps f.1)
  ]
]

else_of :
    (P : List Component → Type 0) (b : Bool) (x y : List Component)
    → b ≡ false
    → P y
    → P (if b then x else y)
else_of P b x y e i = rw e i

components_Good : (ps : List Text) → All NoSlash ps → All Good (components_of ps)
unfolding components_of Good
components_Good [] f = tt
components_Good (p ∷ []) f = elim (Bool-cases (text_eq p (codes "."))) [
  | inl e ↦ rw e (tt, tt)
  | inr e ↦ else_of (All Good) _ _ _ e (later_Good (p ∷ []) f)
]
components_Good (p ∷ q ∷ ps) f = elim (Bool-cases (text_eq p [])) [
  | inl e ↦ rw e (tt, later_Good (q ∷ ps) f.1)
  | inr e ↦ elim (Bool-cases (text_eq p (codes "."))) [
    | inl d ↦ rw (e, d) (tt, later_Good (q ∷ ps) f.1)
    | inr d ↦ else_of (All Good) _ _ _ e (else_of (All Good) _ _ _ d (later_Good (p ∷ q ∷ ps) f))
  ]
]

-- The names between a directory and a path.
pub record Joined (dir p : FilePath) : Type 0 where
  pub names : List Text
  pub split : p ≡ names ++ dir
  pub named : All IsName names

All-append_one :
    (names : List Text) (n : Text) → All IsName names → IsName n → All IsName (names ++ (n ∷ []))
All-append_one [] n f g = (g, tt)
All-append_one (m ∷ names) n f g = (f.0, All-append_one names n f.1 g)

not_last : (names : List Text) (n : Text) → names ++ (n ∷ []) ≢ []
not_last [] n = λ e. cc
not_last (m ∷ names) n = λ e. cc

Joined-IsUnder :
    (dir : FilePath) (n : Text) (p : FilePath) → IsName n → Joined (n ∷ dir) p → IsUnder dir p
Joined-IsUnder dir n p g j = record {
  names = j.names ++ (n ∷ []);
  inhabited = not_last j.names n;
  split = j.split ∙ sym (append_assoc j.names (n ∷ []) dir);
  named = All-append_one j.names n j.named g;
}

IsUnder-Joined : (dir p : FilePath) → IsUnder dir p → Joined dir p
IsUnder-Joined dir p u = record { names = u.names; split = u.split; named = u.named }

pub join_normal-Joined :
    (dir : FilePath) (cs : List Component) (p : FilePath)
    → All Good cs
    → join_normal dir cs ≡ some p
    → Joined dir p
unfolding join_normal Good
join_normal-Joined dir [] p g h = record { names = []; split = cc; named = tt }
join_normal-Joined dir (root_dir ∷ cs) p g h = cc
join_normal-Joined dir (cur_dir ∷ cs) p g h = cc
join_normal-Joined dir (parent_dir ∷ cs) p g h = cc
join_normal-Joined dir (normal n ∷ cs) p g h =
    IsUnder-Joined dir p (Joined-IsUnder dir n p g.0 (join_normal-Joined (n ∷ dir) cs p g.1 h))

join_normal-IsUnder :
    (dir : FilePath) (c : Component) (cs : List Component) (p : FilePath)
    → All Good (c ∷ cs)
    → join_normal dir (c ∷ cs) ≡ some p
    → IsUnder dir p
unfolding join_normal Good
join_normal-IsUnder dir root_dir cs p g h = cc
join_normal-IsUnder dir cur_dir cs p g h = cc
join_normal-IsUnder dir parent_dir cs p g h = cc
join_normal-IsUnder dir (normal n) cs p g h =
    Joined-IsUnder dir n p g.0 (join_normal-Joined (n ∷ dir) cs p g.1 h)

-- A list of components that is not empty.
abbrev Starts : List Component → Type 0
Starts cs = (c : Component) × (rest : List Component) × (cs ≡ c ∷ rest)

later_Starts :
    (b : ℕ) (s : Text) (ps : List Text)
    → text_eq (b ∷ s) (codes ".") ≡ false
    → Starts (later_components ((b ∷ s) ∷ ps))
later_Starts b s ps e = elim (Bool-cases (text_eq (b ∷ s) (codes ".."))) [
  | inl d ↦ (parent_dir, later_components ps, rw (e, d) refl)
  | inr d ↦ (normal (b ∷ s), later_components ps, rw (e, d) refl)
]

components_Starts : (b : ℕ) (s : Text) (ps : List Text) → Starts (components_of ((b ∷ s) ∷ ps))
unfolding components_of
components_Starts b s [] = elim (Bool-cases (text_eq (b ∷ s) (codes "."))) [
  | inl e ↦ (cur_dir, [], rw e refl)
  | inr e ↦ else_of Starts _ _ _ e (later_Starts b s [] e)
]
components_Starts b s (q ∷ ps) = elim (Bool-cases (text_eq (b ∷ s) (codes "."))) [
  | inl e ↦ (cur_dir, later_components (q ∷ ps), rw e refl)
  | inr e ↦ else_of Starts _ _ _ e (later_Starts b s (q ∷ ps) e)
]

push_head_cons :
    (b : ℕ) (parts : List Text) → (s : Text) × (ps : List Text) × (push_head b parts ≡ (b ∷ s) ∷ ps)
unfolding push_head
push_head_cons b [] = ([], [], refl)
push_head_cons b (s ∷ parts) = (s, parts, refl)

split_on_cons : (s : Text) → (p : Text) × (ps : List Text) × (split_on b'/' s ≡ p ∷ ps)
unfolding split_on
split_on_cons [] = ([], [], refl)
split_on_cons (c ∷ s) = elim (Bool-cases (c == b'/')) [
  | inl e ↦ ([], split_on b'/' s, rw e refl)
  | inr e ↦ let (t, ps, same) = push_head_cons c (split_on b'/' s) in (c ∷ t, ps, rw e same)
]

text_Starts : (b : ℕ) (rel : Text) → Starts (components_of (split_on b'/' (b ∷ rel)))
unfolding split_on components_of
text_Starts b rel = elim (Bool-cases (b == b'/')) [
  | inl e ↦
      let (q, qs, same) = split_on_cons rel in
      (root_dir, later_components (q ∷ qs), rw (e, same) refl)
  | inr e ↦
      let (s, ps, same) = push_head_cons b (split_on b'/' rel) in
      rw (e, same) (components_Starts b s ps)
]

-- A path that `pack_relative_path` answers is below the directory by one name or more, none of them
-- empty, `.` or `..` or with a slash in it, whatever the text.
pub pack_relative_path-IsUnder :
    (dir : FilePath) (rel : Text) (p : FilePath)
    → pack_relative_path dir rel ≡ some p
    → IsUnder dir p
unfolding pack_relative_path
pack_relative_path-IsUnder dir [] p h = cc
pack_relative_path-IsUnder dir (b ∷ rel) p h =
    let (c, cs, same) = text_Starts b rel in
    let good = components_Good (split_on b'/' (b ∷ rel)) (split_on-NoSlash (b ∷ rel)) in
    join_normal-IsUnder dir c cs p (subst (All Good) same good) (rw same at h)
