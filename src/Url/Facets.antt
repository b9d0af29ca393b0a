-- ===== src/Url/Facets.antt =====
-- The host, path and escape tests of url_matcher.rs against what they mean.
use greentic_designer_extens.Base.{
  ℕ, ◌≡◌, refl, sym, ap, ◌∙◌, ◌↔◌, inl, inr, true, ◌&&◌, ◌||◌, some, [], ◌∷◌, ◌++◌, arith, Text,
  codes, text_eq, text_eq_iff, strip_prefix, strip_suffix, strip_prefix-append, strip_prefix_sound,
  strip_suffix-append, strip_suffix_sound, strip_prefix-eq-some_iff, ends_with, ltb, length,
  length-append, to_ascii_lowercase, starts_with, ltb→lt, Bool-cases, Option-cases,
}
use mathlib.Core.Bool.{and-eq-true_iff}
use mathlib.Core.List.{append_assoc, append-nil}
use greentic_designer_extens.Url.Matcher.{
  HostRule, exact, wildcard_suffix, host_matches, path_covers, is_separator_escape,
  contains_encoded_separator,
}

-- The path is the prefix itself or goes on from it at a segment boundary; "/" covers all.
pub data Covers (path_prefix path : Text) : Type 0 where
  whole : path_prefix ≡ codes "/" → Covers path_prefix path
  same : path ≡ path_prefix → Covers path_prefix path
  below : (rest : Text) → path ≡ path_prefix ++ (b'/' ∷ rest) → Covers path_prefix path

-- The host is the rule's, up to ASCII case, or a non-empty run of labels before its suffix.
pub data HostFits : HostRule → Text → Type 0 where
  equal : {h host : Text} → to_ascii_lowercase h ≡ to_ascii_lowercase host → HostFits (exact h) host
  under :
      {suffix host : Text} (c : ℕ) (labels : Text)
      → to_ascii_lowercase host ≡ (c ∷ labels) ++ (b'.' ∷ to_ascii_lowercase suffix)
      → HostFits (wildcard_suffix suffix) host

-- Somewhere in the path stands an escaped "/" or "\".
pub data HasEscape (path : Text) : Type 0 where
  at :
      (before : Text) (a b c : ℕ) (after : Text)
      → path ≡ before ++ (a ∷ b ∷ c ∷ after)
      → is_separator_escape a b c ≡ true
      → HasEscape path

rest_cases :
    (path_prefix path rest : Text)
    → path ≡ path_prefix ++ rest
    → (text_eq rest [] || starts_with (codes "/") rest) ≡ true
    → Covers path_prefix path
rest_cases path_prefix path [] e h = same (e ∙ append-nil path_prefix)
rest_cases path_prefix path (c ∷ rest) e h =
    let slash : c ≡ b'/' = ground arith in
    below rest (e ∙ ap (λ d. path_prefix ++ (d ∷ rest)) slash)

path_covers_sound :
    (path_prefix path : Text) → path_covers path_prefix path ≡ true → Covers path_prefix path
unfolding path_covers
path_covers_sound path_prefix path h = elim (Bool-cases (text_eq path_prefix (codes "/"))) [
  | inl all ↦ whole ((text_eq_iff path_prefix (codes "/")).0 all)
  | inr narrow ↦ elim (Option-cases (strip_prefix path_prefix path)) [
    | inl e ↦ cc (rw (narrow, e, path_covers) at h)
    | inr (rest, e) ↦
        rest_cases path_prefix path rest (strip_prefix_sound path_prefix path rest e)
          (rw (narrow, e, path_covers) at h)
  ]
]

path_covers_complete :
    (path_prefix path : Text) → Covers path_prefix path → path_covers path_prefix path ≡ true
unfolding path_covers
path_covers_complete path_prefix path (whole e) =
    ground (arith, text_eq_iff path_prefix (codes "/"))
path_covers_complete path_prefix path (same e) =
    let stripped : strip_prefix path_prefix path ≡ some [] =
      rw e
        ((strip_prefix-eq-some_iff path_prefix path_prefix []).1 (sym (append-nil path_prefix))) in
    elim (Bool-cases (text_eq path_prefix (codes "/"))) [
      | inl all ↦ rw all
      | inr narrow ↦ rw (narrow, stripped, path_covers) refl
    ]
path_covers_complete path_prefix path (below rest e) =
    let stripped : strip_prefix path_prefix path ≡ some (b'/' ∷ rest) =
      rw e (strip_prefix-append path_prefix (b'/' ∷ rest)) in
    elim (Bool-cases (text_eq path_prefix (codes "/"))) [
      | inl all ↦ rw all
      | inr narrow ↦ rw (narrow, stripped, path_covers) refl
    ]

-- A path is covered exactly when the prefix is "/", or is the path, or is followed in it by a slash.
pub path_covers_iff :
    (path_prefix path : Text) → (path_covers path_prefix path ≡ true) ↔ Covers path_prefix path
path_covers_iff p path = (path_covers_sound p path, path_covers_complete p path)

host_matches_sound :
    (rule : HostRule) (host : Text) → host_matches rule host ≡ true → HostFits rule host
unfolding host_matches
host_matches_sound (exact h) host e = equal ((text_eq_iff _ _).0 e)
host_matches_sound (wildcard_suffix suffix) host e =
    elim (Option-cases (strip_suffix (to_ascii_lowercase suffix) (to_ascii_lowercase host))) [
      | inl miss ↦ cc (rw (miss, host_matches) at e)
      | inr (prefix, hit) ↦
          dotted prefix (strip_suffix_sound _ _ prefix hit) (rw (hit, host_matches) at e)
    ]
  where
    labelled :
        (prefix labels : Text)
        → to_ascii_lowercase host ≡ prefix ++ to_ascii_lowercase suffix
        → ltb 1 (length prefix) ≡ true
        → prefix ≡ labels ++ (b'.' ∷ [])
        → HostFits (wildcard_suffix suffix) host
    labelled prefix [] agree long split = absurd (omega (arith, ltb→lt _ _ long, ap length split))
    labelled prefix (c ∷ labels) agree long split =
        under c labels
          (agree ∙ ap (λ p. p ++ to_ascii_lowercase suffix) split ∙ append_assoc (c ∷ labels) _ _)

    dotted :
        (prefix : Text)
        → to_ascii_lowercase host ≡ prefix ++ to_ascii_lowercase suffix
        → (ends_with (codes ".") prefix && ltb 1 (length prefix)) ≡ true
        → HostFits (wildcard_suffix suffix) host
    dotted prefix agree h =
        let (dot, long) =
          (and-eq-true_iff (ends_with (codes ".") prefix) (ltb 1 (length prefix))).0 h in
        elim (Option-cases (strip_suffix (codes ".") prefix)) [
          | inl miss ↦ cc (rw miss at dot)
          | inr (labels, hit) ↦
              labelled prefix labels agree long (strip_suffix_sound (codes ".") prefix labels hit)
        ]

host_matches_complete :
    (rule : HostRule) (host : Text) → HostFits rule host → host_matches rule host ≡ true
unfolding host_matches
host_matches_complete (exact h) host (equal e) = (text_eq_iff _ _).1 e
host_matches_complete (wildcard_suffix suffix) host (under c labels e) =
    let split : to_ascii_lowercase host
        ≡ ((c ∷ labels) ++ (b'.' ∷ [])) ++ to_ascii_lowercase suffix =
      e ∙ sym (append_assoc (c ∷ labels) (b'.' ∷ []) (to_ascii_lowercase suffix)) in
    let hit : strip_suffix (to_ascii_lowercase suffix) (to_ascii_lowercase host)
        ≡ some ((c ∷ labels) ++ (b'.' ∷ [])) =
      rw split (strip_suffix-append (to_ascii_lowercase suffix) _) in
    let dot : strip_suffix (codes ".") ((c ∷ labels) ++ (b'.' ∷ [])) ≡ some (c ∷ labels) =
      strip_suffix-append (codes ".") (c ∷ labels) in
    let long : ltb 1 (length ((c ∷ labels) ++ (b'.' ∷ []))) ≡ true =
      ground (arith, length-append (c ∷ labels) (b'.' ∷ [])) in
    rw (hit, host_matches) (rw dot long)

-- An exact rule admits its own host only, and `*.s` admits exactly the hosts that end in `.s` after
-- at least one byte, with ASCII case ignored.
pub host_matches_iff :
    (rule : HostRule) (host : Text) → (host_matches rule host ≡ true) ↔ HostFits rule host
host_matches_iff rule host = (host_matches_sound rule host, host_matches_complete rule host)

HasEscape-cons : (d : ℕ) (s : Text) → HasEscape s → HasEscape (d ∷ s)
HasEscape-cons d s (at before a b c after e h) = at (d ∷ before) a b c after (ap (λ t. d ∷ t) e) h

escape_sound : (s : Text) → contains_encoded_separator s ≡ true → HasEscape s
unfolding contains_encoded_separator
escape_sound [] h = cc
escape_sound (a ∷ []) h = cc
escape_sound (a ∷ b ∷ []) h = cc
escape_sound (a ∷ b ∷ c ∷ s) h = elim (Bool-cases (is_separator_escape a b c)) [
  | inl here ↦ at [] a b c s refl here
  | inr later ↦ HasEscape-cons a (b ∷ c ∷ s) (escape_sound (b ∷ c ∷ s) (ground arith))
]

escape-append :
    (before s : Text)
    → contains_encoded_separator s ≡ true
    → contains_encoded_separator (before ++ s) ≡ true
unfolding contains_encoded_separator
escape-append [] s h = h
escape-append (d ∷ before) s h = escape-cons d (before ++ s) (escape-append before s h)
  where
    escape-cons :
        (x : ℕ) (t : Text)
        → contains_encoded_separator t ≡ true
        → contains_encoded_separator (x ∷ t) ≡ true
    escape-cons x [] k = cc
    escape-cons x (y ∷ []) k = cc
    escape-cons x (y ∷ z ∷ t) k = ground arith

escape_complete : (s : Text) → HasEscape s → contains_encoded_separator s ≡ true
unfolding contains_encoded_separator
escape_complete s (at before a b c after e h) =
    rw e (escape-append before (a ∷ b ∷ c ∷ after) (rw h refl))

-- The test finds an escaped "/" or "\" exactly when one stands anywhere in the text, in either case of
-- its letters.
pub contains_encoded_separator_iff :
    (s : Text) → (contains_encoded_separator s ≡ true) ↔ HasEscape s
contains_encoded_separator_iff s = (escape_sound s, escape_complete s)
