-- ===== src/Secrets/Access.antt =====
-- What `secrets::get` answers, and what it asks the backend for.
use greentic_designer_extens.Base.{
  ◌≡◌, refl, subst, ◌↔◌, ◌⊎◌, inl, inr, Bool, true, false, ◌||◌, List, [], ◌∷◌, Memᴰ, Text, codes,
  text_eq, text_eq_iff, any, any_found, any_of_mem, keep, mem-keep, mem-keep_of, split_on, ◌==◌,
  ==_iff, Bool-cases,
}
use greentic_designer_extens.Base.Outcome.{err}
use greentic_designer_extens.Secrets.Defs.{
  SecretsBackend, GetError, malformed, permission_denied, contains_byte, uri_is_plain,
  declaration_is_specific, covers, permitted, answer, get_secret,
}
use greentic_designer_extens.Secrets.Granted.{
  Below, Names, covers_sound, covers_complete, declaration_is_specific_iff,
}

-- No percent sign, and no segment between slashes that is `.` or `..`.
pub record IsPlain (uri : Text) : Type 0 where
  pub unescaped : Memᴰ b'%' uri → ⊥
  pub no_dot : Memᴰ (codes ".") (split_on b'/' uri) → ⊥
  pub no_dots : Memᴰ (codes "..") (split_on b'/' uri) → ⊥

-- Some declaration that names something covers the plain uri.
pub record Granted (secrets : List Text) (uri : Text) : Type 0 where
  pub plain : IsPlain uri
  pub allowed : Text
  pub declared : Memᴰ allowed secrets
  pub names : Names allowed
  pub below : Below allowed uri

dotted : Text → Bool
dotted segment = text_eq segment (codes ".") || text_eq segment (codes "..")

not_found_any :
    {A : Type 0} (p : A → Bool) (a : A) (xs : List A)
    → any p xs ≡ false
    → p a ≡ true
    → Memᴰ a xs
    → ⊥
not_found_any p a xs h e i = cc (h, any_of_mem p a xs i e)

uri_is_plain_iff : (uri : Text) → (uri_is_plain uri ≡ true) ↔ IsPlain uri
unfolding uri_is_plain dotted
uri_is_plain_iff uri = (to, from)
  where
    to : uri_is_plain uri ≡ true → IsPlain uri
    to h = elim (Bool-cases (contains_byte b'%' uri)) [
      | inl escaped ↦ absurd (cc (rw escaped at h))
      | inr clean ↦ elim (Bool-cases (any dotted (split_on b'/' uri))) [
        | inl dots ↦ absurd (cc (rw (clean, dots) at h))
        | inr none ↦ record {
          unescaped = not_found_any (λ x. x == b'%') b'%' uri clean refl;
          no_dot = not_found_any dotted (codes ".") (split_on b'/' uri) none refl;
          no_dots = not_found_any dotted (codes "..") (split_on b'/' uri) none refl;
        }
      ]
    ]

    dot_clash : (x : Text) → Memᴰ x (split_on b'/' uri) → IsPlain uri → dotted x ≡ true → ⊥
    dot_clash x i v e = elim (Bool-cases (text_eq x (codes "."))) [
      | inl one ↦ v.no_dot (subst (λ t. Memᴰ t (split_on b'/' uri)) ((text_eq_iff x _).0 one) i)
      | inr other ↦ v.no_dots (
          subst (λ t. Memᴰ t (split_on b'/' uri)) ((text_eq_iff x (codes "..")).0 (rw other at e))
            i)
    ]

    from : IsPlain uri → uri_is_plain uri ≡ true
    from v = elim (Bool-cases (contains_byte b'%' uri)) [
      | inl escaped ↦
          let (x, i, e) = any_found (λ x. x == b'%') uri escaped in
          absurd (v.unescaped (subst (λ t. Memᴰ t uri) ((==_iff x b'%').0 e) i))
      | inr clean ↦ elim (Bool-cases (any dotted (split_on b'/' uri))) [
        | inl dots ↦
            let (x, i, e) = any_found dotted (split_on b'/' uri) dots in absurd (dot_clash x i v e)
        | inr none ↦ rw (clean, none) refl
      ]
    ]

permitted_iff :
    (secrets : List Text) (uri : Text)
    → (permitted secrets uri ≡ true)
      ↔ ((allowed : Text) × Memᴰ allowed secrets × Names allowed × Below allowed uri)
unfolding permitted
permitted_iff secrets uri = (to, from)
  where
    to :
        permitted secrets uri ≡ true
        → (allowed : Text) × Memᴰ allowed secrets × Names allowed × Below allowed uri
    to h =
        let (a, i, e) = any_found (covers uri) (keep declaration_is_specific secrets) h in
        let (j, specific) = mem-keep declaration_is_specific a secrets i in
        (a, j, (declaration_is_specific_iff a).0 specific, covers_sound uri a e)

    from :
        ((allowed : Text) × Memᴰ allowed secrets × Names allowed × Below allowed uri)
        → permitted secrets uri ≡ true
    from (a, i, n, b) =
        any_of_mem (covers uri) a (keep declaration_is_specific secrets)
          (mem-keep_of declaration_is_specific a secrets i ((declaration_is_specific_iff a).1 n))
          (covers_complete uri a b)

-- A secret is asked of the backend, for its own uri and once, exactly when the uri is plain and is
-- declared or below a declaration that names something; otherwise the call is an error.
pub get_secret_lem :
    (b : SecretsBackend) (secrets : List Text) (uri : Text)
    → (Granted secrets uri × (get_secret b secrets uri ≡ (answer (b uri), uri ∷ [])))
      ⊎ ((Granted secrets uri → ⊥) × ((e : GetError) × (get_secret b secrets uri ≡ (err e, []))))
unfolding get_secret
get_secret_lem b secrets uri = elim (Bool-cases (uri_is_plain uri)) [
  | inr odd ↦ inr (λ g. cc (odd, (uri_is_plain_iff uri).1 g.plain), (malformed uri, rw odd refl))
  | inl plain ↦ elim (Bool-cases (permitted secrets uri)) [
    | inl ok_uri ↦
        let (a, i, n, below) = (permitted_iff secrets uri).0 ok_uri in
        inl (
          record {
            plain = (uri_is_plain_iff uri).0 plain;
            allowed = a;
            declared = i;
            names = n;
            below = below;
          },
          rw (plain, ok_uri) refl,
        )
    | inr denied ↦ inr (
      λ g. cc (denied, (permitted_iff secrets uri).1 (g.allowed, g.declared, g.names, g.below)),
      (permission_denied uri, rw (plain, denied) refl),
    )
  ]
]
