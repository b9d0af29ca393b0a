-- ===== src/Llm/Batch.antt =====
-- `embed`: the caps on a batch, and what the port is asked.
use greentic_designer_extens.Base.{
  ℕ, suc, ◌≤◌, ◌<◌, arith, ◌≡◌, refl, ap, ◌⊎◌, inl, inr, true, false, none, some, List, [], ◌∷◌,
  ◌++◌, Memᴰ, Text, length, ltb, ltb→lt, le_of_not-ltb, is_blank, Bool-cases, Option-cases,
}
use greentic_designer_extens.Base.Outcome.{Outcome-cases, ok, err}
use greentic_designer_extens.Llm.Defs.{
  LlmError, inputs_empty, too_many_inputs, too_many_bytes, blank_input, not_configured, LlmHost,
  LlmPort, EmbedRequest, EmbedPortRequest, max_embed_inputs, max_embed_bytes, total_bytes,
  blank_position, check_inputs, resolve_llm_role, answer, ask, embed,
}
use greentic_designer_extens.Llm.Roles.{
  Permits, RoleCause, resolve_llm_role_iff, resolve_llm_role_refused,
}

-- A batch within the caps.
pub record IsBatch (inputs : List Text) : Type 0 where
  pub inhabited : 0 < length inputs
  pub count : length inputs ≤ max_embed_inputs
  pub bytes : total_bytes inputs ≤ max_embed_bytes
  pub filled : (s : Text) → Memᴰ s inputs → is_blank s ≡ false

-- The input at a position is the first that is white space alone.
pub record IsFirstBlank (i : ℕ) (inputs : List Text) : Type 0 where
  pub before : List Text
  pub blank : Text
  pub after : List Text
  pub split : inputs ≡ before ++ blank ∷ after
  pub position : length before ≡ i
  pub is_white : is_blank blank ≡ true
  pub earlier : (s : Text) → Memᴰ s before → is_blank s ≡ false

filled_cons :
    (s : Text) (inputs : List Text)
    → is_blank s ≡ false
    → ((t : Text) → Memᴰ t inputs → is_blank t ≡ false)
    → (t : Text) → Memᴰ t (s ∷ inputs)
    → is_blank t ≡ false
filled_cons s inputs e f t (Memᴰ.head same) = rw same e
filled_cons s inputs e f t (Memᴰ.tail i) = f t i

no_blank :
    (inputs : List Text)
    → blank_position inputs ≡ none
    → (s : Text) → Memᴰ s inputs
    → is_blank s ≡ false
unfolding blank_position
no_blank [] h = λ s i. elim i [ ]
no_blank (s ∷ inputs) h = elim (Bool-cases (is_blank s)) [
  | inl white ↦ absurd (cc (rw white at h))
  | inr full ↦ elim (Option-cases (blank_position inputs)) [
    | inl clean ↦ filled_cons s inputs full (no_blank inputs clean)
    | inr (i, found) ↦ absurd (cc (rw (full, found) at h))
  ]
]

first_blank : (inputs : List Text) (i : ℕ) → blank_position inputs ≡ some i → IsFirstBlank i inputs
unfolding blank_position
first_blank [] i h = cc
first_blank (s ∷ inputs) i h = elim (Bool-cases (is_blank s)) [
  | inl white ↦ record {
    before = [];
    blank = s;
    after = inputs;
    split = refl;
    position = cc (rw white at h);
    is_white = white;
    earlier = λ t m. elim m [ ];
  }
  | inr full ↦ elim (Option-cases (blank_position inputs)) [
    | inl clean ↦ absurd (cc (rw (full, clean) at h))
    | inr (j, found) ↦
        let f = first_blank inputs j found in
        let next : suc j ≡ i = cc (rw (full, found) at h) in
        record {
          before = s ∷ f.before;
          blank = f.blank;
          after = f.after;
          split = ap (λ t. s ∷ t) f.split;
          position = omega (arith, f.position, next);
          is_white = f.is_white;
          earlier = filled_cons s f.before full f.earlier;
        }
  ]
]

-- Why a batch is refused.
abbrev pub BatchCause : List Text → LlmError → Type 0
BatchCause inputs inputs_empty = inputs ≡ []
BatchCause inputs (too_many_inputs n) = (n ≡ length inputs) × (max_embed_inputs < n)
BatchCause inputs (too_many_bytes n) =
    (length inputs ≤ max_embed_inputs) × (n ≡ total_bytes inputs) × (max_embed_bytes < n)
BatchCause inputs (blank_input i) =
    (length inputs ≤ max_embed_inputs)
    × (total_bytes inputs ≤ max_embed_bytes)
    × IsFirstBlank i inputs
BatchCause inputs _ = ⊥

-- A batch passes when it is within the caps, and is refused for the first cap that it breaks.
pub check_inputs_lem :
    (inputs : List Text)
    → (IsBatch inputs × (check_inputs inputs ≡ ok tt))
      ⊎ ((e : LlmError) × BatchCause inputs e × (check_inputs inputs ≡ err e))
unfolding check_inputs
check_inputs_lem [] = inr (inputs_empty, refl, refl)
check_inputs_lem (s ∷ rest) =
    let inputs = s ∷ rest in
    elim (Bool-cases (ltb max_embed_inputs (length inputs))) [
      | inl many ↦
          inr (too_many_inputs (length inputs), (refl, ltb→lt _ (length inputs) many), rw many refl)
      | inr few ↦ elim (Bool-cases (ltb max_embed_bytes (total_bytes inputs))) [
        | inl large ↦ inr (
          too_many_bytes (total_bytes inputs),
          (le_of_not-ltb _ (length inputs) few, refl, ltb→lt _ (total_bytes inputs) large),
          rw (few, large) refl,
        )
        | inr small ↦ elim (Option-cases (blank_position inputs)) [
          | inl clean ↦ inl (
            record {
              inhabited = omega arith;
              count = le_of_not-ltb _ (length inputs) few;
              bytes = le_of_not-ltb _ (total_bytes inputs) small;
              filled = no_blank inputs clean;
            },
            rw (few, small, clean) refl,
          )
          | inr (i, found) ↦ inr (
            blank_input i,
            (
              le_of_not-ltb _ (length inputs) few,
              le_of_not-ltb _ (total_bytes inputs) small,
              first_blank inputs i found,
            ),
            rw (few, small, found) refl,
          )
        ]
      ]
    ]

-- Why a call of `embed` does not reach the port.
abbrev pub EmbedCause : LlmHost → EmbedRequest → LlmError → Type 0
EmbedCause h r e =
    RoleCause r.role_hint h.llm_roles e
    ⊎ (((role : Text) × Permits r.role_hint h.llm_roles role)
        × (BatchCause r.inputs e ⊎ (IsBatch r.inputs × (h.llm_port ≡ none) × (e ≡ not_configured))))

-- The request of a batch, as it goes to the port.
abbrev pub batch_of : EmbedRequest → EmbedPortRequest
batch_of r = record { inputs = r.inputs }

-- The call that reaches the port, and its answer.
pub record Embedded (h : LlmHost) (r : EmbedRequest) : Type 0 where
  pub role : Text
  pub port : LlmPort
  pub permits : Permits r.role_hint h.llm_roles role
  pub batch : IsBatch r.inputs
  pub configured : h.llm_port ≡ some port
  pub result : embed h r ≡ (
    answer (port.embed h.extension_id h.call_ctx role (batch_of r)),
    ask h role (batch_of r) ∷ [],
  )

-- The port is asked once, for a permitted role and for the guest's inputs as they are, when the role
-- is resolved, the batch is within the caps and a port is there, and its answer is passed on;
-- otherwise nothing is asked, and the error is the first of these that fails.
pub embed_lem :
    (h : LlmHost) (r : EmbedRequest)
    → Embedded h r ⊎ ((e : LlmError) × EmbedCause h r e × (embed h r ≡ (err e, [])))
unfolding embed
embed_lem h r = elim (Outcome-cases (resolve_llm_role r.role_hint h.llm_roles)) [
  | inl (e, bad) ↦ inr (e, inl (resolve_llm_role_refused _ _ e bad), rw (bad, embed) refl)
  | inr (role, good) ↦
      let permits = (resolve_llm_role_iff r.role_hint h.llm_roles role).0 good in
      elim (check_inputs_lem r.inputs) [
        | inr (e, cause, bad) ↦
            inr (e, inr ((role, permits), inl cause), rw (good, bad, embed) refl)
        | inl (batch, passed) ↦ elim (Option-cases h.llm_port) [
          | inl none_there ↦ inr (
            not_configured,
            inr ((role, permits), inr (batch, none_there, refl)),
            rw (good, passed, none_there, embed) refl,
          )
          | inr (port, there) ↦ inl (record {
            role = role;
            port = port;
            permits = permits;
            batch = batch;
            configured = there;
            result = rw (good, passed, there, embed) refl;
          })
        ]
      ]
]
