-- ===== src/SkillGateway/Pipeline/History.antt =====
-- pipeline.go: the context and the previous name of the loop, and the steps that have run.
use package.text.Mathlib.TextPositions.{starts_with-append}
use package.text.Mathlib.TextLemmas.{append_cancel_left, append_cancel_right, append_assoc}
use claw_hermes_ai_go.Base.{
  ◌≡◌, refl, ap, ◌≢◌, inl, inr, true, false, not, Option, none, some, List, [], ◌∷◌, String,
  str_append, arith, str_eq, eq_iff, eq_refl, if◌then◌else◌, str_ne, Bool-cases, starts_with,
}
use claw_hermes_ai_go.Base.Dict.{is_some, lookup, insert, lookup-insert}
use claw_hermes_ai_go.SkillGateway.Types.{Value, text}
use claw_hermes_ai_go.SkillGateway.Pipeline.{
  StepContext, output_key, resolve_input, resolve_text, or_value,
}

-- The names and outputs of the steps that have run, the latest first.
abbrev pub History : Type 0
History = List (String × Value)

-- The context and the previous name behind a history, as the loop builds them.
unfoldable pub context_of : History → StepContext
context_of [] = []
context_of ((n, v) ∷ h) =
    if not (str_eq n "") then insert (output_key n) v (context_of h) else context_of h

unfoldable pub prev_of : History → String
prev_of [] = ""
prev_of ((n, v) ∷ h) = if not (str_eq n "") then n else prev_of h

-- The latest output of a name that is not empty, and the latest output that has a name.
pub latest : String → History → Option Value
latest k [] = none
latest k ((n, v) ∷ h) =
    let earlier = latest k h in
    if str_eq n "" then earlier else if str_eq n k then some v else earlier

pub latest_named : History → Option Value
latest_named [] = none
latest_named ((n, v) ∷ h) = if str_eq n "" then latest_named h else some v

output_key-injective : (a b : String) → output_key a ≡ output_key b → a ≡ b
unfolding output_key
output_key-injective a b e =
    append_cancel_left "$steps." a b
      (append_cancel_right (str_append "$steps." a) (str_append "$steps." b) ".output" e)

output_key_eq : (a b : String) → str_eq (output_key a) (output_key b) ≡ str_eq a b
output_key_eq a b = elim (Bool-cases (str_eq a b)) [
  | inl e ↦ rw (e, (eq_iff a b).0 e) (eq_refl (output_key b))
  | inr e ↦ rw e (
      str_ne (output_key a) (output_key b)
        (λ p. ground (arith, eq_iff a b, output_key-injective a b p)))
]

lookup-context_of : (k : String) (h : History) → lookup (output_key k) (context_of h) ≡ latest k h
unfolding context_of latest lookup
lookup-context_of k [] = refl
lookup-context_of k ((n, v) ∷ h) = ground (
  arith,
  lookup-context_of k h,
  lookup-insert (output_key n) (output_key k) v (context_of h),
  output_key_eq n k,
  eq_iff n "",
  eq_iff n k,
)

output_key-starts : (k : String) → starts_with (output_key k) "$steps." ≡ true
unfolding output_key
output_key-starts k =
    rw (append_assoc "$steps." k ".output") (starts_with-append "$steps." (str_append k ".output"))

not_steps : starts_with "$prev.output" "$steps." ≢ true
not_steps e = cc

output_key-ne-prev : (k : String) → str_eq (output_key k) "$prev.output" ≡ false
output_key-ne-prev k = elim (Bool-cases (str_eq (output_key k) "$prev.output")) [
  | inr e ↦ e
  | inl e ↦
      let p = (eq_iff (output_key k) "$prev.output").0 e in
      let bad : starts_with "$prev.output" "$steps." ≡ true = rw p at (output_key-starts k) in
      absurd (not_steps bad)
]

latest-prev_of :
    (h : History) → latest_named h ≡ (if str_eq (prev_of h) "" then none else latest (prev_of h) h)
unfolding latest_named prev_of latest
latest-prev_of [] = refl
latest-prev_of ((n, v) ∷ h) =
    ground
      (arith, latest-prev_of h, eq_iff n "", eq_iff n (prev_of h), eq_iff (prev_of h) "", eq_refl n)

prev_of-some : (h : History) → str_eq (prev_of h) "" ≡ false → is_some (latest (prev_of h) h) ≡ true
unfolding latest prev_of
prev_of-some [] e = cc
prev_of-some ((n, v) ∷ h) e =
    ground
      (arith, prev_of-some h, eq_iff n "", eq_iff n (prev_of h), eq_iff (prev_of h) "", eq_refl n)

or_value-some : (o : Option Value) (a b : Value) → is_some o ≡ true → or_value o a ≡ or_value o b
or_value-some none a b e = cc
or_value-some (some v) a b e = refl

-- What the references of an input resolve to, by the steps that have run: "$steps.<name>.output" to the
-- latest output of the step of that name, or "" if none has run, and "$prev.output" to the latest
-- output that has a name, or to itself if there is none.
pub record Sees (h : History) (ctx : StepContext) (prev : String) : Type 0 where
  pub by_name :
      (k : String) → resolve_input (text (output_key k)) ctx prev ≡ or_value (latest k h) (text "")
  pub by_prev :
      resolve_input (text "$prev.output") ctx prev ≡ or_value (latest_named h) (text "$prev.output")

-- The context and the previous name of a history see it.
pub history-Sees : (h : History) → Sees h (context_of h) (prev_of h)
unfolding resolve_input resolve_text
history-Sees h = record { by_name = named; by_prev = last_named }
  where
    named :
        (k : String)
        → resolve_input (text (output_key k)) (context_of h) (prev_of h)
          ≡ or_value (latest k h) (text "")
    named k =
        rw (output_key-ne-prev k, output_key-starts k)
          (ap (λ o. or_value o (text "")) (lookup-context_of k h))

    last_named :
        resolve_input (text "$prev.output") (context_of h) (prev_of h)
        ≡ or_value (latest_named h) (text "$prev.output")
    last_named = elim (Bool-cases (str_eq (prev_of h) "")) [
      | inl e ↦ rw (latest-prev_of h, e) refl
      | inr e ↦
          rw (latest-prev_of h, e)
            (rw (output_key-starts (prev_of h)) (
              rw (lookup-context_of (prev_of h) h)
                (or_value-some (latest (prev_of h) h) _ _ (prev_of-some h e))))
    ]
