-- ===== src/Jinja/Lexer/Endings.antt =====
-- The parts of the lexer end, with what they pass over.
use coro_wayland.Base.{
  ℕ, zero, suc, ◌≤◌, ◌<◌, ◌≡◌, refl, not, List, [], ◌∷◌, arith, length, inl, inr, Bool-cases, ◌==◌,
}
use coro_wayland.Jinja.{Location}
use coro_wayland.Jinja.Errors.{Ends, returns, fails, if-Ends, Result}
use coro_wayland.Jinja.Identifiers.{
  ends_part, before, from, is_part, skip_point, close_index, is_index, is_start_char, after_part,
  validate_parts, validate_identifier,
}
use coro_wayland.Jinja.Lexer.Spelling.{before-stop, from-go, length-from}

module _ (whole : List ℕ) (at : Location) where
  -- A check of the identifier gives it back.
  abbrev Whole : Result (List ℕ) → Type 0
  Whole r = Ends (λ n. n ≡ whole) r

  module _ (again : List ℕ → Result (List ℕ)) (k : ℕ)
      (more : (ds : List ℕ) → length ds ≤ k → Whole (again ds)) where
    skip_point-Ends : (p : ℕ) (cs : List ℕ) → length cs ≤ k → Whole (skip_point whole at again p cs)
    unfolding skip_point
    skip_point-Ends p [] h = more [] h
    skip_point-Ends p (c ∷ []) h = if-Ends (c == b'.') (fails _ _) (more (c ∷ []) h)
    skip_point-Ends p (c ∷ d ∷ cs) h =
        if-Ends (c == b'.') (more (d ∷ cs) (omega (arith, h))) (more (c ∷ d ∷ cs) h)

    close_index-Ends :
        (p : ℕ) (index cs : List ℕ) → length cs ≤ k → Whole (close_index whole at again p index cs)
    unfolding close_index
    close_index-Ends p index [] h = fails _ _
    close_index-Ends p index (c ∷ cs) h =
        if-Ends (not (is_index index)) (fails _ _) (skip_point-Ends p cs (omega (arith, h)))

    after_part-Ends : (p : ℕ) (cs : List ℕ) → length cs ≤ k → Whole (after_part whole at again p cs)
    unfolding after_part
    after_part-Ends p [] h = more [] h
    after_part-Ends p (c ∷ cs) h = if-Ends (c == b'.') (skip_point-Ends p (c ∷ cs) h) (
        if-Ends (c == b'[')
          (close_index-Ends p (before (λ d. d == b']') cs) (from (λ d. d == b']') cs)
            (omega (arith, h, length-from (λ d. d == b']') cs)))
          (more (c ∷ cs) h))

  validate_parts-Ends : (k : ℕ) (cs : List ℕ) → length cs < k → Whole (validate_parts whole at k cs)
  unfolding validate_parts is_part
  validate_parts-Ends zero cs h = absurd (omega arith)
  validate_parts-Ends (suc k) [] h = returns whole refl
  validate_parts-Ends (suc k) (c ∷ cs) h = elim (Bool-cases (ends_part c)) [
    | inl e ↦ rw (before-stop ends_part c cs e) (fails _ _)
    | inr e ↦ rw (from-go ends_part c cs e) (
        if-Ends (not (is_part (before ends_part (c ∷ cs)))) (fails _ _) (
          after_part-Ends (validate_parts whole at k) (length cs)
            (λ ds i. validate_parts-Ends k ds (omega (arith, i, h))) _ (from ends_part cs)
            (length-from ends_part cs)))
  ]

pub validate_identifier-Ends :
    (at : Location) (cs : List ℕ) → Ends (λ n. n ≡ cs) (validate_identifier at cs)
unfolding validate_identifier
validate_identifier-Ends at [] = fails _ _
validate_identifier-Ends at (c ∷ cs) =
    if-Ends (not (is_start_char c)) (fails _ _)
      (validate_parts-Ends (c ∷ cs) at (suc (length (c ∷ cs))) (c ∷ cs) (omega arith))
