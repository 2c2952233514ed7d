-- ===== src/Domain/Problem/Catalogue.antt =====
-- The catalogue is complete: a code has a text exactly where the workflow may persist one.
use cd.Prelude.{◌≡◌, refl, ◌||◌, not, is_nil}
use cd.Go.Text.{bytes}
use cd.Domain.Problem.{ProblemCode, cloud_unreachable, legacy, code_eq, is_known, problem_text}

-- Every code of the catalogue but the one for migrated rows has a text of at least one byte, and no
-- other string has one: a failure that the workflow persists is never without a message.
pub problem_text-is_known :
    (code : ProblemCode) → is_nil (problem_text code) ≡ (not (is_known code) || code_eq code legacy)
unfolding problem_text is_known code_eq bytes
problem_text-is_known cloud_unreachable = refl
problem_text-is_known _ = refl
