-- ===== src/Parser/Run.antt =====
-- Steps of the parser: from its state to a result and the state behind it. A step that runs out of
-- fuel is `none`. A thrown exception ends the compilation, so an error carries no state.
use b2_lang.Prelude.{Option, none, some}
use b2_lang.Token.{Token, TokenType, SourceLocation}
use b2_lang.Error.{Error, Result, ok, err, undefined, parse_error, ParseProblem}
use b2_lang.Parser
use b2_lang.Parser.{Parser}

abbrev pub Outcome {ℓ} : Type ℓ → Type ℓ
Outcome A = Option (Result (A × Parser))

abbrev pub Run {ℓ} : Type ℓ → Type ℓ
Run A = Parser → Outcome A

abbrev pub follow {ℓ κ} : {A : Type ℓ} {B : Type κ} → Outcome A → (A → Run B) → Outcome B
follow none next = none
follow (some (ok (a, p))) next = next a p
follow (some (err thrown)) next = some (err thrown)
follow (some undefined) next = some undefined

infixl 1 ◌>>=◌ ◌>>◌
abbrev pub ◌>>=◌ {ℓ κ} : {A : Type ℓ} {B : Type κ} → Run A → (A → Run B) → Run B
m >>= next = λ p. follow (m p) next

abbrev pub ◌>>◌ {ℓ κ} : {A : Type ℓ} {B : Type κ} → Run A → Run B → Run B
m >> next = m >>= λ _. next

abbrev pub pure {ℓ} : {A : Type ℓ} → A → Run A
pure a p = some (ok (a, p))

abbrev pub throw {ℓ} : {A : Type ℓ} → Error → Run A
throw e p = some (err e)

abbrev pub fail {ℓ} : {A : Type ℓ} → SourceLocation → ParseProblem → Run A
fail loc problem = throw (parse_error loc problem)

abbrev pub out_of_fuel {ℓ} : {A : Type ℓ} → Run A
out_of_fuel p = none

-- A member that only reads, as a step.
abbrev reading : Parser → Result Token → Outcome Token
reading p (ok t) = some (ok (t, p))
reading p (err e) = some (err e)
reading p undefined = some undefined

unfoldable pub peek : Run Token
peek p = reading p (Parser.peek p)

unfoldable pub advance : Run (Unit {0})
advance p = some (ok (tt, Parser.advance p))

unfoldable pub consume : TokenType → Run Token
consume expected p = some (Parser.consume expected p)
