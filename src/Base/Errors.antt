-- ===== src/Base/Errors.antt =====
-- src/common/include/paperbreak/common/error.hpp and result.hpp. An error keeps what the code
-- decides by: the human-readable message, the native codes, the wall-clock stamp and the
-- correlation id, which no branch reads, are left out. `std::to_string n` as the value of a detail
-- is kept as the number `n`.
use Prim.Native.Nat.{ℕ}
use Prim.Native.String.{String}
use mathlib.Core.Bool.{Bool, true, false}
use mathlib.Core.Option.{Option, none, some}
use mathlib.Core.Path.{◌≡◌, refl}
use mathlib.Core.List.{List, []}
use paper_breakage_analysis.Base.Tests.{if◌then◌else◌}

pub data Severity : Type 0 where
  info warning error critical : Severity

pub data DetailValue : Type 0 where
  text : String → DetailValue
  number : ℕ → DetailValue

pub record ErrorDetail : Type 0 where
  pub key : String
  pub value : DetailValue

pub record Error : Type 0 where
  pub business_code : String
  pub severity : Severity
  pub module_name : String
  pub operation : String
  pub source_id : Option String
  pub details : List ErrorDetail
  pub retryable : Bool

abbrev pub make_error : String → Severity → String → String → Bool → Error
make_error code severity module_name operation retryable = record {
  business_code = code;
  severity = severity;
  module_name = module_name;
  operation = operation;
  source_id = none;
  details = [];
  retryable = retryable;
}

abbrev pub detail : String → DetailValue → ErrorDetail
detail k v = record { key = k; value = v }

pub data Result {ℓ} (A : Type ℓ) : Type ℓ where
  success : A → Result A
  failure : Error → Result A

abbrev pub has_value {ℓ} : {A : Type ℓ} → Result A → Bool
has_value (success a) = true
has_value (failure e) = false

-- The steps of a chain of results: the first failure ends it.
infixl 5 ◌>>=◌
abbrev pub ◌>>=◌ {ℓ κ} : {A : Type ℓ} {B : Type κ} → Result A → (A → Result B) → Result B
success a >>= f = f a
failure e >>= f = failure e

unfoldable pub demand {ℓ} : {A : Type ℓ} → Option A → Error → Result A
demand none e = failure e
demand (some a) e = success a

-- An early return where the test holds.
unfoldable pub refuse_if {ℓ} : {A : Type ℓ} → Bool → Error → Result A → Result A
refuse_if true e r = failure e
refuse_if false e r = r

-- What a chain that succeeds went through.
pub >>=-eq-success {ℓ κ} :
    {A : Type ℓ} {B : Type κ} (m : Result A) (f : A → Result B) {b : B}
    → (m >>= f) ≡ success b
    → (a : A) × (m ≡ success a) × (f a ≡ success b)
>>=-eq-success (success a) f h = (a, refl, h)
>>=-eq-success (failure e) f h = cc

pub demand-eq-success {ℓ} :
    {A : Type ℓ} (o : Option A) (e : Error) {a : A} → demand o e ≡ success a → o ≡ some a
unfolding demand
demand-eq-success none e h = cc
demand-eq-success (some a) e h = cc

pub refuse_if-eq-success {ℓ} :
    {A : Type ℓ} (b : Bool) (e : Error) (r : Result A) {a : A}
    → refuse_if b e r ≡ success a
    → (b ≡ false) × (r ≡ success a)
unfolding refuse_if
refuse_if-eq-success true e r h = cc
refuse_if-eq-success false e r h = (refl, h)

pub success-inj {ℓ} : {A : Type ℓ} {a b : A} → success a ≡ success b → a ≡ b
success-inj e = cc

-- What a result that succeeds says of a test before it.
pub if-eq-success {ℓ} :
    {A : Type ℓ} (b : Bool) (e : Error) (r : Result A) {a : A}
    → (if b then failure e else r) ≡ success a
    → (b ≡ false) × (r ≡ success a)
if-eq-success true e r h = cc
if-eq-success false e r h = (refl, h)
