-- ===== src/Errors.antt =====
-- What the code reports and throws: `boost::system::error_code`, the exceptions of the framework
-- and of the libraries that it calls, and the outcome of a call. Of an error code only `ec.value()`
-- is kept, which is what `if (ec)` and the switch in ClientServerFramework/Client/Client.hpp read.
use Prim.Native.String.{String}
use tcpclient_server.Prelude.{ℕ, Bool, true, false, ◌≡◌, refl, ◌⊎◌, inl, inr}

-- `other n` stands for every other code that is not zero.
pub data ErrorCode : Type 0 where
  success invalid_argument connection_aborted connection_reset timed_out : ErrorCode
  other : ℕ → ErrorCode

-- `if (ec)`.
abbrev pub is_error : ErrorCode → Bool
is_error ErrorCode.success = false
is_error _ = true

-- `thrown_code` is an `error_code` that is thrown itself, and `std_exception` the copy that
-- `throw e` makes of an exception caught as `std::exception&`.
pub data Exception : Type 0 where
  system_error thrown_code : ErrorCode → Exception
  runtime_error logic_error : String → Exception
  length_error std_exception zlib_error bad_data_error out_of_data : Exception

-- A call returns, throws, or does something for which the language defines no result.
pub data Outcome {ℓ} (A : Type ℓ) : Type ℓ where
  returns : A → Outcome A
  throws : Exception → Outcome A
  undefined : Outcome A

infixl 5 ◌>>=◌
abbrev pub ◌>>=◌ {ℓ κ} : {A : Type ℓ} {B : Type κ} → Outcome A → (A → Outcome B) → Outcome B
returns a >>= f = f a
throws e >>= f = throws e
undefined >>= f = undefined

-- A bind that returns had a first part that returned.
pub >>=-eq-returns {ℓ κ} :
    {A : Type ℓ} {B : Type κ} (m : Outcome A) (f : A → Outcome B) {b : B}
    → (m >>= f) ≡ returns b
    → (a : A) × (m ≡ returns a) × (f a ≡ returns b)
>>=-eq-returns (returns a) f h = (a, refl, h)
>>=-eq-returns (throws e) f h = cc
>>=-eq-returns undefined f h = cc

-- What only goes on to return throws by its first part.
pub >>=-eq-throws {ℓ κ} :
    {A : Type ℓ} {B : Type κ} (m : Outcome A) (f : A → B) {x : Exception}
    → (m >>= λ a. returns (f a)) ≡ throws x
    → m ≡ throws x
>>=-eq-throws (returns a) f h = cc
>>=-eq-throws (throws e) f h = cc
>>=-eq-throws undefined f h = cc

-- A bind throws by its first part or by what comes behind it.
pub >>=-throws-cases {ℓ κ} :
    {A : Type ℓ} {B : Type κ} (m : Outcome A) (f : A → Outcome B) {x : Exception}
    → (m >>= f) ≡ throws x
    → (m ≡ throws x) ⊎ ((a : A) × (m ≡ returns a) × (f a ≡ throws x))
>>=-throws-cases (returns a) f h = inr (a, refl, h)
>>=-throws-cases (throws e) f h = inl cc
>>=-throws-cases undefined f h = cc

pub no_error-success : (ec : ErrorCode) → is_error ec ≡ false → ec ≡ success
no_error-success success h = refl
no_error-success invalid_argument h = cc
no_error-success connection_aborted h = cc
no_error-success connection_reset h = cc
no_error-success timed_out h = cc
no_error-success (other n) h = cc

pub returns-injective {ℓ} : {A : Type ℓ} {a b : A} → returns a ≡ returns b → a ≡ b
returns-injective h = cc
