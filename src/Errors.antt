-- ===== src/Errors.antt =====
-- apps/api/src/errors.ts: the API's errors and their statuses.
pub mod Filter
use Prim.Native.String.{◌++◌}
use wa_ops.Base.{ℕ, Bool, true, false, String, Option, none, some, ◌≡◌, refl, List, [], ◌∷◌}

-- ApiErrorCode
pub data ErrorCode : Type 0 where
  validation_error authentication_required permission_denied entitlement_required : ErrorCode
  quota_exceeded not_found conflict rate_limited dependency_unavailable internal_error : ErrorCode

-- A value of `details`.
pub data Detail : Type 0 where
  text : String → Detail
  number : ℕ → Detail

pub record ApiError : Type 0 where
  pub code : ErrorCode
  pub message : String
  pub status : ℕ
  pub details : List (String × Detail)

abbrev pub simple_error : ErrorCode → String → ℕ → ApiError
simple_error c m s = record { code = c; message = m; status = s; details = [] }

abbrev pub not_found_error : String → ApiError
not_found_error what = simple_error not_found (what ++ " not found") 404

abbrev pub validation : String → ApiError
validation m = simple_error validation_error m 400

abbrev pub conflict_error : String → ApiError
conflict_error m = simple_error conflict m 409

abbrev pub permission_denied_error : ApiError
permission_denied_error = simple_error permission_denied "Permission denied" 403

abbrev pub entitlement_required_error : String → String → ApiError
entitlement_required_error module_key feature_key = record {
  code = entitlement_required;
  message = "Module not entitled: " ++ (module_key ++ ("." ++ feature_key));
  status = 402;
  details = ("module", text module_key) ∷ ("feature", text feature_key) ∷ [];
}

abbrev pub quota_exceeded_error : String → ℕ → ApiError
quota_exceeded_error metric_key limit = record {
  code = quota_exceeded;
  message = "Quota exceeded: " ++ metric_key;
  status = 402;
  details = ("metric", text metric_key) ∷ ("limit", number limit) ∷ [];
}

-- What a handler comes to: the value that it returns, or the `ApiError` that it throws.
pub data Result {ℓ} (Answer : Type ℓ) : Type ℓ where
  raised : (error : ApiError) → Result Answer
  returned : (answer : Answer) → Result Answer

-- The rest of a handler behind an `await`.
infixl 5 ◌>>=◌ ◌>>◌
abbrev pub ◌>>=◌ {ℓ κ} :
    {First : Type ℓ} {Second : Type κ} → Result First → (First → Result Second) → Result Second
raised error >>= rest = raised error
returned answer >>= rest = rest answer

abbrev pub ◌>>◌ {κ} : {Second : Type κ} → Result (Unit {0}) → Result Second → Result Second
check >> rest = check >>= (λ done. rest)

-- `if (!test) throw error`
abbrev pub guard : Bool → ApiError → Result (Unit {0})
guard false error = raised error
guard true error = returned tt

-- `if (!row) throw error`
abbrev pub or_throw {ℓ} : {Row : Type ℓ} → ApiError → Option Row → Result Row
or_throw error none = raised error
or_throw error (some row) = returned row

pub returned-injective {ℓ} : {Answer : Type ℓ} {x y : Answer} → returned x ≡ returned y → x ≡ y
returned-injective same = cc

pub or_throw-eq-returned {ℓ} :
    {Row : Type ℓ} (error : ApiError) (found : Option Row) (row : Row)
    → or_throw error found ≡ returned row
    → found ≡ some row
or_throw-eq-returned error none row same = cc
or_throw-eq-returned error (some other) row same = cc

-- A handler that returns has come through its first part, with a value from which the rest returns.
pub >>=-eq-returned {ℓ κ} :
    {First : Type ℓ} {Second : Type κ} (first : Result First) (rest : First → Result Second)
    {answer : Second} (same : (first >>= rest) ≡ returned answer)
    → (x : First) × (first ≡ returned x) × (rest x ≡ returned answer)
>>=-eq-returned (raised error) rest same = cc
>>=-eq-returned (returned x) rest same = (x, refl, same)

pub guard-eq-returned {κ} :
    {Second : Type κ} (test : Bool) (error : ApiError) (rest : Result Second) {answer : Second}
    → (guard test error >> rest) ≡ returned answer
    → (test ≡ true) × (rest ≡ returned answer)
guard-eq-returned false error rest same = cc
guard-eq-returned true error rest same = (refl, same)
