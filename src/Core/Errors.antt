-- ===== src/Core/Errors.antt =====
-- src/bridge/core/errors.py, and the built-in exceptions that the code raises, as a result type.
use codearts_bridge.Prelude.{String, ◌≡◌, refl}
use codearts_bridge.Core.Value.{Value}

pub data Error : Type 0 where
  state_transition : (from : Value) (to : String) → Error
  task_not_found : (task_id : String) → Error
  value_error : (message : String) → Error
  json_decode : Error
  int_conversion : Error
  type_error : Error
  unsafe_session_id : Error
  index_error : Error
  key_error : (key : String) → Error
  file_exists : (path : String) → Error

pub data Result {ℓ} (A : Type ℓ) : Type ℓ where
  raise : Error → Result A
  ok : A → Result A

-- The code after a call, which an exception skips.
infixl 5 ◌>>=◌
abbrev pub ◌>>=◌ {ℓ κ} : {V : Type ℓ} {W : Type κ} → Result V → (V → Result W) → Result W
raise e >>= rest = raise e
ok v >>= rest = rest v

pub >>=-eq-ok {ℓ κ} :
    {V : Type ℓ} {W : Type κ} (call : Result V) (rest : V → Result W) {w : W}
    → call >>= rest ≡ ok w
    → (v : V) × (call ≡ ok v) × (rest v ≡ ok w)
>>=-eq-ok (raise e) rest h = cc
>>=-eq-ok (ok v) rest h = (v, refl, h)

pub ok-injective {ℓ} : {A : Type ℓ} {a b : A} → ok a ≡ ok b → a ≡ b
ok-injective h = cc

-- A call inside `try`: `message` is the text that the handler keeps.
pub data Call {ℓ} (A : Type ℓ) : Type ℓ where
  threw : (message : String) → Call A
  returned : A → Call A
