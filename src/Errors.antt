-- ===== src/Errors.antt =====
-- The exceptions of the program, as values: those of package/cloudshell/cp/azure/common/exceptions,
-- the built-in ones that the code raises or runs into, and those of the Azure libraries, which only
-- calls of those libraries give.
use azure_shell.Prelude.{List, [], ◌∷◌, ◌++◌}
use azure_shell.Text.{Text, text}

pub data ErrorKind : Type 0 where
  cloud_error client_request_error connection_error : ErrorKind
  cancellation_exception quali_timeout autoload_exception script_execution_timeout vnet_not_found :
      ErrorKind
  value_error type_error validation_error index_error attribute_error key_error stop_iteration
        plain_exception :
      ErrorKind

-- `message` is `e.message`, `formatted` what `traceback.format_exception_only` prints, and `reason`
-- the `response.reason` of a `CloudError`.
pub record Error : Type 0 where
  pub kind : ErrorKind
  pub message : Text
  pub formatted : Text
  pub reason : Text

class_name : ErrorKind → Text
class_name ErrorKind.cloud_error = text "CloudError"
class_name ErrorKind.client_request_error = text "ClientRequestError"
class_name ErrorKind.connection_error = text "ConnectionError"
class_name ErrorKind.cancellation_exception = text "CancellationException"
class_name ErrorKind.quali_timeout = text "QualiTimeoutException"
class_name ErrorKind.script_execution_timeout = text "QualiScriptExecutionTimeoutException"
class_name ErrorKind.vnet_not_found = text "VirtualNetworkNotFoundException"
class_name ErrorKind.value_error = text "ValueError"
class_name ErrorKind.autoload_exception = text "AutoloadException"
class_name ErrorKind.type_error = text "TypeError"
class_name ErrorKind.validation_error = text "ValidationError"
class_name ErrorKind.index_error = text "IndexError"
class_name ErrorKind.attribute_error = text "AttributeError"
class_name ErrorKind.key_error = text "KeyError"
class_name ErrorKind.stop_iteration = text "StopIteration"
class_name ErrorKind.plain_exception = text "Exception"

-- An exception that the program itself constructs.
unfoldable pub exception : ErrorKind → Text → Error
unfolding class_name
exception k m = record {
  kind = k;
  message = m;
  formatted = class_name k ++ text ": " ++ m;
  reason = text "";
}

-- what code gives: the value that it returns, or the exception that it raises
pub data Result (A : Type 0) : Type 0 where
  ok : A → Result A
  err : Error → Result A

-- the code that comes next runs only where nothing was raised
infixl 5 ◌>>=◌
abbrev pub ◌>>=◌ : {A B : Type 0} → Result A → (A → Result B) → Result B
err raised >>= next = err raised
ok value >>= next = next value

-- `[f(x) for x in xs]` where `f` may raise
abbrev pub map_ok : {A B : Type 0} → (A → Result B) → List A → Result (List B)
map_ok f [] = ok []
map_ok f (x ∷ xs) = do y ← f x; ys ← map_ok f xs; ok (y ∷ ys)
