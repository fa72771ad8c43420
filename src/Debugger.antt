-- ===== src/Debugger.antt =====
-- debugger/service: the log of the process, over winston, and the interceptor that writes the errors of
-- the handlers there, utils/error/interceptor/error.log.interceptor.ts.
use openapi_nestjs_auth_mong.Prelude.{
  if◌then◌else◌, String, ◌≡◌, ap, sym, refl, Bool, not, ◌&&◌, ◌||◌, Option, some, List, [], ◌∷◌,
  ◌++◌, ◌==◌,
}
use mathlib.Core.List.{append-nil}
use openapi_nestjs_auth_mong.Http.{Exception}
use openapi_nestjs_auth_mong.Handler.{Outcome, returns, throws}

pub data Level : Type 0 where
  info debug error : Level

-- IDebuggerLog; the class and the function are undefined where the metadata is missing
pub record DebuggerLog : Type 0 where
  pub description : String
  pub class : Option String
  pub function : Option String

-- what winston is given
pub record Line : Type 0 where
  pub level : Level
  pub id : Option String
  pub log : DebuggerLog
  pub content : Option String

-- DebuggerService on the lines that are written
abbrev write_line : Level → Option String → DebuggerLog → Option String → List Line → List Line
write_line level id log content lines =
    lines ++ record { level = level; id = id; log = log; content = content } ∷ []

unfoldable pub log_info : Option String → DebuggerLog → Option String → List Line → List Line
log_info = write_line Level.info

unfoldable pub log_debug : Option String → DebuggerLog → Option String → List Line → List Line
log_debug = write_line Level.debug

unfoldable pub log_error : Option String → DebuggerLog → Option String → List Line → List Line
log_error = write_line Level.error

-- A transport of DebuggerOptionService.createLogger: a file that rotates, in a directory and from a
-- level on, or the console.
pub data Transport : Type 0 where
  daily_rotate_file : String → Level → Transport
  console : Transport

-- `app.env`, `app.debug` and `app.debugger.system.active`
unfoldable pub create_logger : String → Bool → Bool → List Transport
create_logger env debugging logger =
    daily_rotate_file "logs/system/error" Level.error
    ∷ daily_rotate_file "logs/system/default" Level.info
    ∷ daily_rotate_file "logs/system/debug" Level.debug
    ∷ (if (debugging || logger) && not (env == "production") then console ∷ [] else [])

-- The context of a handler: whether it serves HTTP, the id of the request, and the metadata of
-- ErrorMeta.
pub record Context : Type 0 where
  pub http : Bool
  pub request_id : Option String
  pub class : Option String
  pub function : Option String

module _ (message : Exception → String) where
  abbrev pub entry : Context → Exception → Line
  entry context e = record {
    level = Level.error;
    id = if context.http then context.request_id else some "ErrorLogInterceptor";
    log = record { description = message e; class = context.class; function = context.function };
    content = some (message e);
  }

module _ {A : Type 0} (message : Exception → String) where
  -- ErrorLogInterceptor, on what the handler answers and the lines that are written
  unfoldable pub error_log_interceptor : Context → Outcome A → List Line → Outcome A × List Line
  unfolding log_error
  error_log_interceptor context (returns a) lines = (returns a, lines)
  error_log_interceptor context (throws e) lines = (
    throws e,
    log_error (if context.http then context.request_id else some "ErrorLogInterceptor")
        (record { description = message e; class = context.class; function = context.function })
        (some (message e)) lines,
  )

  abbrev pub written : Context → Outcome A → List Line
  written context (returns a) = []
  written context (throws e) = entry message context e ∷ []

  -- The interceptor hands every answer on as it is, and writes nothing but one line for an error: of
  -- the level error, with its message, the class and the function of the handler, and the id of the
  -- request.
  pub error_logged :
      (context : Context) (answer : Outcome A) (lines : List Line)
      → error_log_interceptor context answer lines ≡ (answer, lines ++ written context answer)
  unfolding error_log_interceptor
  error_logged context (returns a) lines =
      ap (λ (ls : List Line). (returns a, ls)) (sym (append-nil lines))
  error_logged context (throws e) lines = refl
