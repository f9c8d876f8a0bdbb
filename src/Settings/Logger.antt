-- ===== src/Settings/Logger.antt =====
-- The logger of settings.go: where each level's lines go. The text that `log.Logger` makes of a
-- format and its arguments is the library's, so a line is the text that is logged.
use traefikoidc.Base.{◌||◌, List, [], ◌∷◌, ◌++◌, if◌then◌else◌}
use traefikoidc.Base.Text.{Str, lit, str_eq}

-- `io.Discard`, `os.Stdout`, `os.Stderr`
pub data Output : Type 0 where
  discard stdout stderr : Output

-- `Logger`
pub record Logger : Type 0 where
  pub log_error : Output
  pub log_info : Output
  pub log_debug : Output

-- `NewLogger`
unfoldable pub new_logger : Str → Logger
new_logger log_level = record {
  log_error = stderr;
  log_info =
      (if str_eq log_level (lit "debug") || str_eq log_level (lit "info") then stdout else discard);
  log_debug = (if str_eq log_level (lit "debug") then stdout else discard);
}

-- what has been written to both streams
pub record Written : Type 0 where
  pub out : List Str
  pub err : List Str

abbrev pub print : Output → Str → Written → Written
print discard line w = w
print stdout line w = record w { out = w.out ++ line ∷ [] }
print stderr line w = record w { err = w.err ++ line ∷ [] }

-- `Info` and `Infof`, `Debug` and `Debugf`, `Error` and `Errorf`
unfoldable pub info : Logger → Str → Written → Written
info l line = print l.log_info (lit "INFO: TraefikOidcPlugin: " ++ line)

unfoldable pub debug : Logger → Str → Written → Written
debug l line = print l.log_debug (lit "DEBUG: TraefikOidcPlugin: " ++ line)

unfoldable pub error : Logger → Str → Written → Written
error l line = print l.log_error (lit "ERROR: TraefikOidcPlugin: " ++ line)
