-- ===== src/ToolRegistry/Config.antt =====
-- core/pkg/toolregistry/config.go: the configured sources and their validation.
pub mod Accepted
use Prim.Native.Char.{code}
use watchkeepers.Prelude.{
  ℕ, String, Bool, true, false, ◌&&◌, ◌||◌, not, Option, none, some, List, [], ◌∷◌, if◌then◌else◌,
  ◌==◌, string_eq, number_eq, leb, Map, put, empty_map,
}
use watchkeepers.Go.Errors.{Error, sentinel, wrap}
use watchkeepers.Go.Text.{is_blank}
use watchkeepers.ToolRegistry.{err_invalid_source_name}

pub record SourceConfig : Type 0 where
  pub name : String
  pub kind : String
  pub url : String
  pub branch : String
  pub pull_policy : String
  pub cron_spec : String
  pub auth_secret : String

abbrev pub err_duplicate_source_name : String
err_duplicate_source_name = "ErrDuplicateSourceName"

abbrev pub err_invalid_source_kind : String
err_invalid_source_kind = "ErrInvalidSourceKind"

abbrev pub err_invalid_pull_policy : String
err_invalid_pull_policy = "ErrInvalidPullPolicy"

abbrev pub err_invalid_cron_spec : String
err_invalid_cron_spec = "ErrInvalidCronSpec"

abbrev pub err_missing_source_url : String
err_missing_source_url = "ErrMissingSourceURL"

abbrev pub err_source_url_not_allowed : String
err_source_url_not_allowed = "ErrSourceURLNotAllowed"

abbrev pub err_auth_secret_not_allowed : String
err_auth_secret_not_allowed = "ErrAuthSecretNotAllowed"

-- The class `[a-zA-Z0-9_-]`.
pub name_char : ℕ → Bool
name_char c =
    (leb 97 c && leb c 122)
    || (leb 65 c && leb c 90)
    || (leb 48 c && leb c 57)
    || c == 95
    || c == 45

name_chars : String → Bool
unfolding name_char
name_chars String.[] = true
name_chars (String.◌∷◌ c s) = name_char (code c) && name_chars s

-- The expression `^[a-zA-Z0-9_-]+$`.
unfoldable pub valid_source_name : String → Bool
unfolding name_chars
valid_source_name s = not (s == "") && name_chars s

check_kind : SourceConfig → Option Error
check_kind sc =
    if sc.kind == "git"
    then (if is_blank sc.url
        then some (wrap "%w: source %q" (sentinel err_missing_source_url))
        else none)
    else if sc.kind == "local" || sc.kind == "hosted"
    then (if not (is_blank sc.url)
        then some (wrap "%w: source %q (kind %q)" (sentinel err_source_url_not_allowed))
        else if not (is_blank sc.auth_secret)
        then some (wrap "%w: source %q (kind %q)" (sentinel err_auth_secret_not_allowed))
        else none)
    else some (wrap "%w: source %q kind %q" (sentinel err_invalid_source_kind))

check_policy : SourceConfig → Option Error
check_policy sc =
    if sc.pull_policy == "on-boot" || sc.pull_policy == "on-demand"
    then none
    else if sc.pull_policy == "cron"
    then (if is_blank sc.cron_spec
        then some (wrap "%w: source %q" (sentinel err_invalid_cron_spec))
        else none)
    else some (wrap "%w: source %q policy %q" (sentinel err_invalid_pull_policy))

unfoldable pub validate_source : SourceConfig → Option Error
unfolding check_kind check_policy
validate_source sc =
    if is_blank sc.name
    then some (sentinel err_invalid_source_name)
    else if not (valid_source_name sc.name)
    then some (wrap "%w: %q does not match %s" (sentinel err_invalid_source_name))
    else elim (check_kind sc) [ some e ↦ some e | none ↦ check_policy sc ]

unfoldable pub effective_branch : SourceConfig → String
effective_branch sc = if is_blank sc.branch then "main" else sc.branch

unfoldable pub validate_from : List SourceConfig → Map String Bool → Option Error
validate_from [] seen = none
validate_from (s ∷ ss) seen =
    let rest = validate_from ss (put s.name true seen) in
    elim (validate_source s) [
      | some e ↦ some (wrap "toolregistry: sources[%d]: %w" e)
      | none ↦ elim (seen s.name) [
        | some dup ↦ some (wrap "%w: %q" (sentinel err_duplicate_source_name))
        | none ↦ rest
      ]
    ]

unfoldable pub validate_sources : List SourceConfig → Option Error
unfolding validate_from
validate_sources sources = validate_from sources empty_map
