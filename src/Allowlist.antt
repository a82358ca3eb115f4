-- ===== src/Allowlist.antt =====
-- pkg/toolexecutor/allowlist.go: the commands that may be executed without an approval. The file is
-- not modelled; what Load reads is an argument. `glob` is filepath.Match, none for an invalid
-- pattern.
pub mod Removal
mod Examples
use Prim.Native.String.{◌++◌ as concat}
use ranyaa.Base.{
  ℕ, String, ◌≡◌, refl, sym, ap, ◌∙◌, Bool, true, false, not, ◌&&◌, ◌||◌, Option, none, some, List,
  [], ◌∷◌, ◌++◌, if◌then◌else◌, arith, length, any, keep, str_eq, str_eq_self, Bool-cases, inl, inr,
}

pub record AllowlistEntry : Type 0 where
  pub command : String
  pub args : List String
  pub pattern : String
  pub reason : String
  pub added_at : String

pub record AllowlistManager : Type 0 where
  pub entries : List AllowlistEntry

pub data AllowlistError : Type 0 where
  not_specified : AllowlistError
  entry_not_found : AllowlistError
  not_loaded : AllowlistError

-- strings.Join(args, " ")
unfoldable pub join_more : List String → String
join_more [] = ""
join_more (x ∷ xs) = concat " " (concat x (join_more xs))

abbrev pub join : List String → String
join [] = ""
join (x ∷ xs) = concat x (join_more xs)

abbrev pub new_manager : AllowlistManager
new_manager = record { entries = [] }

-- Load: none when the file cannot be read or parsed
abbrev pub load :
    Option (List AllowlistEntry) → AllowlistManager → AllowlistManager × Option AllowlistError
load none am = (am, some not_loaded)
load (some entries) am = (record { entries = entries }, none)

abbrev pub has_command : String → List String → AllowlistEntry → Bool
has_command command args entry =
    str_eq entry.command command && str_eq (join entry.args) (join args)

abbrev pub is_same : AllowlistEntry → AllowlistEntry → Bool
is_same entry existing =
    has_command entry.command entry.args existing && str_eq existing.pattern entry.pattern

unfoldable pub add : AllowlistEntry → AllowlistManager → AllowlistManager × Option AllowlistError
add entry am =
    if str_eq entry.command "" && str_eq entry.pattern ""
    then (am, some not_specified)
    else if any (is_same entry) am.entries
    then (am, none)
    else (record { entries = am.entries ++ entry ∷ [] }, none)

unfoldable pub remove :
    String → List String → AllowlistManager → AllowlistManager × Option AllowlistError
remove command args am =
    if any (has_command command args) am.entries
    then (
      record { entries = keep (λ entry. not (has_command command args entry)) am.entries },
      none,
    )
    else (am, some entry_not_found)

abbrev pub clear : AllowlistManager → AllowlistManager
clear am = record { entries = [] }

abbrev pub count : AllowlistManager → ℕ
count am = length am.entries

abbrev is_nil : List String → Bool
is_nil [] = true
is_nil (x ∷ xs) = false

module _ (glob : String → String → Option Bool) where
  abbrev is_match : Option Bool → Bool
  is_match none = false
  is_match (some matched) = matched

  abbrev pub match_glob : String → String → Bool
  match_glob pattern text = if str_eq pattern "*" then true else is_match (glob pattern text)

  abbrev pub command_text : String → List String → String
  command_text command args =
      if is_nil args then command else concat command (concat " " (join args))

  abbrev pub allows : String → List String → AllowlistEntry → Bool
  allows command args entry =
      (str_eq entry.command command && (is_nil entry.args || str_eq (join entry.args) (join args)))
      || (not (str_eq entry.pattern "") && match_glob entry.pattern (command_text command args))

  unfoldable pub is_allowed : String → List String → AllowlistManager → Bool
  is_allowed command args am = any (allows command args) am.entries
