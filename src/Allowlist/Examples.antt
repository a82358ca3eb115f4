-- ===== src/Allowlist/Examples.antt =====
-- Concrete allowlists.
use ranyaa.Base.{String, ◌≡◌, refl, Bool, true, false, Option, none, some, List, [], ◌∷◌}
use ranyaa.Allowlist.{AllowlistEntry, AllowlistManager, add, remove, is_allowed, join_more}
use ranyaa.Allowlist.Removal.{remove-add}

abbrev no_glob : String → String → Option Bool
no_glob pattern text = some false

abbrev entry_of : String → List String → AllowlistEntry
entry_of command args = record {
  command = command;
  args = args;
  pattern = "";
  reason = "";
  added_at = "";
}

abbrev listing : AllowlistManager
listing = record { entries = entry_of "ls" [] ∷ [] }

remove-add_example :
    ((add (entry_of "git" ("status" ∷ [])) listing).1 ≡ none)
    × (is_allowed no_glob "git" ("status" ∷ []) (add (entry_of "git" ("status" ∷ [])) listing).0
        ≡ true)
    × (remove "git" ("status" ∷ []) (add (entry_of "git" ("status" ∷ [])) listing).0
        ≡ (listing, none))
remove-add_example = remove-add no_glob (entry_of "git" ("status" ∷ [])) listing refl refl

-- One argument with a space is taken for two arguments.
joined_arguments :
    is_allowed no_glob "rm" ("a" ∷ "b" ∷ []) (record { entries = entry_of "rm" ("a b" ∷ []) ∷ [] })
    ≡ true
unfolding is_allowed join_more
joined_arguments = refl

-- Removing the empty command without arguments removes the entries that have only a pattern.
patterns_removed :
    remove "" [] (record { entries = record (entry_of "" []) { pattern = "git *" } ∷ [] })
    ≡ (record { entries = [] }, none)
unfolding remove
patterns_removed = refl
