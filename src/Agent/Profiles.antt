-- ===== src/Agent/Profiles.antt =====
-- internal/agent/profiles.go: the tools that one request may use.
pub mod Choice
use go_core_mcp.Prelude.{
  ℕ, ◌+◌, List, [], ◌∷◌, Bytes, String, lit, ltb, ◌==◌, if◌then◌else◌, length, take,
}
use go_core_mcp.Strings.{contains}

pub record Profile : Type 0 where
  pub name : Bytes
  pub tools : List Bytes

-- An entry of `profiles`.
pub record Candidate : Type 0 where
  pub profile : Profile
  pub keywords : List Bytes

abbrev pub max_exposed_tools : ℕ
max_exposed_tools = 6

unfoldable pub lits : List String → List Bytes
unfolding lit
lits [] = []
lits (s ∷ ss) = lit s ∷ lits ss

unfoldable pub fallback_profile : Profile
unfolding lits
fallback_profile = record {
  name = lit "fallback";
  tools = lits ("pwd" ∷ "ls" ∷ "cat" ∷ "grep" ∷ "find" ∷ "coreutils_run" ∷ []);
}

candidate : String → List String → List String → Candidate
unfolding lits
candidate name tools keywords = record {
  profile = record { name = lit name; tools = lits tools };
  keywords = lits keywords;
}

unfoldable pub profiles : List Candidate
unfolding candidate
profiles =
    candidate "web_browse" ("search_web" ∷ "browse_url" ∷ []) (
      "browse" ∷ "web" ∷ "website" ∷ "url" ∷ "https://" ∷ "http://" ∷ "page" ∷ "search web"
      ∷ "search online" ∷ "current information" ∷ "latest" ∷ [])
    ∷ candidate "date" ("coreutils_run" ∷ [])
        ("date" ∷ "time" ∷ "clock" ∷ "timestamp" ∷ "today" ∷ "utc" ∷ "current time" ∷ [])
    ∷ candidate "text_search" ("grep" ∷ []) (
        "search text" ∷ "grep text" ∷ "supplied text" ∷ "input text" ∷ "string search"
        ∷ "search this text" ∷ "matching lines" ∷ [])
    ∷ candidate "file_search" ("find" ∷ "grep" ∷ "ls" ∷ "head" ∷ "cat" ∷ []) (
        "grep" ∷ "search" ∷ "find occurrences" ∷ "occurrence" ∷ "occurrences" ∷ "matches"
        ∷ "matching" ∷ "pattern" ∷ "todo" ∷ "look for" ∷ "contains" ∷ [])
    ∷ candidate "filesystem_find" ("find" ∷ "ls" ∷ "cat" ∷ "grep" ∷ []) (
        "find file" ∷ "find files" ∷ "find directory" ∷ "find directories" ∷ "locate" ∷ "recursive"
        ∷ "under" ∷ "walk" ∷ [])
    ∷ candidate "file_inspection" ("pwd" ∷ "ls" ∷ "cat" ∷ "head" ∷ "tail" ∷ "coreutils_run" ∷ []) (
        "read" ∷ "show" ∷ "workspace" ∷ "readme" ∷ "file" ∷ "beginning" ∷ "summarize" ∷ "summary"
        ∷ "content" ∷ "contents" ∷ "checksum" ∷ "sha256" ∷ "hash" ∷ "inspect" ∷ "lines of" ∷ "print"
        ∷ [])
    ∷ candidate "path_processing" ("coreutils_run" ∷ []) (
        "basename" ∷ "dirname" ∷ "base name" ∷ "directory name" ∷ "path component"
        ∷ "strip the directory" ∷ "file extension" ∷ [])
    ∷ candidate "text_processing" ("coreutils_run" ∷ []) (
        "sort" ∷ "unique" ∷ "uniq" ∷ "duplicate" ∷ "base64" ∷ "encode" ∷ "decode"
        ∷ "translate characters" ∷ "fields" ∷ "column" ∷ "columns" ∷ "cut" ∷ "merge lines" ∷ [])
    ∷ candidate "file_write" ("ls" ∷ "cat" ∷ "write_file" ∷ "mkdir" ∷ "touch" ∷ []) (
        "write" ∷ "append" ∷ "overwrite" ∷ "save" ∷ "write to" ∷ "update file" ∷ "write file"
        ∷ "edit file" ∷ [])
    ∷ candidate "file_management" ("ls" ∷ "mkdir" ∷ "touch" ∷ "write_file" ∷ "cp" ∷ "mv" ∷ []) (
        "touch" ∷ "create" ∷ "new" ∷ "empty" ∷ "mkdir" ∷ "directory" ∷ "copy" ∷ "move" ∷ "rename"
        ∷ "create file" ∷ "new file" ∷ "empty file" ∷ [])
    ∷ candidate "file_cleanup" ("ls" ∷ "rm" ∷ "rmdir" ∷ []) ("remove" ∷ "delete" ∷ [])
    ∷ []

-- How many keywords the text contains.
unfoldable pub score : Bytes → List Bytes → ℕ
score text [] = 0
score text (k ∷ ks) = (if contains text k then 1 else 0) + score text ks

-- The loop over the candidates: a later one wins only with a higher score.
best_from : Bytes → Profile → ℕ → List Candidate → Profile × ℕ
best_from text best best_score [] = (best, best_score)
best_from text best best_score (c ∷ cs) =
    let s = score text c.keywords in
    let better = ltb best_score s in
    best_from text (if better then c.profile else best) (if better then s else best_score) cs

abbrev pub no_profile : Profile
no_profile = record { name = []; tools = [] }

chosen : Profile × ℕ → Profile
chosen (best, best_score) =
    if best_score == 0
    then fallback_profile
    else if ltb max_exposed_tools (length best.tools)
    then record best { tools = take max_exposed_tools best.tools }
    else best

-- `to_lower` is strings.ToLower.
unfoldable pub select_profile : (Bytes → Bytes) → Bytes → Profile
unfolding best_from chosen
select_profile to_lower request = chosen (best_from (to_lower request) no_profile 0 profiles)
