-- ===== src/Server/Workspace/Laws.antt =====
-- No path that the server accepts leaves the workspace, and no read exceeds its limit.
use mathlib.Core.Path.{subst}
use go_core_mcp.Prelude.{
  or-false, not-false, ℕ, ◌≤◌, ◌<◌, ◌≡◌, ◌≢◌, ◌⊎◌, ◌↔◌, refl, sym, ◌∙◌, ap, Bool, true, false, not,
  ◌||◌, inl, inr, [], ◌∷◌, ◌++◌, Bytes, bytes_eq, bytes_eq_iff, arith, ltb, length, take, drop,
  length-take, take-append-drop, Bool-cases,
}
use go_core_mcp.Prelude.Int.{ℤ, pos, negsuc}
use go_core_mcp.Outcome.{Outcome, ok, err, panic, reject_if, ◌>>◌, >>=-eq-ok}
use go_core_mcp.Strings.{has_prefix, trim_space, contains_byte}
use go_core_mcp.Strings.Laws.{has_prefix_sound}
use go_core_mcp.Strings.Paths.{is_abs, clean, join_path, names_of, base, dir, slash, dot, dot_dot}
use go_core_mcp.Strings.Paths.Laws.{NoParent, names_of-NoParent}
use go_core_mcp.Server.{ToolError, Limits}
use go_core_mcp.Server.Workspace.{
  Files, is_missing, Resolution, Kind, Inspection, Reading, resolved, found, regular, is_directory,
  contents, inside, escapes, resolution, resolve_path, resolve_touch_path, touch_after, read_file,
  read_limit, is_file, read_all,
}

-- The workspace itself, or a path that continues it behind a slash.
abbrev pub IsInside : Bytes → Bytes → Type 0
IsInside workspace path =
    (path ≡ workspace) ⊎ ((rest : Bytes) × (path ≡ (workspace ++ slash) ++ rest))

inside-IsInside : (workspace path : Bytes) → inside workspace path ≡ true → IsInside workspace path
unfolding inside
inside-IsInside workspace path h = elim (Bool-cases (bytes_eq path workspace)) [
  | inl e ↦ inl ((bytes_eq_iff path workspace).0 e)
  | inr e ↦ inr (has_prefix_sound path (workspace ++ slash) (rw e at h))
]

-- A test that is passed, in front of what follows.
passed :
    {A : Type 0} (b : Bool) (e : ToolError) (k : Outcome ToolError A) {a : A}
    → (reject_if b e >> k) ≡ ok a
    → (b ≡ false) × (k ≡ ok a)
passed true e k h = cc
passed false e k h = (refl, h)

-- A relative path that the server has resolved to `path`.
pub record IsResolved (files : Files) (workspace relative path : Bytes) : Type 0 where
  pub no_parent : NoParent (names_of relative)
  pub evaluated : files.eval_symlinks (clean (join_path workspace (clean relative))) ≡ resolved path
  pub within : IsInside workspace path

resolution_sound : (r : Resolution) {path : Bytes} → resolution r ≡ ok path → r ≡ resolved path
unfolding resolution
resolution_sound (resolved p) h = cc
resolution_sound Resolution.missing h = cc
resolution_sound Resolution.forbidden h = cc
resolution_sound Resolution.unresolvable h = cc

escapes-false :
    (cleaned : Bytes)
    → escapes cleaned ≡ false
    → (bytes_eq cleaned dot_dot ≡ false) × (has_prefix cleaned (dot_dot ++ slash) ≡ false)
unfolding escapes
escapes-false cleaned h = or-false _ _ h

-- A path that `resolvePath` accepts has no `..` that is left over, is what the file system resolves
-- the joined path to with its links followed, and lies inside the workspace.
pub resolve_path-IsResolved :
    (files : Files) (workspace relative : Bytes) {path : Bytes}
    → resolve_path files workspace relative ≡ ok path
    → IsResolved files workspace relative path
unfolding resolve_path
resolve_path-IsResolved files workspace relative {path} h =
    let (_, s1) = passed (bytes_eq (trim_space relative) []) _ _ h in
    let (_, s2) = passed (contains_byte relative 0) _ _ s1 in
    let (absolute, s3) =
      passed (is_abs relative || has_prefix relative slash || has_prefix relative (92 ∷ [])) _ _
        s2 in
    let (escape, s4) = passed (escapes (clean relative)) _ _ s3 in
    let (_, s5) =
      passed (not (inside workspace (clean (join_path workspace (clean relative))))) _ _ s4 in
    let (target, looked_up, s6) =
      >>=-eq-ok (resolution (files.eval_symlinks (clean (join_path workspace (clean relative))))) _
        s5 in
    let (stays, s7) = passed (not (inside workspace target)) _ _ s6 in
    let same : target ≡ path = cc s7 in
    let climbs = escapes-false (clean relative) escape in
    let is_relative =
      (or-false _ _
        (or-false (is_abs relative || has_prefix relative slash) (has_prefix relative (92 ∷ []))
          absolute).0).0 in
    record {
      no_parent = names_of-NoParent relative is_relative climbs.0 climbs.1;
      evaluated = resolution_sound _ looked_up ∙ ap resolved same;
      within =
          inside-IsInside workspace path (ap (inside workspace) (sym same) ∙ not-false _ stays);
    }

-- A path that does not exist yet, for a relative path: the last name of the cleaned path, joined to
-- the directory that the file system resolves the rest to.
pub record IsCreatable (files : Files) (workspace relative path : Bytes) : Type 0 where
  pub no_parent : NoParent (names_of relative)
  pub not_workspace : clean relative ≢ dot
  pub parent : Bytes
  pub resolves : IsResolved files workspace (dir (clean relative)) parent
  pub in_directory : is_directory (files.stat parent) ≡ true
  pub joined : path ≡ join_path parent (base (clean relative))
  pub within : IsInside workspace path

-- What a relative path of a file that exists or is to be created may stand for.
abbrev pub IsTouchable : Files → Bytes → Bytes → Bytes → Type 0
IsTouchable files workspace relative path =
    IsResolved files workspace relative path ⊎ IsCreatable files workspace relative path

touch_after-IsTouchable :
    (files : Files) (workspace relative : Bytes) (r : Outcome ToolError Bytes) {path : Bytes}
    → resolve_path files workspace relative ≡ r
    → touch_after files workspace relative r ≡ ok path
    → IsTouchable files workspace relative path
unfolding touch_after
touch_after-IsTouchable files workspace relative (ok target) e h =
    inl (resolve_path-IsResolved files workspace relative (e ∙ h))
touch_after-IsTouchable files workspace relative panic e h = cc
touch_after-IsTouchable files workspace relative (err x) {path} e h =
    let (_, s1) = passed (not (is_missing x)) _ _ h in
    let (allowed, s2) =
      passed (bytes_eq (trim_space relative) [] || contains_byte relative 0 || is_abs relative) _ _
        s1 in
    let (stays, s3) = passed (bytes_eq (clean relative) dot || escapes (clean relative)) _ _ s2 in
    let (parent, resolves, s4) =
      >>=-eq-ok (resolve_path files workspace (dir (clean relative))) _ s3 in
    let (directory, s5) = passed (not (is_directory (files.stat parent))) _ _ s4 in
    let target = join_path parent (base (clean relative)) in
    let (within, s6) = passed (not (inside workspace target)) _ _ s5 in
    let same : target ≡ path = cc s6 in
    let (not_dot, climbs) =
      or-false (bytes_eq (clean relative) dot) (escapes (clean relative)) stays in
    let (up, over) = escapes-false (clean relative) climbs in
    inr (record {
      no_parent =
          names_of-NoParent relative
            (or-false (bytes_eq (trim_space relative) [] || contains_byte relative 0)
              (is_abs relative) allowed).1
            up over;
      not_workspace = λ f. cc (not_dot, (bytes_eq_iff (clean relative) dot).1 f);
      parent = parent;
      resolves = resolve_path-IsResolved files workspace (dir (clean relative)) resolves;
      in_directory = not-false _ directory;
      joined = sym same;
      within =
          inside-IsInside workspace path (ap (inside workspace) (sym same) ∙ not-false _ within);
    })

pub resolve_touch_path-IsTouchable :
    (files : Files) (workspace relative : Bytes) {path : Bytes}
    → resolve_touch_path files workspace relative ≡ ok path
    → IsTouchable files workspace relative path
unfolding resolve_touch_path
resolve_touch_path-IsTouchable files workspace relative h =
    touch_after-IsTouchable files workspace relative (resolve_path files workspace relative) refl h

-- What a read that succeeds has read: a regular file inside the workspace, of which `text` is the
-- front.
pub record IsFront (files : Files) (limits : Limits) (workspace relative text : Bytes)
    (truncated : Bool) : Type 0 where
  pub path : Bytes
  pub whole : Bytes
  pub resolves : IsResolved files workspace relative path
  pub size : ℕ
  pub is_regular : files.lstat path ≡ found regular size
  pub reads : files.read path ≡ contents whole
  pub rest : Bytes
  pub front : text ++ rest ≡ whole
  pub bounded : length text ≤ limits.max_file_read_bytes
  pub says : (truncated ≡ true) ↔ (length text < length whole)

is_file_sound :
    (files : Files) (workspace : Bytes) (k : Inspection)
    → is_file files workspace k ≡ ok tt
    → (n : ℕ) × (k ≡ found regular n)
unfolding is_file
is_file_sound files workspace Inspection.absent h = cc
is_file_sound files workspace Inspection.hidden h = cc
is_file_sound files workspace (found regular n) h = (n, refl)
is_file_sound files workspace (found Kind.directory n) h = cc
is_file_sound files workspace (found Kind.other n) h = cc

read_all_sound :
    (files : Files) (workspace : Bytes) (r : Reading) {text : Bytes}
    → read_all files workspace r ≡ ok text
    → r ≡ contents text
unfolding read_all
read_all_sound files workspace (contents t) h = cc
read_all_sound files workspace Reading.not_readable h = cc
read_all_sound files workspace Reading.not_opened h = cc
read_all_sound files workspace Reading.not_read h = cc

read_limit-bounded :
    (files : Files) (workspace : Bytes) (most : ℕ) (n : ℤ)
    → read_limit files workspace most n ≤ most
unfolding read_limit
read_limit-bounded files workspace most (negsuc n) = omega arith
read_limit-bounded files workspace most (pos n) = ground arith

length-take_says :
    (n : ℕ) (xs : Bytes) → (ltb n (length xs) ≡ true) ↔ (length (take n xs) < length xs)
length-take_says n xs = rw (length-take n xs) (ground arith)

-- A read that succeeds returns the front of a regular file inside the workspace, at most the limit
-- of the server long, and says that it is truncated just if bytes are missing.
pub read_file-IsFront :
    (files : Files) (workspace : Bytes) (limits : Limits) (relative : Bytes) (limit : ℤ)
    {text : Bytes} {truncated : Bool}
    → read_file files workspace limits relative limit ≡ ok (text, truncated)
    → IsFront files limits workspace relative text truncated
unfolding read_file
read_file-IsFront files workspace limits relative limit {text} {truncated} h =
    let bound = read_limit files workspace limits.max_file_read_bytes limit in
    let (path, resolves, s1) = >>=-eq-ok (resolve_path files workspace relative) _ h in
    let (_, file, s2) = >>=-eq-ok (is_file files workspace (files.lstat path)) _ s1 in
    let (whole, reads, s3) = >>=-eq-ok (read_all files workspace (files.read path)) _ s2 in
    let text_is : take bound whole ≡ text = cc s3 in
    let flag_is : ltb bound (length whole) ≡ truncated = cc s3 in
    let fits : bound ≤ limits.max_file_read_bytes =
      read_limit-bounded files workspace limits.max_file_read_bytes limit in
    let says = length-take_says bound whole in
    record {
      path = path;
      whole = whole;
      resolves = resolve_path-IsResolved files workspace relative resolves;
      size = (is_file_sound files workspace _ file).0;
      is_regular = (is_file_sound files workspace _ file).1;
      reads = read_all_sound files workspace _ reads;
      rest = drop bound whole;
      front = ap (λ t. t ++ drop bound whole) (sym text_is) ∙ take-append-drop bound whole;
      bounded =
          subst (λ t. length t ≤ limits.max_file_read_bytes) text_is
            (omega (arith, length-take bound whole, fits));
      says = (
        (λ e. subst (λ t. length t < length whole) text_is (says.0 (flag_is ∙ e))),
        λ e. sym flag_is ∙ says.1 (subst (λ t. length t < length whole) (sym text_is) e),
      );
    }
