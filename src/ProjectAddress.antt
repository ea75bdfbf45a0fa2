-- ===== src/ProjectAddress.antt =====
-- src/projectAddress.ts: project mailboxes, addressed by `proj:` and a directory.
pub mod Lineage
use claude_ipc.Base.{
  ℕ, Text, ◌==◌, txt, starts_with, trim, Bool, ◌||◌, List, [], ◌∷◌, ◌++◌, reverse, drop, eqb,
  if◌then◌else◌,
}

abbrev pub project_prefix : Text
project_prefix = txt "proj:"

abbrev pub is_project_address : Text → Bool
is_project_address addr = starts_with addr project_prefix

-- `while (out.length > 1 && out.endsWith("/")) out = out.slice(0, -1)`, on the text from its end.
abbrev pub strip_slashes : Text → Text
strip_slashes [] = []
strip_slashes (c ∷ []) = c ∷ []
strip_slashes (c ∷ d ∷ s) = if eqb c b'/' then strip_slashes (d ∷ s) else c ∷ d ∷ s

unfoldable pub normalize_project_path : Text → Text
normalize_project_path p = reverse (strip_slashes (reverse (trim p)))

unfoldable pub project_address : Text → Text
unfolding normalize_project_path
project_address path = project_prefix ++ normalize_project_path path

unfoldable pub project_path : Text → Text
unfolding normalize_project_path
project_path addr = normalize_project_path (drop 5 addr)

abbrev slash : Text
slash = txt "/"

-- The relation for seeing a project mailbox, which runs both ways.
unfoldable pub same_lineage : Text → Text → Bool
same_lineage a b =
    let x = normalize_project_path a in
    let y = normalize_project_path b in
    x == y || starts_with x (y ++ slash) || starts_with y (x ++ slash)

-- A session working in `cwd` may claim mail of the project at `dir`.
unfoldable pub within_project : Text → Text → Bool
within_project cwd dir =
    let x = normalize_project_path cwd in
    let y = normalize_project_path dir in x == y || starts_with x (y ++ slash)
