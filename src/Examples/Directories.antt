-- ===== src/Examples/Directories.antt =====
-- Some directories, and what the theorems on project addresses say of them.
use claude_ipc.Base.{Text, txt, Bool, true, false, ◌||◌, [], ◌∷◌, ◌≡◌, ◌≢◌, refl, arith}
use claude_ipc.ProjectAddress.{within_project, normalize_project_path}
use claude_ipc.ProjectAddress.Lineage.{within_project-beyond, within_project_root}

within_project-beyond_example : within_project (txt "/w/ab") (txt "/w/a") ≡ false
unfolding normalize_project_path claude_ipc.Base.trim
within_project-beyond_example = within_project-beyond (txt "/w/ab") (txt "/w/a") b'b' [] refl

inside_test : within_project (txt "/w/a/b") (txt "/w/a/") ≡ true
unfolding within_project claude_ipc.Base.text_discrete normalize_project_path claude_ipc.Base.trim
inside_test = refl

within_project_root_example : within_project (txt "/w") (txt "/") ≡ false
unfolding normalize_project_path claude_ipc.Base.trim
within_project_root_example = within_project_root (txt "/w") b'w' [] (λ e. cc) refl
