-- ===== src/ProjectAddress/Lineage.antt =====
-- The laws of membership: who may see, and who may claim, the mail of a directory.
use claude_ipc.Base.{
  ℕ, Text, text_discrete, ◌==◌, eqb, starts_with, trim, true, false, ◌||◌, [], ◌∷◌, ◌++◌, ◌≡◌, ◌≢◌,
  refl, arith,
}
use claude_ipc.ProjectAddress.{normalize_project_path, same_lineage, within_project, slash}

starts_with-append : (s p : Text) → starts_with (p ++ s) p ≡ true
starts_with-append s [] = refl
starts_with-append s (c ∷ p) = ground (arith, starts_with-append s p)

-- What starts with `p ++ q` starts with `p`.
starts_with-left : (s p q : Text) → starts_with s (p ++ q) ≡ true → starts_with s p ≡ true
starts_with-left s [] q h = refl
starts_with-left [] (c ∷ p) q h = cc
starts_with-left (a ∷ s) (c ∷ p) q h = ground (arith, starts_with-left s p q)

starts_with_trans :
    (s p q : Text) → starts_with s p ≡ true → starts_with p q ≡ true → starts_with s q ≡ true
starts_with_trans s p [] h k = refl
starts_with_trans [] [] (c ∷ q) h k = cc
starts_with_trans [] (d ∷ p) (c ∷ q) h k = cc
starts_with_trans (a ∷ s) [] (c ∷ q) h k = cc
starts_with_trans (a ∷ s) (d ∷ p) (c ∷ q) h k = ground (arith, starts_with_trans s p q)

-- Two texts that start with one another, the one with more behind it, cannot be.
starts_with-asym :
    (s p : Text) → starts_with s (p ++ slash) ≡ true → starts_with p (s ++ slash) ≡ false
starts_with-asym [] [] h = refl
starts_with-asym [] (c ∷ p) h = cc
starts_with-asym (a ∷ s) [] h = refl
starts_with-asym (a ∷ s) (c ∷ p) h = ground (arith, starts_with-asym s p)

module _ (a b : Text) where
  -- Seeing a project mailbox runs both ways.
  pub same_lineage_comm : same_lineage a b ≡ same_lineage b a
  unfolding same_lineage
  same_lineage_comm = ground arith

  -- Two directories share lineage exactly if one of them is within the other.
  pub same_lineage-within_project : same_lineage a b ≡ (within_project a b || within_project b a)
  unfolding same_lineage within_project
  same_lineage-within_project = ground arith

  -- A directory within a directory that is within a project is within the project.
  pub within_project_trans :
      (c : Text) → within_project a b ≡ true → within_project b c ≡ true → within_project a c ≡ true
  unfolding within_project
  within_project_trans c h k =
      let x = normalize_project_path a in
      let y = normalize_project_path b in
      let z = normalize_project_path c in
      ground (arith, starts_with-left x y slash, starts_with_trans x y (z ++ slash))

  -- Two directories that are within one another have the same normalized path.
  pub within_project_antisymm :
      within_project a b ≡ true
      → within_project b a ≡ true
      → normalize_project_path a ≡ normalize_project_path b
  unfolding within_project
  within_project_antisymm h k =
      ground (arith, starts_with-asym (normalize_project_path a) (normalize_project_path b))

-- A session in a directory that begins with `/` and goes on with some other character is not within
-- the project of the root directory `/`.
pub within_project_root :
    (cwd : Text) (c : ℕ) (s : Text)
    → c ≢ b'/'
    → normalize_project_path cwd ≡ b'/' ∷ c ∷ s
    → within_project cwd (b'/' ∷ []) ≡ false
unfolding within_project normalize_project_path trim
within_project_root cwd c s h e = rw e (ground arith)

append-longer : (y : Text) (c : ℕ) (s : Text) → (y ++ c ∷ s) == y ≡ false
unfolding text_discrete
append-longer [] c s = refl
append-longer (d ∷ y) c s = ground (arith, append-longer y c s)

starts_with-beyond :
    (y : Text) (c : ℕ) (s : Text) → starts_with (y ++ c ∷ s) (y ++ slash) ≡ eqb c b'/'
starts_with-beyond [] c s = ground arith
starts_with-beyond (d ∷ y) c s = ground (arith, starts_with-beyond y c s)

-- A directory whose normalized path begins with the whole of a project's and goes on is within the
-- project exactly if it goes on with `/`: `/ab` is not within `/a`.
pub within_project-beyond :
    (cwd dir : Text) (c : ℕ) (s : Text)
    → normalize_project_path cwd ≡ normalize_project_path dir ++ c ∷ s
    → within_project cwd dir ≡ eqb c b'/'
unfolding within_project
within_project-beyond cwd dir c s e =
    let y = normalize_project_path dir in rw e (rw (append-longer y c s) (starts_with-beyond y c s))
