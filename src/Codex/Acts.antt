-- ===== src/Codex/Acts.antt =====
-- What the host of src/codex/host.ts has done so far, and what of it was justified.
use claude_ipc.Base.{
  text_eq_refl, Text, ◌==◌, contains, add, contains-add, Bool, true, false, ◌&&◌, ◌||◌, not, List,
  [], ◌∷◌, ◌++◌, ◌≡◌, refl, ◌∙◌, arith, keep, every, length, eqb,
}
use claude_ipc.Base.Map
use claude_ipc.Base.Map.{Map, values}
use claude_ipc.Base.Map.Entries.{All, All-set}
use claude_ipc.Models.{Message}
use claude_ipc.Codex.{
  Act, attached, saw, started, acked, acked_project, Host, add_all, by_id, ids_of,
}

-- Whether a listing of the thread's history showed an id, since the host was last attached.
abbrev pub seen : Text → List Act → Text → Bool
seen t [] i = false
seen t (attached u known_empty ∷ acts) i = false
seen t (saw u ids ∷ acts) i = (u == t && contains ids i) || seen t acts i
seen t (started u ids ∷ acts) i = seen t acts i
seen t (acked u ids ∷ acts) i = seen t acts i
seen t (acked_project u ids ∷ acts) i = seen t acts i

-- Whether the history of the thread was listed, or known to be empty, since a turn was last asked for.
abbrev pub loaded : Text → List Act → Bool
loaded t [] = false
loaded t (attached u known_empty ∷ acts) = u == t && known_empty
loaded t (saw u ids ∷ acts) = u == t
loaded t (started u ids ∷ acts) = false
loaded t (acked u ids ∷ acts) = loaded t acts
loaded t (acked_project u ids ∷ acts) = loaded t acts

-- The ids in the last listing, since the host was last attached.
abbrev pub latest : List Act → List Text
latest [] = []
latest (attached u known_empty ∷ acts) = []
latest (saw u ids ∷ acts) = ids
latest (started u ids ∷ acts) = latest acts
latest (acked u ids ∷ acts) = latest acts
latest (acked_project u ids ∷ acts) = latest acts

-- Each acknowledgement comes after a listing of the thread for each of its ids; and each turn comes
-- after a listing that is later than the turn before, with none of its ids in the last one.
abbrev pub Justified : List Act → Type 0
Justified [] = Unit
Justified (attached t known_empty ∷ acts) = Justified acts
Justified (saw t ids ∷ acts) = Justified acts
Justified (started t ids ∷ acts) =
    (loaded t acts ≡ true)
    × (every (λ i. not (contains (latest acts) i)) ids ≡ true)
    × Justified acts
Justified (acked t ids ∷ acts) = (every (seen t acts) ids ≡ true) × Justified acts
Justified (acked_project t ids ∷ acts) = (every (seen t acts) ids ≡ true) × Justified acts

-- And what the host takes for persisted was seen.
pub record Sound (thread : Text) (h : Host) (acts : List Act) : Type 0 where
  pub here : h.thread_id ≡ thread
  pub justified : Justified acts
  pub known : every (seen thread acts) h.persisted_ids ≡ true

-- A host that takes its history for loaded has listed it since the last turn, and forgot nothing.
abbrev pub Fresh : Text → Host → List Act → Type 0
Fresh thread h acts =
    h.history_loaded ≡ true
    → (loaded thread acts ≡ true) × (every (contains h.persisted_ids) (latest acts) ≡ true)

-- What holds between two steps of an action: outside the `try`, the host is fresh as well.
pub record Level (thread : Text) : Type 1 where
  pub Holds : Host → List Act → Type 0
  pub down : (h : Host) (acts : List Act) → Holds h acts → Sound thread h acts
  pub up : (h : Host) (acts : List Act) → Sound thread h acts → Fresh thread h acts → Holds h acts

abbrev pub sound : (thread : Text) → Level thread
sound thread = record { Holds = Sound thread; down = λ h acts s. s; up = λ h acts s f. s }

abbrev pub ready : (thread : Text) → Level thread
ready thread = record {
  Holds = λ h acts. Sound thread h acts × Fresh thread h acts;
  down = λ h acts i. i.0;
  up = λ h acts s f. (s, f);
}

abbrev pub Has : List Text → Host → Type 0
Has ids h = every (contains h.persisted_ids) ids ≡ true

module _ {A : Type 0} where
  pub every-weaker :
      (p q : A → Bool) (xs : List A)
      → ((x : A) → p x ≡ true → q x ≡ true)
      → every p xs ≡ true
      → every q xs ≡ true
  every-weaker p q [] f h = refl
  every-weaker p q (x ∷ xs) f h = ground (arith, f x, every-weaker p q xs f)

  pub every-keep-split :
      (p : A → Bool) (q : A → Bool) (xs : List A)
      → every p (keep q xs) ≡ true
      → every p (keep (λ x. not (q x)) xs) ≡ true
      → every p xs ≡ true
  every-keep-split p q [] h k = refl
  every-keep-split p q (x ∷ xs) h k = ground (arith, every-keep-split p q xs)

  pub every-none : (p : A → Bool) (xs : List A) → eqb (length xs) 0 ≡ true → every p xs ≡ true
  every-none p [] h = refl
  every-none p (x ∷ xs) h = ground arith

  pub every-keep_self : (p : A → Bool) (xs : List A) → every p (keep p xs) ≡ true
  every-keep_self p [] = refl
  every-keep_self p (x ∷ xs) = ground (arith, every-keep_self p xs)

  pub every-append-left :
      (p : A → Bool) (xs ys : List A) → every p (xs ++ ys) ≡ (every p xs && every p ys)
  every-append-left p [] ys = refl
  every-append-left p (x ∷ xs) ys = ground (arith, every-append-left p xs ys)

pub contains-add_all :
    (out ids : List Text) (i : Text) → contains out i ≡ true → contains (add_all out ids) i ≡ true
contains-add_all out [] i h = h
contains-add_all out (j ∷ ids) i h =
    contains-add_all (add out j) ids i (contains-add out j i ∙ ground (arith, h))

pub contains-every :
    (p : Text → Bool) (ids : List Text) (i : Text)
    → every p ids ≡ true
    → contains ids i ≡ true
    → p i ≡ true
contains-every p [] i h k = ground arith
contains-every p (j ∷ ids) i h k = ground (arith, contains-every p ids i)

pub every-add :
    (p : Text → Bool) (out : List Text) (i : Text)
    → every p out ≡ true
    → p i ≡ true
    → every p (add out i) ≡ true
every-add p out i h k = ground (arith, every-append-left p out (i ∷ []))

pub every-add_all :
    (p : Text → Bool) (out ids : List Text)
    → every p out ≡ true
    → every p ids ≡ true
    → every p (add_all out ids) ≡ true
every-add_all p out [] h k = h
every-add_all p out (i ∷ ids) h k =
    every-add_all p (add out i) ids (every-add p out i h (ground (arith, k))) (ground (arith, k))

pub every-contains_self : (ids : List Text) → every (contains ids) ids ≡ true
every-contains_self [] = refl
every-contains_self (j ∷ ids) = ground (
  arith,
  every-weaker (contains ids) (contains (j ∷ ids)) ids (λ i h. ground (arith, h))
      (every-contains_self ids),
)

-- What has been collected by id still holds each id.
abbrev pub Keyed : Map Message → Type 0
Keyed m = All (λ k x. x.id ≡ k) m

pub every-set :
    (p : Text → Bool) (m : Map Message) (x : Message)
    → Keyed m
    → every p (ids_of (values (Map.set m x.id x))) ≡ true
    → (every p (ids_of (values m)) ≡ true) × (p x.id ≡ true)
unfolding Map.set
every-set p [] x k h = ground (arith, h)
every-set p ((j, v) ∷ m) x k h = ground (arith, every-set p m x)

pub every-by_id :
    (p : Text → Bool) (m : Map Message) (xs : List Message)
    → Keyed m
    → every p (ids_of (values (by_id m xs))) ≡ true
    → (every p (ids_of (values m)) ≡ true) × (every p (ids_of xs) ≡ true)
every-by_id p m [] k h = (h, refl)
every-by_id p m (x ∷ xs) k h =
    let (a, b) =
      every-by_id p (Map.set m x.id x) xs (All-set (λ k x. x.id ≡ k) m x.id x refl k) h in
    let (c, d) = every-set p m x k a in (c, ground (arith, b, d))

-- What is not known to be persisted was not in the last listing either.
pub missing-not_latest :
    (known latest ids : List Text)
    → every (contains known) latest ≡ true
    → every (λ i. not (contains latest i)) (keep (λ i. not (contains known i)) ids) ≡ true
missing-not_latest known latest [] h = refl
missing-not_latest known latest (i ∷ ids) h =
    ground
      (arith, missing-not_latest known latest ids h, contains-every (contains known) latest i h)

contains-add_self : (out : List Text) (i : Text) → contains (add out i) i ≡ true
contains-add_self out i = contains-add out i i ∙ ground (arith, text_eq_refl i)

-- What is added is there.
pub every-contains_added : (out ids : List Text) → every (contains (add_all out ids)) ids ≡ true
every-contains_added out [] = refl
every-contains_added out (i ∷ ids) = ground (
  arith,
  every-contains_added (add out i) ids,
  contains-add_all (add out i) ids i (contains-add_self out i),
)
