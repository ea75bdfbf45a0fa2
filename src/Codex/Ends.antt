-- ===== src/Codex/Ends.antt =====
-- How the actions of src/codex/host.ts end: what is kept when they fail, and what holds when they do
-- not.
use claude_ipc.Base.{
  text_eq_refl, ℕ, zero, suc, Text, ◌==◌, ap, ◌∙◌, contains, Bool, true, false, Option, none, some,
  List, [], ◌∷◌, ◌++◌, ◌≡◌, refl, inl, inr, arith, leb, is_empty, or_default, if◌then◌else◌,
  Bool-cases, Option-cases,
}
use claude_ipc.Codex.{
  Done, Act, saw, Host, State, Turn, Page, World, Ending, done, threw, hung, Action, follow, ◌then◌,
  pure, answered, call, forget, caught, ids_in_turns, add_all, turn_ended, require_current,
  remaining_ms, list_pages, refresh, all_persisted, check_turn, wait_until_persisted,
}
use claude_ipc.Codex.Acts.{
  seen, Justified, Sound, Fresh, Level, sound, ready, every-contains_added, Has, every-weaker,
  contains-add_all, every-add_all, every-contains_self,
}

module _ {S A : Type 0} where
  -- However an action ends, `Holds` is kept, where it is ever settled; and where it succeeds, `Q`
  -- holds.
  unfoldable pub Ends :
      (Host → List Act → Type 0) → State S × Ending A → (A → Host → List Act → Type 0) → Type 0
  Ends Holds (st, done a) Q = Holds st.host st.acts × Q a st.host st.acts
  Ends Holds (st, threw) Q = Holds st.host st.acts
  Ends Holds (st, hung) Q = Justified st.acts

  pub done-Ends :
      (Holds : Host → List Act → Type 0) (Q : A → Host → List Act → Type 0) (a : A) (st : State S)
      → Holds st.host st.acts
      → Q a st.host st.acts
      → Ends Holds (st, done a) Q
  unfolding Ends
  done-Ends Holds Q a st h k = (h, k)

  pub threw-Ends :
      (Holds : Host → List Act → Type 0) (Q : A → Host → List Act → Type 0) (st : State S)
      → Holds st.host st.acts
      → Ends Holds (st, threw) Q
  unfolding Ends
  threw-Ends Holds Q st h = h

  pub hung-Ends :
      (Holds : Host → List Act → Type 0) (Q : A → Host → List Act → Type 0) (st : State S)
      → Justified st.acts
      → Ends Holds (st, hung) Q
  unfolding Ends
  hung-Ends Holds Q st h = h

  pub call-Ends :
      (Holds : Host → List Act → Type 0) (f : S → S × Option A) (K : Host → List Act → Type 0)
      (st : State S)
      → Holds st.host st.acts
      → K st.host st.acts
      → Ends Holds (call f st) (λ a. K)
  unfolding Ends
  call-Ends Holds f K st s k = go (f st.world) s k
    where
      go :
          (r : S × Option A)
          → Holds st.host st.acts
          → K st.host st.acts
          → Ends Holds (answered st r) (λ a. K)
      go (t, none) s k = s
      go (t, some a) s k = (s, k)

  pub call-kept :
      (Holds : Host → List Act → Type 0) (f : S → S × Option A) (st : State S)
      → Holds st.host st.acts
      → Holds (call f st).0.host (call f st).0.acts
  call-kept Holds f st s = go (f st.world) s
    where
      go :
          (r : S × Option A)
          → Holds st.host st.acts
          → Holds (answered st r).0.host (answered st r).0.acts
      go (t, none) s = s
      go (t, some a) s = s

  pub if_Ends :
      (Holds : Host → List Act → Type 0) (b : Bool) (p q : State S × Ending A)
      (Q : A → Host → List Act → Type 0)
      → (b ≡ true → Ends Holds p Q)
      → (b ≡ false → Ends Holds q Q)
      → Ends Holds (if b then p else q) Q
  if_Ends Holds true p q Q h k = h refl
  if_Ends Holds false p q Q h k = k refl

  pub Ends-weaker :
      (Holds : Host → List Act → Type 0) (r : State S × Ending A)
      (Q R : A → Host → List Act → Type 0)
      → Ends Holds r Q
      → ((a : A) (h : Host) (acts : List Act) → Q a h acts → R a h acts)
      → Ends Holds r R
  unfolding Ends
  Ends-weaker Holds (st, done a) Q R h k = (h.0, k a st.host st.acts h.1)
  Ends-weaker Holds (st, threw) Q R h k = h
  Ends-weaker Holds (st, hung) Q R h k = h

pub forget-Holds :
    {S : Type 0} (thread : Text) (l : Level thread) (st : State S)
    → l.Holds st.host st.acts
    → l.Holds (forget st).host (forget st).acts
forget-Holds thread l st i =
    let s = l.down st.host st.acts i in
    l.up (forget st).host (forget st).acts
      (record { here = s.here; justified = s.justified; known = refl }) (λ e. cc)

-- The `catch` makes a host fresh again.
pub caught-Ends :
    {S A : Type 0} (thread : Text) (r : State S × Ending A) (Q : A → Host → List Act → Type 0)
    → Ends (Sound thread) r (λ a h acts. Q a h acts × Fresh thread h acts)
    → Ends (ready thread).Holds (caught r) Q
unfolding Ends
caught-Ends thread (st, done a) Q h = ((h.0, h.1.1), h.1.0)
caught-Ends thread (st, threw) Q h =
    (record { here = h.here; justified = h.justified; known = refl }, λ e. cc)
caught-Ends thread (st, hung) Q h = h

pub follow-Ends :
    {S A B : Type 0} (Holds : Host → List Act → Type 0) (r : State S × Ending A)
    (f : A → Action S B) (Q : A → Host → List Act → Type 0) (R : B → Host → List Act → Type 0)
    → Ends Holds r Q
    → ((a : A) (st : State S) → Holds st.host st.acts → Q a st.host st.acts → Ends Holds (f a st) R)
    → Ends Holds (follow r f) R
unfolding Ends
follow-Ends Holds (st, done a) f Q R h k = k a st h.0 h.1
follow-Ends Holds (st, threw) f Q R h k = h
follow-Ends Holds (st, hung) f Q R h k = h

module _ {S : Type 0} (w : World S) (thread : Text) (l : Level thread) where
  pub require_current-Ends :
      (K : Host → List Act → Type 0) (st : State S)
      → l.Holds st.host st.acts
      → K st.host st.acts
      → Ends l.Holds (require_current w thread st) (λ u. K)
  unfolding require_current
  require_current-Ends K st s k = elim (Option-cases w.still_owns_thread) [
    | inl e ↦ rw (e, require_current) (done-Ends _ _ _ _ s k)
    | inr (owns, e) ↦ elim (Bool-cases (owns thread st.world)) [
      | inl f ↦ rw (e, require_current) (rw f (done-Ends _ _ _ _ s k))
      | inr f ↦ rw (e, require_current) (rw f (threw-Ends _ _ _ (forget-Holds thread l st s)))
    ]
  ]

  pub remaining_ms-Ends :
      (deadline : ℕ) (K : Host → List Act → Type 0) (st : State S)
      → l.Holds st.host st.acts
      → K st.host st.acts
      → Ends l.Holds (remaining_ms w deadline st) (λ ms. K)
  unfolding remaining_ms
  remaining_ms-Ends deadline K st s k = elim (Bool-cases (leb deadline (w.now st.world).1)) [
    | inl e ↦ rw (e, remaining_ms) (threw-Ends _ _ _ s)
    | inr e ↦ rw (e, remaining_ms) (done-Ends _ _ _ _ s k)
  ]

  pub list_pages-Ends :
      (fuel : ℕ) (cursor : Option Text) (turns : List Turn) (K : Host → List Act → Type 0)
      (st : State S)
      → l.Holds st.host st.acts
      → K st.host st.acts
      → Ends l.Holds (list_pages w fuel cursor turns st) (λ t. K)
  unfolding list_pages
  list_pages-Ends zero cursor turns K st s k = hung-Ends _ _ _ (l.down st.host st.acts s).justified
  list_pages-Ends (suc fuel) cursor turns K st s k =
      follow-Ends l.Holds _ _ (λ page. K) (λ t. K)
        (call-Ends l.Holds (w.list_turns st.host.thread_id cursor) K st s k)
        (λ page st' s' k'. go page st' s' k' (λ c t. list_pages-Ends fuel c t K st' s' k'))
    where
      go :
          (page : Page) (st' : State S)
          → l.Holds st'.host st'.acts
          → K st'.host st'.acts
          → ((c : Option Text) (t : List Turn) → Ends l.Holds (list_pages w fuel c t st') (λ t. K))
          → Ends l.Holds
              ((if is_empty (or_default page.next_cursor [])
                  then pure (turns ++ page.data_)
                  else list_pages w fuel page.next_cursor (turns ++ page.data_))
                st')
              (λ t. K)
      go page st' s' k' ih = elim (Bool-cases (is_empty (or_default page.next_cursor []))) [
        | inl e ↦ rw e (done-Ends _ _ _ _ s' k')
        | inr e ↦ rw e (ih page.next_cursor (turns ++ page.data_))
      ]

-- What a listing makes of the host.
abbrev noted : Host → List Text → Host
noted h ids = record h { history_loaded = true; persisted_ids = add_all h.persisted_ids ids }

own-seen :
    (thread : Text) (h : Host) (acts : List Act) (ids : List Text) (i : Text)
    → h.thread_id ≡ thread
    → contains ids i ≡ true
    → seen thread (saw h.thread_id ids ∷ acts) i ≡ true
own-seen thread h acts ids i e k =
    let own : (h.thread_id == thread) ≡ true = ap (λ u. u == thread) e ∙ text_eq_refl thread in
    rw own (rw k refl)

noted-Sound :
    (thread : Text) (h : Host) (acts : List Act) (ids : List Text)
    → Sound thread h acts
    → Sound thread (noted h ids) (saw h.thread_id ids ∷ acts)
noted-Sound thread h acts ids s = record {
  here = s.here;
  justified = s.justified;
  known =
      every-add_all (seen thread (saw h.thread_id ids ∷ acts)) h.persisted_ids ids
        (every-weaker (seen thread acts) (seen thread (saw h.thread_id ids ∷ acts)) h.persisted_ids
          (λ i k. ground (arith, k)) s.known)
        (every-weaker (contains ids) (seen thread (saw h.thread_id ids ∷ acts)) ids
          (λ i k. own-seen thread h acts ids i s.here k) (every-contains_self ids));
}

noted-Fresh :
    (thread : Text) (h : Host) (acts : List Act) (ids : List Text)
    → h.thread_id ≡ thread
    → Fresh thread (noted h ids) (saw h.thread_id ids ∷ acts)
noted-Fresh thread h acts ids e _ =
    (ap (λ u. u == thread) e ∙ text_eq_refl thread, every-contains_added h.persisted_ids ids)

-- The ids that `base` lists are among those known to be persisted.
abbrev pub Keeps : List Text → Host → List Act → Type 0
Keeps base h acts = Has base h

module _ {S : Type 0} (w : World S) (thread : Text) where
  -- After a listing the host is fresh.
  pub refresh-Ends :
      (l : Level thread) (fuel : ℕ) (base : List Text) (st : State S)
      → l.Holds st.host st.acts
      → Has base st.host
      → Ends l.Holds
          (refresh w fuel st)
          (λ turns h acts. Has base h × (h.history_loaded ≡ true) × Fresh thread h acts)
  unfolding refresh
  refresh-Ends l fuel base st s k =
      follow-Ends l.Holds _ _ (λ t. Keeps base)
        (λ turns h acts. Has base h × (h.history_loaded ≡ true) × Fresh thread h acts)
        (list_pages-Ends w thread l fuel none [] (Keeps base) st s k)
        (λ turns st' s' k'.
          let ids = ids_in_turns w.parse_ids turns in
          let before = l.down st'.host st'.acts s' in
          let fresh = noted-Fresh thread st'.host st'.acts ids before.here in
          done-Ends _ _ _ _
            (l.up (noted st'.host ids) (saw st'.host.thread_id ids ∷ st'.acts)
              (noted-Sound thread st'.host st'.acts ids before) fresh)
            (
              every-weaker (contains st'.host.persisted_ids)
                  (contains (add_all st'.host.persisted_ids ids)) base
                  (contains-add_all st'.host.persisted_ids ids) k',
              refl,
              fresh,
            ))

  module _ (base ids : List Text) (turn_id : Text) (deadline : ℕ) where
    -- What the wait is for.
    abbrev pub Awaited : Host → List Act → Type 0
    Awaited h acts = (Has base h × Has ids h) × Fresh thread h acts

    pub check_turn-Ends :
        (again : Action S Done) (turns : List Turn) (st : State S)
        → ((st' : State S)
            → Sound thread st'.host st'.acts
            → Has base st'.host
            → Ends (Sound thread) (again st') (λ u. Awaited))
        → Sound thread st.host st.acts
        → Has base st.host
        → Fresh thread st.host st.acts
        → Ends (Sound thread) (check_turn w ids turn_id deadline again turns st) (λ u. Awaited)
    unfolding check_turn
    check_turn-Ends again turns st ih s k f = elim (Bool-cases (all_persisted w ids st)) [
      | inl e ↦ rw (e, check_turn) (done-Ends _ _ _ _ s ((k, e), f))
      | inr e ↦ elim (Bool-cases (turn_ended turn_id turns)) [
        | inl g ↦ rw (e, check_turn) (rw g (threw-Ends _ _ _ s))
        | inr g ↦
            rw (e, check_turn)
              (rw g (
                late (leb deadline (w.now st.world).1) (record st { world = (w.now st.world).0 }) s
                  k))
      ]
    ]
      where
        late :
            (b : Bool) (t : State S)
            → Sound thread t.host t.acts
            → Has base t.host
            → Ends
                (Sound thread)
                (if b then (t, threw) else again (record t { world = w.sleep t.world }))
                (λ u. Awaited)
        late true t s k = threw-Ends _ _ _ s
        late false t s k = ih (record t { world = w.sleep t.world }) s k

    pub wait_until_persisted-Ends :
        (fuel : ℕ) (st : State S)
        → Sound thread st.host st.acts
        → Has base st.host
        → Ends (Sound thread) (wait_until_persisted w fuel ids turn_id deadline st) (λ u. Awaited)
    unfolding wait_until_persisted
    wait_until_persisted-Ends zero st s k = hung-Ends _ _ _ s.justified
    wait_until_persisted-Ends (suc fuel) st s k =
        follow-Ends (Sound thread) _ _ (λ ms. Keeps base) (λ u. Awaited)
          (remaining_ms-Ends w thread (sound thread) deadline (Keeps base) st s k)
          (λ ms st' s' k'.
            follow-Ends (Sound thread) _ _
              (λ turns h acts. Has base h × (h.history_loaded ≡ true) × Fresh thread h acts)
              (λ u. Awaited) (refresh-Ends (sound thread) fuel base st' s' k')
              (λ turns st'' s'' k''.
                check_turn-Ends (wait_until_persisted w fuel ids turn_id deadline) turns st''
                  (wait_until_persisted-Ends fuel) s'' k''.0 k''.2))
