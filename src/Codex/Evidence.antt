-- ===== src/Codex/Evidence.antt =====
-- The host of src/codex/host.ts acknowledges no mail before it has seen it in the thread's history.
use claude_ipc.Base.{
  text_eq_refl, subst, sym, ℕ, ◌+◌, Text, contains, Bool, true, false, ◌&&◌, not, Option, none,
  some, List, [], ◌∷◌, ◌++◌, ◌≡◌, refl, inl, inr, arith, keep, every, length, eqb, is_empty,
  or_default, if◌then◌else◌, Bool-cases,
}
use claude_ipc.Base.Map.{values}
use claude_ipc.Models.{Message}
use claude_ipc.Codex.{
  Done, Act, attached, carry_on, pump_on, started, acked, acked_project, Host, State, Beat, alive,
  not_registered, failing, World, Ending, done, threw, hung, Action, ◌then◌, pure, throw, answered,
  call, with_acts, by_id, ids_of, require_current, wait_until_persisted, start_delivery,
  deliver_missing, load_history, both, lease_both, settle_lease, second_beat, ensured, on_beat,
  beat_once, timeout_ms, hand_over, pump_once, Visit, pumps, switches, switch_thread, new_host,
  visit_all,
}
use claude_ipc.Codex.Acts.{
  seen, loaded, latest, Justified, Sound, Fresh, ready, sound, Has, missing-not_latest,
  every-weaker, every-keep-split, every-none, every-keep_self, contains-every, every-by_id,
}
use claude_ipc.Codex.Ends.{
  Ends, done-Ends, threw-Ends, call-Ends, call-kept, if_Ends, Ends-weaker, caught-Ends, follow-Ends,
  require_current-Ends, remaining_ms-Ends, Keeps, refresh-Ends, wait_until_persisted-Ends,
}

module _ {S : Type 0} (w : World S) (thread : Text) where
  -- What a ready host need not show.
  abbrev Nothing : Host → List Act → Type 0
  Nothing h acts = Unit {0}

  abbrev Ready : Host → List Act → Type 0
  Ready = (ready thread).Holds

  module _ (fuel deadline : ℕ) where
    -- A turn with these ids may be asked for.
    abbrev MayStart : List Text → List Act → Type 0
    MayStart ids acts =
        (loaded thread acts ≡ true) × (every (λ i. not (contains (latest acts) i)) ids ≡ true)

    start_delivery-Ends :
        (base ids : List Text) (st : State S)
        → Sound thread st.host st.acts
        → Has base st.host
        → MayStart ids st.acts
        → Ends
            (Sound thread)
            (start_delivery w thread fuel deadline ids st)
            (λ u h acts. (Has base h × Has ids h) × Fresh thread h acts)
    unfolding start_delivery
    start_delivery-Ends base ids st s k m =
        follow-Ends (Sound thread) _ _ (λ ms h acts. Has base h × MayStart ids acts)
          (λ u h acts. (Has base h × Has ids h) × Fresh thread h acts)
          (remaining_ms-Ends w thread (sound thread) deadline
            (λ h acts. Has base h × MayStart ids acts) st s (k, m))
          (λ ms st' s' k'.
            follow-Ends (Sound thread) _ _ (λ t. Keeps base)
              (λ u h acts. (Has base h × Has ids h) × Fresh thread h acts)
              (started-Ends st' s' k'.0 k'.1) (λ t st'' s'' k''. waited t st'' s'' k''))
      where
        started-Ends :
            (st : State S)
            → Sound thread st.host st.acts
            → Has base st.host
            → MayStart ids st.acts
            → Ends
                (Sound thread)
                (with_acts (started thread ids ∷ []) (call (w.start_turn thread ids) st))
                (λ t. Keeps base)
        started-Ends st s k m = go (w.start_turn thread ids st.world)
          where
            now : Sound thread st.host (started thread ids ∷ st.acts)
            now = record { here = s.here; justified = (m.0, m.1, s.justified); known = s.known }

            go :
                (r : S × Option (Option Text))
                → Ends
                    (Sound thread)
                    (with_acts (started thread ids ∷ []) (answered st r))
                    (λ t. Keeps base)
            go (t, none) = threw-Ends _ _ _ now
            go (t, some a) = done-Ends _ _ _ _ now k

        waited :
            (t : Option Text) (st : State S)
            → Sound thread st.host st.acts
            → Has base st.host
            → Ends
                (Sound thread)
                ((if is_empty (or_default t [])
                    then throw
                    else wait_until_persisted w fuel ids (or_default t []) deadline)
                  st)
                (λ u h acts. (Has base h × Has ids h) × Fresh thread h acts)
        waited t st s k = elim (Bool-cases (is_empty (or_default t []))) [
          | inl e ↦ rw e (threw-Ends _ _ _ s)
          | inr e ↦
              rw e
                (wait_until_persisted-Ends w thread base ids (or_default t []) deadline fuel st s k)
        ]

    -- A host that has loaded the history delivers what is missing.
    deliver_missing-Ends :
        (ids : List Text) (st : State S)
        → Ready st.host st.acts
        → st.host.history_loaded ≡ true
        → Ends Ready (deliver_missing w thread fuel deadline ids st) (λ u. Keeps ids)
    unfolding deliver_missing
    deliver_missing-Ends ids st s loaded_now =
        let there = contains st.host.persisted_ids in
        let missing = keep (λ i. not (there i)) ids in
        let here = every-keep_self there ids in
        let (listed, recent) = s.1 loaded_now in
        if_Ends Ready (eqb (length missing) 0) _ _ (λ u. Keeps ids)
          (λ e.
            done-Ends _ _ _ _ s
              (every-keep-split there there ids here (every-none there missing e)))
          (λ e.
            caught-Ends thread (start_delivery w thread fuel deadline missing st) (λ u. Keeps ids)
              (Ends-weaker (Sound thread) (start_delivery w thread fuel deadline missing st)
                (λ u h acts. (Has (keep there ids) h × Has missing h) × Fresh thread h acts)
                (λ u h acts. Has ids h × Fresh thread h acts)
                (start_delivery-Ends (keep there ids) missing st s.0 here
                  (listed, missing-not_latest st.host.persisted_ids (latest st.acts) ids recent))
                (λ u h acts k.
                  (every-keep-split (contains h.persisted_ids) there ids k.0.0 k.0.1, k.1))))

    load_history-Ends :
        (st : State S)
        → Ready st.host st.acts
        → Ends Ready (load_history w fuel deadline st) (λ u h acts. h.history_loaded ≡ true)
    load_history-Ends st s =
        if_Ends Ready st.host.history_loaded _ _ (λ u h acts. h.history_loaded ≡ true)
          (λ e. done-Ends _ _ _ _ s e)
          (λ e.
            follow-Ends Ready _ _ (λ ms. Nothing) (λ u h acts. h.history_loaded ≡ true)
              (remaining_ms-Ends w thread (ready thread) deadline Nothing st s tt)
              (λ ms st' s' k'.
                follow-Ends Ready _ _
                  (λ turns h acts. Has [] h × (h.history_loaded ≡ true) × Fresh thread h acts)
                  (λ u h acts. h.history_loaded ≡ true)
                  (refresh-Ends w thread (ready thread) fuel [] st' s' refl)
                  (λ turns st'' s'' k''. done-Ends _ _ _ _ s'' k''.1)))

  -- Ids that are known to be persisted were seen.
  known-seen :
      (h : Host) (acts : List Act) (ids : List Text)
      → Sound thread h acts
      → Has ids h
      → every (seen thread acts) ids ≡ true
  known-seen h acts ids s k =
      every-weaker (contains h.persisted_ids) (seen thread acts) ids
        (λ i c. contains-every (seen thread acts) h.persisted_ids i s.known c) k

  both-Ends :
      {A B : Type 0} (r : State S × Ending A) (m : Action S B) (K : Host → Type 0)
      → Ready r.0.host r.0.acts
      → K r.0.host
      → ((st : State S)
          → Ready st.host st.acts
          → K st.host
          → Ends Ready (m st) (λ b. Nothing) × Ready (m st).0.host (m st).0.acts)
      → Ends Ready (both w r m) (λ p. Nothing)
  both-Ends (st, done a) m K s k h =
      follow-Ends Ready (m st) _ (λ b. Nothing) (λ p. Nothing) (h st s k).0
        (λ b st' s' k'. done-Ends _ _ _ _ s' tt)
  both-Ends (st, threw) m K s k h = threw-Ends _ _ _ (h st s k).1
  both-Ends (st, hung) m K s k h = threw-Ends _ _ _ (h st s k).1

  -- What is persisted may be acknowledged.
  acked-Ready :
      (h : Host) (acts : List Act) (ids : List Text)
      → Ready h acts
      → Has ids h
      → Ready h (acked thread ids ∷ acts) × Ready h (acked_project thread ids ∷ acts)
  acked-Ready h acts ids s k =
      let ok : (every (seen thread acts) ids ≡ true) × Justified acts =
        (known-seen h acts ids s.0 k, s.0.justified) in
      (
        (record { here = s.0.here; justified = ok; known = s.0.known }, s.1),
        (record { here = s.0.here; justified = ok; known = s.0.known }, s.1),
      )

  module _ (personal project : List Text) where
    acked-kept :
        (st : State S)
        → Ready st.host st.acts
        → Has personal st.host
        → Has project st.host
        → let r = with_acts (acked thread personal ∷ []) (call (w.ack personal) st) in
          Ready r.0.host r.0.acts × Has project r.0.host
    acked-kept st s k l = go (w.ack personal st.world)
      where
        go :
            (r : S × Option ℕ)
            → let t = with_acts (acked thread personal ∷ []) (answered st r) in
              Ready t.0.host t.0.acts × Has project t.0.host
        go (t, none) = ((acked-Ready st.host st.acts personal s k).0, l)
        go (t, some a) = ((acked-Ready st.host st.acts personal s k).0, l)

    acked_project-Ends :
        (st : State S)
        → Ready st.host st.acts
        → Has project st.host
        → let r = with_acts (acked_project thread project ∷ []) (call (w.ack_project project) st) in
          Ends Ready r (λ n. Nothing) × Ready r.0.host r.0.acts
    acked_project-Ends st s k = go (w.ack_project project st.world)
      where
        go :
            (r : S × Option ℕ)
            → let t = with_acts (acked_project thread project ∷ []) (answered st r) in
              Ends Ready t (λ n. Nothing) × Ready t.0.host t.0.acts
        go (t, none) =
            let after = (acked-Ready st.host st.acts project s k).1 in
            (threw-Ends _ _ _ after, after)
        go (t, some a) =
            let after = (acked-Ready st.host st.acts project s k).1 in
            (done-Ends _ _ _ _ after tt, after)

    settle_lease-Ends :
        (count : ℕ) (st : State S)
        → Ready st.host st.acts
        → Has personal st.host
        → Has project st.host
        → Ends Ready (settle_lease w thread personal project count st) (λ n. Nothing)
    unfolding settle_lease
    settle_lease-Ends count st s k l =
        let (s', l') = acked-kept st s k l in
        follow-Ends Ready _ _ (λ n. Nothing) (λ n. Nothing)
          (both-Ends (with_acts (acked thread personal ∷ []) (call (w.ack personal) st)) _
            (Has project) s' l' (λ t. acked_project-Ends t))
          (λ n t s'' k''. counted (eqb (n.0 + n.1) (length personal + length project)) t s'')
      where
        counted :
            (b : Bool) (t : State S)
            → Ready t.host t.acts
            → Ends Ready ((if b then pure count else throw) t) (λ n. Nothing)
        counted true t s = done-Ends _ _ _ _ s tt
        counted false t s = threw-Ends _ _ _ s

  delivered-Has :
      (personal project : List Message) (h : Host)
      → Has (ids_of (values (by_id [] (personal ++ project)))) h
      → Has (ids_of personal) h × Has (ids_of project) h
  delivered-Has personal project h k =
      let p = contains h.persisted_ids in
      let (a, b) = every-by_id p [] (personal ++ project) tt k in
      let c = every-map_append p personal project in (ground (arith, b, c), ground (arith, b, c))
    where
      every-map_append :
          (p : Text → Bool) (xs ys : List Message)
          → every p (ids_of (xs ++ ys)) ≡ (every p (ids_of xs) && every p (ids_of ys))
      every-map_append p [] ys = refl
      every-map_append p (x ∷ xs) ys = ground (arith, every-map_append p xs ys)

  hand_over-Ends :
      (fuel : ℕ) (personal project : List Message) (st : State S)
      → Ready st.host st.acts
      → Ends Ready (hand_over w thread fuel personal project st) (λ n. Nothing)
  unfolding hand_over
  hand_over-Ends fuel personal project st s =
      let ids = ids_of (values (by_id [] (personal ++ project))) in
      branch (eqb (length (values (by_id [] (personal ++ project)))) 0) _ _ st
        (done-Ends _ _ _ _ s tt)
        (follow-Ends Ready _ _ (λ u. Nothing) (λ n. Nothing)
          (require_current-Ends w thread (ready thread) Nothing st s tt)
          (λ u st1 s1 k1.
            let t = (w.now st1.world).1 in
            let deadline = t + timeout_ms w in
            follow-Ends Ready _ _ (λ u h acts. h.history_loaded ≡ true) (λ n. Nothing)
              (load_history-Ends fuel deadline (record st1 { world = (w.now st1.world).0 }) s1)
              (λ u st2 s2 k2.
                follow-Ends Ready _ _ (λ u. Keeps ids) (λ n. Nothing)
                  (deliver_missing-Ends fuel deadline ids st2 s2 k2)
                  (λ u st3 s3 k3.
                    follow-Ends Ready _ _ (λ u. Keeps ids) (λ n. Nothing)
                      (require_current-Ends w thread (ready thread) (Keeps ids) st3 s3 k3)
                      (λ u st4 s4 k4.
                        let (a, b) = delivered-Has personal project st4.host k4 in
                        settle_lease-Ends (ids_of personal) (ids_of project) _ st4 s4 a b)))))
    where
      branch :
          (b : Bool) (m n : Action S ℕ) (st : State S)
          → Ends Ready (m st) (λ n. Nothing)
          → Ends Ready (n st) (λ n. Nothing)
          → Ends Ready ((if b then m else n) st) (λ n. Nothing)
      branch true m n st h k = h
      branch false m n st h k = k

  on_beat-Ends :
      (beat : Beat) (st : State S)
      → Ready st.host st.acts
      → Ends Ready (on_beat w beat st) (λ u. Nothing)
  on_beat-Ends alive st s = done-Ends _ _ _ _ s tt
  on_beat-Ends failing st s = threw-Ends _ _ _ s
  on_beat-Ends not_registered st s = go w.ensure_registered
    where
      go : (o : Option (S → S × Option Done)) → Ends Ready (ensured w o st) (λ u. Nothing)
      go none = threw-Ends _ _ _ s
      go (some ensure) =
          follow-Ends Ready _ _ (λ u. Nothing) (λ u. Nothing)
            (call-Ends Ready ensure Nothing st s tt)
            (λ u st' s' k'. call-Ends Ready (λ t. second_beat w (w.heartbeat t)) Nothing st' s' tt)

  pump_on-Ends :
      (fuel : ℕ) (st : State S)
      → Ready st.host st.acts
      → Ends Ready (pump_on w thread fuel st) (λ n. Nothing)
  unfolding pump_on beat_once
  pump_on-Ends fuel st s =
      follow-Ends Ready _ _ (λ u. Nothing) (λ n. Nothing)
        (on_beat-Ends (w.heartbeat st.world).1 (record st { world = (w.heartbeat st.world).0 }) s)
        (λ u st1 s1 k1.
          follow-Ends Ready _ _ (λ a. Nothing) (λ n. Nothing)
            (call-Ends Ready (w.read_active thread) Nothing st1 s1 tt)
            (λ active st2 s2 k2. idle active st2 s2))
    where
      idle :
          (active : Bool) (st2 : State S)
          → Ready st2.host st2.acts
          → Ends Ready
              ((if active
                  then pure 0
                  else (require_current w thread then λ u'.
                      lease_both w then λ leased. hand_over w thread fuel leased.0 leased.1))
                st2)
              (λ n. Nothing)
      idle true st2 s2 = done-Ends _ _ _ _ s2 tt
      idle false st2 s2 =
          follow-Ends Ready _ _ (λ u. Nothing) (λ n. Nothing)
            (require_current-Ends w thread (ready thread) Nothing st2 s2 tt)
            (λ u st3 s3 k3.
              follow-Ends Ready _ _ (λ p. Nothing) (λ n. Nothing)
                (both-Ends (call w.lease st3) _ (λ h. Unit {0}) (call-kept Ready w.lease st3 s3) tt
                  (λ t s k. (
                    call-Ends Ready w.lease_project Nothing t s tt,
                    call-kept Ready w.lease_project t s,
                  )))
                (λ leased st4 s4 k4. hand_over-Ends fuel leased.0 leased.1 st4 s4))

-- A host that was just attached.
attached-Ready :
    (thread : Text) (known_empty : Bool) (acts : List Act)
    → Justified acts
    → (ready thread).Holds
        (record { thread_id = thread; history_loaded = known_empty; persisted_ids = [] })
        (attached thread known_empty ∷ acts)
attached-Ready thread known_empty acts j = (
  record { here = refl; justified = j; known = refl },
  λ e. (rw (text_eq_refl thread) (rw e refl), refl),
)

module _ {S : Type 0} (w : World S) where
  after_Justified :
      {A : Type 0} (thread : Text) (r : State S × Ending A) (f : State S → State S)
      → Ends (ready thread).Holds r (λ n h acts. Unit {0})
      → ((st : State S) → (ready thread).Holds st.host st.acts → Justified (f st).acts)
      → Justified (carry_on f r).acts
  unfolding Ends
  after_Justified thread (st, done a) f h k = k st h.0
  after_Justified thread (st, threw) f h k = k st h
  after_Justified thread (st, hung) f h k = h

  visited-Justified :
      (vs : List Visit) (st : State S) (thread : Text)
      → (ready thread).Holds st.host st.acts
      → Justified (visit_all w vs st).acts
  unfolding visit_all pump_once
  visited-Justified [] st thread s = s.0.justified
  visited-Justified (pumps fuel ∷ vs) st thread s =
      after_Justified thread (pump_once w fuel st) (λ after. visit_all w vs after)
        (subst (λ t. Ends (ready thread).Holds (pump_on w t fuel st) (λ n h acts. Unit {0}))
          (sym s.0.here) (pump_on-Ends w thread fuel st s))
        (λ after i. visited-Justified vs after thread i)
  visited-Justified (switches thread' known_empty ∷ vs) st thread s =
      visited-Justified vs (switch_thread w thread' known_empty st) thread'
        (attached-Ready thread' known_empty st.acts s.0.justified)

-- Whatever the broker and the App Server answer to a host, whatever fails, and however often it pumps
-- and changes its thread: when it acknowledges mail, a listing of the very thread, since the host was
-- attached to it, has shown it each message before; and when it asks for a turn with mail, it has
-- listed the thread since the turn before, or was attached to it since and told that it is empty, and
-- the last listing held none of the mail.
pub visit_all-Justified :
    {S : Type 0} (w : World S) (thread : Text) (known_empty : Bool) (s : S) (vs : List Visit)
    → Justified (visit_all w vs (new_host w thread known_empty s)).acts
visit_all-Justified w thread known_empty s vs =
    visited-Justified w vs (new_host w thread known_empty s) thread
      (attached-Ready thread known_empty [] tt)
