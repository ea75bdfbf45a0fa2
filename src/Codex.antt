-- ===== src/Codex.antt =====
-- src/codex/host.ts: the only consumer of the mail of one Codex thread. It leases mail, has the App
-- Server persist it in the thread, and acknowledges the lease.
pub mod Calls
pub mod Acts
pub mod Ends
pub mod Evidence
use claude_ipc.Base.{
  ℕ, zero, suc, ◌+◌, ◌*◌, ◌-◌, max, Text, ◌==◌, is_empty, txt, contains, add, Bool, true, false,
  ◌&&◌, ◌||◌, not, Option, none, some, List, [], ◌∷◌, ◌++◌, map, keep, every, find, some_of, length,
  leb, eqb, or_default, if◌then◌else◌,
}
use claude_ipc.Base.Map
use claude_ipc.Base.Map.{Map, values}
use claude_ipc.Models.{Message}
pub use claude_ipc.Codex.Calls.{
  Done, Act, attached, carry_on, saw, started, acked, acked_project, Host, State, Item, Turn, Page,
  Beat, alive, not_registered, failing, World, Ending, done, threw, hung, Action, follow, ◌then◌,
  pure, throw, answered, call, with_acts, forget, caught, is_text, is_receipt, some_ids,
  ids_in_item, ids_in_items, ids_in_turns, add_all, has_ended, turn_ended, by_id, ids_of, Visit,
  pumps, switches,
}

module _ {S : Type 0} (w : World S) where
  unfoldable pub require_current : Text → Action S Done
  require_current thread st = elim w.still_owns_thread [
    | none ↦ (st, done tt)
    | some owns ↦ if owns thread st.world then (st, done tt) else (forget st, threw)
  ]

  abbrev pub read_clock : Action S ℕ
  read_clock st = let (s, n) = w.now st.world in (record st { world = s }, done n)

  unfoldable pub remaining_ms : ℕ → Action S ℕ
  remaining_ms deadline = read_clock then λ n. if leb deadline n then throw else pure (deadline - n)

  -- The pages of the history, one after the other.
  unfoldable pub list_pages : ℕ → Option Text → List Turn → Action S (List Turn)
  list_pages zero cursor turns st = (st, hung)
  list_pages (suc fuel) cursor turns st =
      follow (call (w.list_turns st.host.thread_id cursor) st) (λ page.
        if is_empty (or_default page.next_cursor [])
        then pure (turns ++ page.data_)
        else list_pages fuel page.next_cursor (turns ++ page.data_))

  abbrev pub note_history : List Turn → Action S (List Turn)
  note_history turns st =
      let ids = ids_in_turns w.parse_ids turns in
      (
        record st {
          host = record st.host {
            history_loaded = true;
            persisted_ids = add_all st.host.persisted_ids ids;
          };
          acts = saw st.host.thread_id ids ∷ st.acts;
        },
        done turns,
      )

  -- `refreshPersistedMessageIds`
  unfoldable pub refresh : ℕ → Action S (List Turn)
  unfolding list_pages
  refresh fuel = list_pages fuel none [] then note_history

  abbrev pub all_persisted : List Text → State S → Bool
  all_persisted ids st = every (contains st.host.persisted_ids) ids

  -- The tests after a refresh; `again` is the next round.
  unfoldable pub check_turn : List Text → Text → ℕ → Action S Done → List Turn → Action S Done
  check_turn ids turn_id deadline again turns st =
      if all_persisted ids st
      then (st, done tt)
      else if turn_ended turn_id turns
      then (st, threw)
      else follow (read_clock st) (λ n s.
        if leb deadline n then (s, threw) else again (record s { world = w.sleep s.world }))

  unfoldable pub wait_until_persisted : ℕ → List Text → Text → ℕ → Action S Done
  unfolding remaining_ms refresh check_turn
  wait_until_persisted zero ids turn_id deadline st = (st, hung)
  wait_until_persisted (suc fuel) ids turn_id deadline st = follow (remaining_ms deadline st) (λ ms.
      refresh fuel
      then check_turn ids turn_id deadline (wait_until_persisted fuel ids turn_id deadline))

  -- The body of the `try`: a turn with the missing mail, awaited until the thread holds it.
  unfoldable pub start_delivery : Text → ℕ → ℕ → List Text → Action S Done
  unfolding wait_until_persisted
  start_delivery thread fuel deadline ids = remaining_ms deadline then λ ms.
      (λ st. with_acts (started thread ids ∷ []) (call (w.start_turn thread ids) st))
      then λ turn_id.
          if is_empty (or_default turn_id [])
          then throw
          else wait_until_persisted fuel ids (or_default turn_id []) deadline

  unfoldable pub deliver_missing : Text → ℕ → ℕ → List Text → Action S Done
  unfolding start_delivery
  deliver_missing thread fuel deadline ids st =
      let missing = keep (λ i. not (contains st.host.persisted_ids i)) ids in
      if eqb (length missing) 0
      then (st, done tt)
      else caught (start_delivery thread fuel deadline missing st)

  abbrev pub load_history : ℕ → ℕ → Action S Done
  load_history fuel deadline st =
      if st.host.history_loaded
      then (st, done tt)
      else follow (remaining_ms deadline st) (λ ms. refresh fuel then λ turns. pure tt)

  -- Both calls are made, whatever the first one answers.
  abbrev pub both : {A B : Type 0} → State S × Ending A → Action S B → State S × Ending (A × B)
  both (st, done a) m = follow (m st) (λ b. pure (a, b))
  both (st, o) m = ((m st).0, threw)

  abbrev pub lease_both : Action S (List Message × List Message)
  lease_both st = both (call w.lease st) (call w.lease_project)

  abbrev pub ack_both : Text → List Text → List Text → Action S (ℕ × ℕ)
  ack_both thread personal project st =
      both (with_acts (acked thread personal ∷ []) (call (w.ack personal) st))
        (λ s. with_acts (acked_project thread project ∷ []) (call (w.ack_project project) s))

  unfoldable pub settle_lease : Text → List Text → List Text → ℕ → Action S ℕ
  settle_lease thread personal project count = ack_both thread personal project then λ n.
      if eqb (n.0 + n.1) (length personal + length project) then pure count else throw

  abbrev pub second_beat : S × Beat → S × Option Done
  second_beat (s, alive) = (s, some tt)
  second_beat (s, not_registered) = (s, none)
  second_beat (s, failing) = (s, none)

  abbrev pub ensured : Option (S → S × Option Done) → Action S Done
  ensured none st = (st, threw)
  ensured (some ensure) st = follow (call ensure st) (λ u. call (λ s. second_beat (w.heartbeat s)))

  -- Only a broker that does not know the alias is a reason to register and try again.
  abbrev pub on_beat : Beat → Action S Done
  on_beat alive st = (st, done tt)
  on_beat failing st = (st, threw)
  on_beat not_registered st = ensured w.ensure_registered st

  unfoldable pub beat_once : Action S Done
  beat_once st = let (s, beat) = w.heartbeat st.world in on_beat beat (record st { world = s })

  abbrev pub timeout_ms : ℕ
  timeout_ms = or_default w.persistence_timeout_ms (max 1000 ((or_default w.lease_s 30 - 5) * 1000))

  -- From the leased mail on.
  unfoldable pub hand_over : Text → ℕ → List Message → List Message → Action S ℕ
  unfolding require_current deliver_missing settle_lease
  hand_over thread fuel personal project =
      let messages = values (by_id [] (personal ++ project)) in
      if eqb (length messages) 0
      then pure 0
      else (require_current thread then λ u. read_clock then λ t.
          load_history fuel (t + timeout_ms) then λ u'.
          deliver_missing thread fuel (t + timeout_ms) (ids_of messages) then λ u''.
          require_current thread then λ u'''.
          settle_lease thread (ids_of personal) (ids_of project) (length messages))

  unfoldable pub pump_on : Text → ℕ → Action S ℕ
  unfolding beat_once hand_over
  pump_on thread fuel = beat_once then λ u. call (w.read_active thread) then λ active.
      if active
      then pure 0
      else (require_current thread then λ u'.
          lease_both then λ leased. hand_over thread fuel leased.0 leased.1)

  -- The thread is read once, before anything is awaited.
  unfoldable pub pump_once : ℕ → Action S ℕ
  unfolding pump_on
  pump_once fuel st = pump_on st.host.thread_id fuel st

  -- `switchThread`, and the state of a new host.
  abbrev pub switch_thread : Text → Bool → State S → State S
  switch_thread thread known_empty st = record st {
    host = record { thread_id = thread; history_loaded = known_empty; persisted_ids = [] };
    acts = attached thread known_empty ∷ st.acts;
  }

  abbrev pub new_host : Text → Bool → S → State S
  new_host thread known_empty s = record {
    world = s;
    host = record { thread_id = thread; history_loaded = known_empty; persisted_ids = [] };
    acts = attached thread known_empty ∷ [];
  }

  -- The loop of src/codex/main.ts calls the host, and awaits it, one time after the other.

  unfoldable pub visit_all : List Visit → State S → State S
  unfolding pump_once
  visit_all [] st = st
  visit_all (pumps fuel ∷ vs) st = carry_on (λ after. visit_all vs after) (pump_once fuel st)
  visit_all (switches thread known_empty ∷ vs) st =
      visit_all vs (switch_thread thread known_empty st)
