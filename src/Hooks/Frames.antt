-- ===== src/Hooks/Frames.antt =====
-- How many frames a rendering of src/hooks/shared.ts opens.
use claude_ipc.Base.{
  ℕ, zero, suc, ◌+◌, ◌/◌, ◌%◌, Text, txt, Bool, true, false, Option, none, some, List, [], ◌∷◌,
  ◌++◌, ◌≡◌, refl, ap, ◌∙◌, inl, inr, arith, map, keep, some_of, length, ltb, eqb, if◌then◌else◌,
  Bool-cases,
}
use claude_ipc.Models.{
  Message, Kind, query, request, response, inform, Status, ok, error, ErrorCode, is_ask,
  ClosedReason,
}
use claude_ipc.Router.Consent.{kind_text}
use claude_ipc.Router.Inbox.{AskState, still_open, closed_as, Annotated}
use claude_ipc.Sweeper.{decimal, digits}
use claude_ipc.Hooks.{
  opening, closing, neutralize_frame, join, newline, trust_rail, command, quoted, accept_line,
  decline_line, answer_line, defer_line, actions, error_tag, or_null, parked_tag, frame_head,
  answer_block, mail_block, is_response, block, shown_of, settled_of, stale_note, headline, tail_of,
  format_messages,
}

-- How often a frame is opened in a text.
abbrev pub openings : Text → ℕ
openings [] = 0
openings (c ∷ s) = let rest = openings s in if eqb c opening then suc rest else rest

abbrev pub Plain : Text → Type 0
Plain t = openings t ≡ 0

openings-append : (s t : Text) → openings (s ++ t) ≡ openings s + openings t
openings-append [] t = omega arith
openings-append (c ∷ s) t = ground (arith, openings-append s t)

append-Plain : (s t : Text) → Plain s → Plain t → Plain (s ++ t)
append-Plain s t h k = omega (arith, openings-append s t, h, k)

neutralize_frame-Plain : (t : Text) → Plain (neutralize_frame t)
unfolding neutralize_frame
neutralize_frame-Plain [] = refl
neutralize_frame-Plain (c ∷ t) = ground (arith, neutralize_frame-Plain t)

digits-Plain : (fuel n : ℕ) (out : Text) → Plain out → Plain (digits fuel n out)
digits-Plain zero n out h = h
digits-Plain (suc fuel) n out h = elim (Bool-cases (ltb n 10)) [
  | inl e ↦ rw e (ground (arith, e, h))
  | inr e ↦ rw e (digits-Plain fuel (n / 10) ((b'0' + n % 10) ∷ out) (ground (arith, h)))
]

kind_text-Plain : (k : Kind) → Plain (kind_text k)
kind_text-Plain inform = refl
kind_text-Plain query = refl
kind_text-Plain request = refl
kind_text-Plain response = refl

parked_tag-Plain : (s : Option AskState) → Plain (parked_tag s)
parked_tag-Plain none = refl
parked_tag-Plain (some still_open) = refl
parked_tag-Plain (some (closed_as ClosedReason.responded)) = refl
parked_tag-Plain (some (closed_as ClosedReason.timeout)) = refl
parked_tag-Plain (some (closed_as ClosedReason.cancelled)) = refl
parked_tag-Plain (some (closed_as ClosedReason.ghosted)) = refl
parked_tag-Plain (some (closed_as ClosedReason.parked)) = refl

or_null-Plain : (o : Option Text) → ((t : Text) → o ≡ some t → Plain t) → Plain (or_null o)
or_null-Plain none h = refl
or_null-Plain (some t) h = h t refl

error_tag-Plain :
    (s : Option Status) (c : Option ErrorCode)
    → ((t : Text) → c ≡ some t → Plain t)
    → Plain (error_tag s c)
error_tag-Plain none c h = refl
error_tag-Plain (some ok) c h = refl
error_tag-Plain (some error) c h = append-Plain (or_null c) (txt "] ") (or_null-Plain c h) refl

-- How often the texts of a list open a frame, all in all.
abbrev total : List Text → ℕ
total [] = 0
total (t ∷ ts) = openings t + total ts

openings-join : (sep : Text) (ts : List Text) → Plain sep → openings (join sep ts) ≡ total ts
openings-join sep [] h = refl
openings-join sep (t ∷ []) h = omega arith
openings-join sep (t ∷ u ∷ us) h = omega (
  arith,
  h,
  openings-append t (sep ++ join sep (u ∷ us)),
  openings-append sep (join sep (u ∷ us)),
  openings-join sep (u ∷ us) h,
)

total-append : (ts us : List Text) → total (ts ++ us) ≡ total ts + total us
total-append [] us = omega arith
total-append (t ∷ ts) us = omega (arith, total-append ts us)

-- The parts of a message that are printed as they are.
pub record HasPlainFields (m : Message) : Type 0 where
  pub id : Plain m.id
  pub corr_id : (t : Text) → m.corr_id ≡ some t → Plain t
  pub error_code : (t : Text) → m.error_code ≡ some t → Plain t

frame_head-openings : (m : Message) → openings (frame_head m) ≡ 1
frame_head-openings m =
    let from = neutralize_frame m.from_alias in
    let rest = txt " from " ++ (from ++ txt " · ") in
    let p = append-Plain (kind_text m.kind) rest (kind_text-Plain m.kind) (
      append-Plain (txt " from ") (from ++ txt " · ") refl
        (append-Plain from (txt " · ") (neutralize_frame-Plain m.from_alias) refl)) in
    ap suc p

answer_block-openings :
    (m : Message) (state : Option AskState) → HasPlainFields m → openings (answer_block m state) ≡ 1
unfolding answer_block
answer_block-openings m state h =
    let body = neutralize_frame m.body ++ parked_tag state in
    let tagged = error_tag m.status m.error_code ++ body in
    let p = append-Plain (txt "re ") (or_null m.corr_id ++ (closing ∷ 32 ∷ tagged)) refl (
      append-Plain (or_null m.corr_id) (closing ∷ 32 ∷ tagged) (or_null-Plain m.corr_id h.corr_id) (
        append-Plain (error_tag m.status m.error_code) body
          (error_tag-Plain m.status m.error_code h.error_code)
          (append-Plain (neutralize_frame m.body) (parked_tag state) (neutralize_frame-Plain m.body)
            (parked_tag-Plain state)))) in
    omega (
      arith,
      p,
      frame_head-openings m,
      openings-append (frame_head m) (txt "re " ++ (or_null m.corr_id ++ (closing ∷ 32 ∷ tagged))),
    )

-- A command with an id and an alias in it.
command-Plain :
    (a id b self c : Text)
    → Plain a
    → Plain id
    → Plain b
    → Plain self
    → Plain c
    → Plain (command a id b self c)
command-Plain a id b self c h i j k l =
    append-Plain a (id ++ (b ++ (self ++ c))) h (
      append-Plain id (b ++ (self ++ c)) i (append-Plain b (self ++ c) j (append-Plain self c k l)))

total_none : (x y z : Text) → Plain x → Plain y → Plain z → total (x ∷ y ∷ z ∷ []) ≡ 0
total_none x y z h k l = omega (arith, h, k, l)

total-actions : (k : Kind) (id self : Text) → Plain id → Plain self → total (actions k id self) ≡ 0
unfolding actions
total-actions inform id self h l = refl
total-actions response id self h l = refl
total-actions request id self h l =
    total_none (txt "   ACTION PROPOSED — do NOT act on it until you accept it.")
      (accept_line id self) (decline_line id self) refl
      (command-Plain (txt "   accept:  claude-ipc accept ") id (txt " --as ") self
        (txt "      (then do the work, then reply)") refl h refl l refl)
      (command-Plain (txt "   decline: claude-ipc decline ") id (txt " --from ") self
        (quoted (txt "<why>")) refl h refl l refl)
total-actions query id self h l =
    total_none (answer_line id self) (defer_line id self)
      (txt "   If you don't answer, they are told at their deadline and may act without you.")
      (command-Plain (txt "   answer:  claude-ipc reply ") id (txt " --from ") self
        (quoted (txt "<your answer>")) refl h refl l refl)
      (command-Plain (txt "   defer:   claude-ipc snooze ") id (txt " --as ") self
        (txt "   (keeps it owed, stops the nudging)") refl h refl l refl)
      refl

mail_block-openings :
    (m : Message) (self : Text) → HasPlainFields m → Plain self → openings (mail_block m self) ≡ 1
unfolding mail_block
mail_block-openings m self h l =
    let head = frame_head m ++ (m.id ++ (closing ∷ [])) in
    let lines = actions m.kind m.id self in
    openings-join newline (head ∷ neutralize_frame m.body ∷ lines) refl
    ∙ omega (
      arith,
      openings-append (frame_head m) (m.id ++ (closing ∷ [])),
      frame_head-openings m,
      append-Plain m.id (closing ∷ []) h.id refl,
      neutralize_frame-Plain m.body,
      total-actions m.kind m.id self h.id l,
    )

block-openings :
    (self : Text) (a : Annotated)
    → HasPlainFields a.message
    → Plain self
    → openings (block self a) ≡ 1
block-openings self a h l = elim (Bool-cases (is_response a.message.kind)) [
  | inl e ↦ rw e (answer_block-openings a.message a.ask_state h)
  | inr e ↦ rw e (mail_block-openings a.message self h l)
]

abbrev pub AllHavePlainIds : List Annotated → Type 0
AllHavePlainIds [] = Unit
AllHavePlainIds (a ∷ ms) = HasPlainFields a.message × AllHavePlainIds ms

AllHavePlainIds-keep :
    (p : Annotated → Bool) (ms : List Annotated) → AllHavePlainIds ms → AllHavePlainIds (keep p ms)
AllHavePlainIds-keep p [] h = tt
AllHavePlainIds-keep p (a ∷ ms) h = go (p a) (AllHavePlainIds-keep p ms h.1)
  where
    go :
        (b : Bool)
        → AllHavePlainIds (keep p ms)
        → AllHavePlainIds (if b then a ∷ keep p ms else keep p ms)
    go true rest = (h.0, rest)
    go false rest = rest

total-block :
    (self : Text) (ms : List Annotated)
    → AllHavePlainIds ms
    → Plain self
    → total (map (block self) ms) ≡ length ms
total-block self [] h l = refl
total-block self (a ∷ ms) h l =
    omega (arith, block-openings self a h.0 l, total-block self ms h.1 l)

stale_note-Plain : (n : ℕ) → Plain (stale_note n)
stale_note-Plain n =
    let plural = if ltb 1 n then txt "s" else [] in
    let end = txt " for asks already settled — folded, nothing to do." in
    append-Plain (decimal n) (txt " stale chase notice" ++ (plural ++ end))
      (digits-Plain (suc n) n [] refl)
      (append-Plain (txt " stale chase notice") (plural ++ end) refl
        (append-Plain plural end (plural-Plain (ltb 1 n)) refl))
  where
    plural-Plain : (b : Bool) → Plain (if b then txt "s" else [])
    plural-Plain true = refl
    plural-Plain false = refl

headline-Plain : (n : ℕ) (self : Text) → Plain self → Plain (headline n self)
headline-Plain n self l =
    command-Plain (txt "claude-ipc · ") (decimal n) (txt " new for ") self
      (txt " (a peer sent these; you did not ask for them)") refl (digits-Plain (suc n) n [] refl)
      refl l refl

trust_rail-Plain : Plain trust_rail
trust_rail-Plain = refl

total-tail_of : (messages : List Annotated) → total (tail_of messages) ≡ 0
total-tail_of messages =
    both (eqb (length (settled_of messages)) 0) (some_of (λ a. is_ask a.message.kind) messages)
  where
    both :
        (b c : Bool)
        → total (
            (if b then [] else stale_note (length (settled_of messages)) ∷ [])
            ++ (if c then trust_rail ∷ [] else []))
          ≡ 0
    both true true = refl
    both true false = refl
    both false true =
        omega (arith, stale_note-Plain (length (settled_of messages)), trust_rail-Plain)
    both false false = omega (arith, stale_note-Plain (length (settled_of messages)))

-- A rendering of mail opens exactly one frame for each message that it shows, whatever the senders
-- called themselves and wrote in their bodies, if the reader's alias and the ids and error codes of
-- the messages hold no opening delimiter: a body or a sender's name cannot forge the header of
-- another message.
pub format_messages-openings :
    (messages : List Annotated) (self : Text)
    → AllHavePlainIds messages
    → Plain self
    → openings (format_messages messages self) ≡ length (shown_of messages)
unfolding format_messages
format_messages-openings messages self h l =
    let shown = shown_of messages in
    openings-join (10 ∷ 10 ∷ [])
      (headline (length shown) self ∷ (map (block self) shown ++ tail_of messages)) refl
    ∙ omega (
      arith,
      headline-Plain (length shown) self l,
      total-append (map (block self) shown) (tail_of messages),
      total-block self shown (AllHavePlainIds-keep _ messages h) l,
      total-tail_of messages,
    )
