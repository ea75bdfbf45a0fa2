-- ===== src/Protocol/Streams.antt =====
-- However the bytes of a connection are cut into chunks, the frames that src/protocol.ts reads from
-- it are the same.
use mathlib.Core.List.{append_assoc, append-nil}
use claude_ipc.Base.{
  ℕ, zero, suc, ◌/◌, ◌%◌, ◌≤◌, ◌<◌, Bool, true, false, Option, none, some, List, [], ◌∷◌, ◌++◌, ◌≡◌,
  ◌≢◌, refl, sym, ap, ◌∙◌, ◌⊎◌, inl, inr, arith, take, drop, length, length-append, length-drop,
  ltb, if◌then◌else◌, Bool-cases, Option-cases,
}
use claude_ipc.Protocol.{
  Bytes, max_frame_bytes, get_uint32, set_uint32, Next, wait, too_large, bad_json, frame, Pushed,
  frames, throws_too_large, throws_bad_json, unfinished, with_frame, with_frames, round, parsed,
  encode_frame, next, drain, push, and_then, push_all,
}

take-append : {A : Type 0} (xs ys : List A) → take (length xs) (xs ++ ys) ≡ xs
take-append [] ys = refl
take-append (x ∷ xs) ys = ap (λ t. x ∷ t) (take-append xs ys)

drop-append : {A : Type 0} (xs ys : List A) → drop (length xs) (xs ++ ys) ≡ ys
drop-append [] ys = refl
drop-append (x ∷ xs) ys = drop-append xs ys

take-within : {A : Type 0} (n : ℕ) (xs ys : List A) → n ≤ length xs → take n (xs ++ ys) ≡ take n xs
take-within zero xs ys h = refl
take-within (suc n) [] ys h = ground arith
take-within (suc n) (x ∷ xs) ys h = ap (λ t. x ∷ t) (take-within n xs ys (omega (arith, h)))

drop-within :
    {A : Type 0} (n : ℕ) (xs ys : List A) → n ≤ length xs → drop n (xs ++ ys) ≡ drop n xs ++ ys
drop-within zero xs ys h = refl
drop-within (suc n) [] ys h = ground arith
drop-within (suc n) (x ∷ xs) ys h = drop-within n xs ys (omega (arith, h))

abbrev pub join : List Bytes → Bytes
join [] = []
join (c ∷ cs) = c ++ join cs

get_uint32-set_uint32 :
    (n : ℕ)
    → n < 4294967296
    → get_uint32 (n / 256 / 256 / 256 % 256) (n / 256 / 256 % 256) (n / 256 % 256) (n % 256) ≡ n
get_uint32-set_uint32 n h = omega (arith, h)

max_frame_bytes-small : max_frame_bytes < 4294967296
unfolding max_frame_bytes
max_frame_bytes-small = omega arith

not_ltb : (n m : ℕ) → n ≤ m → ltb m n ≡ false
not_ltb n m h = ground arith

module _ {V : Type 0} (stringify : V → Bytes) (parse : Bytes → Option V) where
  -- What is found at the head of the buffer stays found when more arrives.
  abbrev pub Extended : Next V → Bytes → Next V → Type 0
  Extended wait w n = Unit
  Extended too_large w n = n ≡ too_large
  Extended bad_json w n = n ≡ bad_json
  Extended (frame v rest) w n = n ≡ frame v (rest ++ w)

  Extended-parsed :
      (rest w : Bytes) (o : Option V) → Extended (parsed rest o) w (parsed (rest ++ w) o)
  Extended-parsed rest w none = refl
  Extended-parsed rest w (some v) = refl

  next-Extended :
      (u w : Bytes) → Extended (next stringify parse u) w (next stringify parse (u ++ w))
  next-Extended [] w = tt
  next-Extended (a ∷ []) w = tt
  next-Extended (a ∷ b ∷ []) w = tt
  next-Extended (a ∷ b ∷ c ∷ []) w = tt
  next-Extended (a ∷ b ∷ c ∷ d ∷ rest) w =
      let len = get_uint32 a b c d in
      elim (Bool-cases (ltb max_frame_bytes len)) [
        | inl e ↦ rw e refl
        | inr e ↦ rw e (elim (Bool-cases (ltb (length rest) len)) [
          | inl f ↦ rw f tt
          | inr f ↦
              let le : len ≤ length rest = ground (arith, f) in
              let more : ltb (length (rest ++ w)) len ≡ false =
                ground (arith, le, length-append rest w) in
              rw f (
                rw more (
                  rw (take-within len rest w le) (
                    rw (drop-within len rest w le)
                      (Extended-parsed (drop len rest) w (parse (take len rest))))))
        ])
      ]

  -- A frame takes 4 bytes at least.
  next-shorter :
      (u rest : Bytes) (v : V) → next stringify parse u ≡ frame v rest → length rest < length u
  next-shorter [] rest v h = cc
  next-shorter (a ∷ []) rest v h = cc
  next-shorter (a ∷ b ∷ []) rest v h = cc
  next-shorter (a ∷ b ∷ c ∷ []) rest v h = cc
  next-shorter (a ∷ b ∷ c ∷ d ∷ u) rest v h = ground (arith, length-drop (get_uint32 a b c d) u)

  drain-next :
      (n : ℕ) (u : Bytes) (x : Next V)
      → next stringify parse u ≡ x
      → drain stringify parse (suc n) u ≡ round u x (λ rest. drain stringify parse n rest)
  unfolding drain
  drain-next n u x e = ap (λ y. round u y (λ rest. drain stringify parse n rest)) e

  drain-fuel :
      (n m : ℕ) (u : Bytes)
      → length u < n
      → length u < m
      → drain stringify parse n u ≡ drain stringify parse m u
  unfolding drain
  drain-fuel zero m u h k = ground arith
  drain-fuel (suc n) zero u h k = ground arith
  drain-fuel (suc n) (suc m) u h k = go (next stringify parse u) refl (λ r. drain-fuel n m r)
    where
      go :
          (x : Next V)
          → next stringify parse u ≡ x
          → ((r : Bytes)
              → length r < n
              → length r < m
              → drain stringify parse n r ≡ drain stringify parse m r)
          → round u x (λ r. drain stringify parse n r) ≡ round u x (λ r. drain stringify parse m r)
      go (frame v rest) e ih =
          let s = next-shorter u rest v e in
          ap (with_frame v) (ih rest (omega (arith, s, h)) (omega (arith, s, k)))
      go wait e ih = refl
      go too_large e ih = refl
      go bad_json e ih = refl

  with_frame-finished :
      (v : V) (p : Bytes × Pushed V) → p.1 ≢ unfinished → (with_frame v p).1 ≢ unfinished
  with_frame-finished v (buf, frames vs) h e = cc
  with_frame-finished v (buf, throws_too_large) h e = cc
  with_frame-finished v (buf, throws_bad_json) h e = cc
  with_frame-finished v (buf, unfinished) h e = h refl

  drain-finished : (n : ℕ) (u : Bytes) → length u < n → (drain stringify parse n u).1 ≢ unfinished
  unfolding drain
  drain-finished zero u h = ground arith
  drain-finished (suc n) u h = go (next stringify parse u) refl (λ r. drain-finished n r)
    where
      go :
          (x : Next V)
          → next stringify parse u ≡ x
          → ((r : Bytes) → length r < n → (drain stringify parse n r).1 ≢ unfinished)
          → (round u x (λ r. drain stringify parse n r)).1 ≢ unfinished
      go (frame v rest) e ih =
          with_frame-finished v (drain stringify parse n rest)
            (ih rest (omega (arith, next-shorter u rest v e, h)))
      go wait e ih = λ x. cc
      go too_large e ih = λ x. cc
      go bad_json e ih = λ x. cc

  -- The loop of `push` ends: its fuel, one round more than the buffer has bytes, never runs out.
  pub push-finished : (buf chunk : Bytes) → (push stringify parse buf chunk).1 ≢ unfinished
  unfolding push
  push-finished buf chunk =
      drain-finished (suc (length (buf ++ chunk))) (buf ++ chunk) (omega arith)

  abbrev whole : Bytes → Bytes × Pushed V
  whole u = drain stringify parse (suc (length u)) u

  -- A buffer that was read to the end splits any later reading.
  record Split (u w rest : Bytes) (vs : List V) : Type 0 where
    mid : Bytes
    early : List V
    late : List V
    reads_early : whole u ≡ (mid, frames early)
    stuck : next stringify parse mid ≡ wait
    reads_late : whole (mid ++ w) ≡ (rest, frames late)
    joined : vs ≡ early ++ late

  with_frame-frames :
      (v : V) (p : Bytes × Pushed V) (rest : Bytes) (vs : List V)
      → with_frame v p ≡ (rest, frames vs)
      → (ws : List V) × ((p ≡ (rest, frames ws)) × (vs ≡ v ∷ ws))
  with_frame-frames v (buf, frames ws) rest vs h = (ws, (cc, cc))
  with_frame-frames v (buf, throws_too_large) rest vs h = cc
  with_frame-frames v (buf, throws_bad_json) rest vs h = cc
  with_frame-frames v (buf, unfinished) rest vs h = cc

  whole-frame :
      (u r : Bytes) (v : V) → next stringify parse u ≡ frame v r → whole u ≡ with_frame v (whole r)
  whole-frame u r v e =
      drain-next (length u) u (frame v r) e
      ∙ ap (with_frame v)
          (drain-fuel (length u) (suc (length r)) r (next-shorter u r v e) (omega arith))

  throws-frames :
      (u rest : Bytes) (vs : List V) (x : Next V)
      → next stringify parse u ≡ x
      → (x ≡ too_large) ⊎ (x ≡ bad_json)
      → whole u ≢ (rest, frames vs)
  throws-frames u rest vs x e (inl f) k = let d = drain-next (length u) u too_large (e ∙ f) in cc
  throws-frames u rest vs x e (inr f) k = let d = drain-next (length u) u bad_json (e ∙ f) in cc

  -- What one reading of `u` and then `w` finds, a reading of `u` alone begins.
  split :
      (n : ℕ) (u w rest : Bytes) (vs : List V)
      → length u < n
      → whole (u ++ w) ≡ (rest, frames vs)
      → Split u w rest vs
  split zero u w rest vs h k = ground arith
  split (suc n) u w rest vs h k =
      go (next stringify parse u) refl (next-Extended u w) (λ r vs. split n r w rest vs)
    where
      go :
          (x : Next V)
          → next stringify parse u ≡ x
          → Extended x w (next stringify parse (u ++ w))
          → ((r : Bytes) (vs : List V)
              → length r < n
              → whole (r ++ w) ≡ (rest, frames vs)
              → Split r w rest vs)
          → Split u w rest vs
      go wait e f ih = record {
        mid = u;
        early = [];
        late = vs;
        reads_early = drain-next (length u) u wait e;
        stuck = e;
        reads_late = k;
        joined = refl;
      }
      go too_large e f ih = elim (throws-frames (u ++ w) rest vs too_large f (inl refl) k) [ ]
      go bad_json e f ih = elim (throws-frames (u ++ w) rest vs bad_json f (inr refl) k) [ ]
      go (frame v r) e f ih =
          let (ws, (p, q)) =
            with_frame-frames v (whole (r ++ w)) rest vs
              (sym (whole-frame (u ++ w) (r ++ w) v f) ∙ k) in
          let s = ih r ws (omega (arith, next-shorter u r v e, h)) p in
          record {
            mid = s.mid;
            early = v ∷ s.early;
            late = s.late;
            reads_early = whole-frame u r v e ∙ ap (with_frame v) s.reads_early;
            stuck = s.stuck;
            reads_late = s.reads_late;
            joined = q ∙ ap (λ t. v ∷ t) s.joined;
          }

  push_all-from :
      (buf : Bytes) (chunks : List Bytes) (rest : Bytes) (vs : List V)
      → next stringify parse buf ≡ wait
      → whole (buf ++ join chunks) ≡ (rest, frames vs)
      → push_all stringify parse buf chunks ≡ (rest, frames vs)
  unfolding push_all push
  push_all-from buf [] rest vs h k =
      sym (drain-next (length buf) buf wait h) ∙ ap whole (sym (append-nil buf)) ∙ k
  push_all-from buf (c ∷ cs) rest vs h k =
      let s =
        split (suc (length (buf ++ c))) (buf ++ c) (join cs) rest vs (omega arith)
          (ap whole (append_assoc buf c (join cs)) ∙ k) in
      ap (λ x. and_then stringify parse x (λ r. push_all stringify parse r cs)) s.reads_early
      ∙ ap (with_frames s.early) (push_all-from s.mid cs rest s.late s.stuck s.reads_late)
      ∙ ap (λ t. (rest, frames t)) (sym s.joined)

  -- However the bytes of a connection are cut into chunks: if one `push` of all of them returns some
  -- frames and leaves a rest, then a `push` of each chunk in turn returns the same frames, and leaves
  -- the same rest.
  pub push_all-push :
      (chunks : List Bytes) (rest : Bytes) (vs : List V)
      → push stringify parse [] (join chunks) ≡ (rest, frames vs)
      → push_all stringify parse [] chunks ≡ (rest, frames vs)
  unfolding push
  push_all-push chunks rest vs h = push_all-from [] chunks rest vs refl h

  -- The frames of several values, one after the other, where none is too large.
  abbrev pub append_frame : Option Bytes → Option Bytes → Option Bytes
  append_frame none o = none
  append_frame (some f) none = none
  append_frame (some f) (some w) = some (f ++ w)

  abbrev pub encode_frames : List V → Option Bytes
  encode_frames [] = some []
  encode_frames (v ∷ vs) = append_frame (encode_frame stringify parse v) (encode_frames vs)

  next-set_uint32 :
      (v : V) (json w : Bytes)
      → parse json ≡ some v
      → length json ≤ max_frame_bytes
      → next stringify parse ((set_uint32 (length json) ++ json) ++ w) ≡ frame v w
  next-set_uint32 v json w p h =
      let n = length json in
      let e = get_uint32-set_uint32 n (omega (arith, h, max_frame_bytes-small)) in
      rw (e, next)
        (rw (not_ltb n max_frame_bytes h) (
          rw (not_ltb n (length (json ++ w)) (omega (arith, length-append json w)))
            (rw (take-append json w) (rw (drop-append json w) (rw p refl)))))

  framed :
      (v : V) (f : Bytes) (b : Bool)
      → ltb max_frame_bytes (length (stringify v)) ≡ b
      → (if b then none else some (set_uint32 (length (stringify v)) ++ stringify v)) ≡ some f
      → (length (stringify v) ≤ max_frame_bytes)
        × (f ≡ set_uint32 (length (stringify v)) ++ stringify v)
  framed v f true e h = cc
  framed v f false e h = (ground (arith, e), cc)

  next-encode_frame :
      (v : V) (f w : Bytes)
      → parse (stringify v) ≡ some v
      → encode_frame stringify parse v ≡ some f
      → next stringify parse (f ++ w) ≡ frame v w
  unfolding encode_frame
  next-encode_frame v f w p h =
      let (le, e) = framed v f (ltb max_frame_bytes (length (stringify v))) refl h in
      rw e (next-set_uint32 v (stringify v) w p le)

  whole-encode_frames :
      (vs : List V) (w : Bytes)
      → ((v : V) → parse (stringify v) ≡ some v)
      → encode_frames vs ≡ some w
      → whole w ≡ ([], frames vs)
  unfolding drain
  whole-encode_frames [] w p h = let e : w ≡ [] = ground arith in rw e refl
  whole-encode_frames (v ∷ vs) w p h = elim (Option-cases (encode_frame stringify parse v)) [
    | inl e ↦ cc
    | inr (f, e) ↦ elim (Option-cases (encode_frames vs)) [
      | inl k ↦ ground arith
      | inr (u, k) ↦
          let j : w ≡ f ++ u = ground arith in
          rw j (
            whole-frame (f ++ u) u v (next-encode_frame v f u (p v) e)
            ∙ ap (with_frame v) (whole-encode_frames vs u p k))
    ]
  ]

  -- Where `parse` reads back what `stringify` wrote: the frames of any values, sent one after the
  -- other and received in any chunks, give the values in their order and leave nothing in the buffer.
  pub push_all-encode_frames :
      (vs : List V) (chunks : List Bytes)
      → ((v : V) → parse (stringify v) ≡ some v)
      → encode_frames vs ≡ some (join chunks)
      → push_all stringify parse [] chunks ≡ ([], frames vs)
  unfolding push
  push_all-encode_frames vs chunks p h =
      push_all-push chunks [] vs (whole-encode_frames vs (join chunks) p h)
