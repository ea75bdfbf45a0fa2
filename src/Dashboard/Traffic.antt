-- ===== src/Dashboard/Traffic.antt =====
-- The bars of recent traffic that src/tui/model.ts draws from a history of messages.
use native.Mathlib.Nat.{div-lt_iff_lt-mul}
use claude_ipc.Base.{
  ℕ, zero, suc, ◌+◌, ◌-◌, ◌*◌, ◌/◌, ◌≤◌, ◌<◌, max, Text, Bool, true, ◌&&◌, List, [], ◌∷◌, ◌≡◌, refl,
  ap, ◌∙◌, inl, inr, arith, keep, every, length, ltb, leb, eqb, if◌then◌else◌, Bool-cases,
}
use claude_ipc.Models.{Message}

-- `new Array<number>(n).fill(0)`
unfoldable pub zeros : ℕ → List ℕ
zeros zero = []
zeros (suc n) = 0 ∷ zeros n

-- `counts[idx] = (counts[idx] ?? 0) + 1`, for the index of an element.
unfoldable pub count_at : ℕ → List ℕ → List ℕ
count_at i [] = []
count_at zero (c ∷ cs) = suc c ∷ cs
count_at (suc i) (c ∷ cs) = c ∷ count_at i cs

-- `age >= 0 && age < spanS`
abbrev pub in_span : ℕ → ℕ → Message → Bool
in_span now span m = leb m.ts now && ltb (now - m.ts) span

-- One round of the loop over the history. The span is a whole number of seconds for each bucket, as
-- a day is for 12 of them; the index is one below the first where there is no bucket.
unfoldable pub count_message : ℕ → ℕ → ℕ → Message → List ℕ → List ℕ
unfolding count_at
count_message now buckets bucket_s m counts =
    let at = (now - m.ts) / bucket_s in
    if in_span now (buckets * bucket_s) m
    then if ltb at buckets then count_at (buckets - 1 - at) counts else counts
    else counts

unfoldable pub traffic : ℕ → ℕ → ℕ → List Message → List ℕ → List ℕ
unfolding count_message
traffic now buckets bucket_s [] counts = counts
traffic now buckets bucket_s (m ∷ ms) counts =
    traffic now buckets bucket_s ms (count_message now buckets bucket_s m counts)

unfoldable pub max_of : List ℕ → ℕ
max_of [] = 0
max_of (c ∷ cs) = max c (max_of cs)

-- `glyphs[c === 0 ? 0 : Math.max(1, Math.round((c / max) * 7))]`, the glyphs being "▁▂▃▄▅▆▇█".
abbrev pub bar : ℕ → ℕ → ℕ
bar most c = if eqb c 0 then 0x2581 else 0x2581 + max 1 ((14 * c + most) / (2 * most))

unfoldable pub bars : ℕ → List ℕ → Text
bars most [] = []
bars most (c ∷ cs) = bar most c ∷ bars most cs

unfoldable pub traffic_sparkline : List Message → ℕ → ℕ → ℕ → Text
unfolding zeros traffic max_of bars
traffic_sparkline history now buckets bucket_s =
    let counts = traffic now buckets bucket_s history (zeros buckets) in bars (max_of counts) counts

unfoldable pub total : List ℕ → ℕ
total [] = 0
total (c ∷ cs) = c + total cs

total-zeros : (n : ℕ) → total (zeros n) ≡ 0
unfolding total zeros
total-zeros zero = refl
total-zeros (suc n) = omega (arith, total-zeros n)

length-zeros : (n : ℕ) → length (zeros n) ≡ n
unfolding zeros
length-zeros zero = refl
length-zeros (suc n) = ap suc (length-zeros n)

total-count_at : (i : ℕ) (cs : List ℕ) → i < length cs → total (count_at i cs) ≡ suc (total cs)
unfolding total count_at
total-count_at i [] h = omega (arith, h)
total-count_at zero (c ∷ cs) h = omega arith
total-count_at (suc i) (c ∷ cs) h =
    let e = total-count_at i cs (omega (arith, h)) in omega (arith, e)

length-count_at : (i : ℕ) (cs : List ℕ) → length (count_at i cs) ≡ length cs
unfolding count_at
length-count_at i [] = refl
length-count_at zero (c ∷ cs) = refl
length-count_at (suc i) (c ∷ cs) = ap suc (length-count_at i cs)

length-count_message :
    (now buckets bucket_s : ℕ) (m : Message) (cs : List ℕ)
    → length (count_message now buckets bucket_s m cs) ≡ length cs
unfolding count_message
length-count_message now buckets bucket_s m cs =
    let i = buckets - 1 - (now - m.ts) / bucket_s in ground (arith, length-count_at i cs)

length-traffic :
    (now buckets bucket_s : ℕ) (ms : List Message) (cs : List ℕ)
    → length (traffic now buckets bucket_s ms cs) ≡ length cs
unfolding traffic
length-traffic now buckets bucket_s [] cs = refl
length-traffic now buckets bucket_s (m ∷ ms) cs =
    length-traffic now buckets bucket_s ms (count_message now buckets bucket_s m cs)
    ∙ length-count_message now buckets bucket_s m cs

-- A message in the span has a bucket.
in_span-bucket : (x buckets bucket_s : ℕ) → x < buckets * bucket_s → x / bucket_s < buckets
in_span-bucket x buckets zero h = omega (arith, h)
in_span-bucket x buckets (suc s) h = (div-lt_iff_lt-mul (omega arith)).1 h

total-count_message :
    (now buckets bucket_s : ℕ) (m : Message) (cs : List ℕ)
    → length cs ≡ buckets
    → total (count_message now buckets bucket_s m cs)
      ≡ (if in_span now (buckets * bucket_s) m then suc (total cs) else total cs)
unfolding count_message
total-count_message now buckets bucket_s m cs l =
    let x = now - m.ts in
    elim (Bool-cases (in_span now (buckets * bucket_s) m)) [
      | inl e ↦
          let lt : x / bucket_s < buckets = in_span-bucket x buckets bucket_s (ground (arith, e)) in
          let t : ltb (x / bucket_s) buckets ≡ true = ground (arith, lt) in
          rw e (rw t (total-count_at (buckets - 1 - x / bucket_s) cs (omega (arith, lt, l))))
      | inr e ↦ rw e refl
    ]

-- Each message of the span is counted once, and no other one is.
total-traffic :
    (now buckets bucket_s : ℕ) (ms : List Message) (cs : List ℕ)
    → length cs ≡ buckets
    → total (traffic now buckets bucket_s ms cs)
      ≡ total cs + length (keep (in_span now (buckets * bucket_s)) ms)
unfolding traffic
total-traffic now buckets bucket_s [] cs l = omega arith
total-traffic now buckets bucket_s (m ∷ ms) cs l =
    let k = length-count_message now buckets bucket_s m cs ∙ l in
    let e = total-traffic now buckets bucket_s ms (count_message now buckets bucket_s m cs) k in
    let f = total-count_message now buckets bucket_s m cs l in ground (arith, e, f)

abbrev pub is_bar : ℕ → Bool
is_bar c = leb 0x2581 c && leb c 0x2588

bar-InRange : (most c : ℕ) → c ≤ most → is_bar (bar most c) ≡ true
bar-InRange most c h =
    let q = (14 * c + most) / (2 * most) in
    elim (Bool-cases (eqb c 0)) [
      | inl e ↦ rw e refl
      | inr e ↦
          let p : 0 < c = ground (arith, e) in
          let lt : q < 8 =
            (div-lt_iff_lt-mul {k = 2 * most} {x = 14 * c + most} {y = 8} (omega (arith, p, h))).1
              (omega (arith, p, h)) in
          rw e (ground (arith, lt))
    ]

bars-InRange : (most : ℕ) (cs : List ℕ) → max_of cs ≤ most → every is_bar (bars most cs) ≡ true
unfolding bars max_of
bars-InRange most [] h = refl
bars-InRange most (c ∷ cs) h =
    let b = bar-InRange most c (omega (arith, h)) in rw b (bars-InRange most cs (omega (arith, h)))

length-bars : (most : ℕ) (cs : List ℕ) → length (bars most cs) ≡ length cs
unfolding bars
length-bars most [] = refl
length-bars most (c ∷ cs) = ap suc (length-bars most cs)

-- Whatever the history, the sparkline has one character for each bucket, each of them one of the
-- eight bars; and the counts it draws add up to the number of messages in the span.
pub traffic_sparkline-Bars :
    (history : List Message) (now buckets bucket_s : ℕ)
    → (length (traffic_sparkline history now buckets bucket_s) ≡ buckets)
      × (every is_bar (traffic_sparkline history now buckets bucket_s) ≡ true)
      × (total (traffic now buckets bucket_s history (zeros buckets))
          ≡ length (keep (in_span now (buckets * bucket_s)) history))
unfolding traffic_sparkline
traffic_sparkline-Bars history now buckets bucket_s =
    let counts = traffic now buckets bucket_s history (zeros buckets) in
    (
      length-bars (max_of counts) counts
          ∙ length-traffic now buckets bucket_s history (zeros buckets)
          ∙ length-zeros buckets,
      bars-InRange (max_of counts) counts (omega arith),
      total-traffic now buckets bucket_s history (zeros buckets) (length-zeros buckets)
          ∙ omega (arith, total-zeros buckets),
    )
