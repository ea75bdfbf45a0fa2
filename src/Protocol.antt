-- ===== src/Protocol.antt =====
-- The framing of the broker's socket: `encodeFrame` and `FrameDecoder` of src/protocol.ts.
pub mod Streams
use claude_ipc.Base.{
  ℕ, zero, suc, ◌+◌, ◌*◌, ◌/◌, ◌%◌, Text, Bool, true, false, Option, none, some, List, [], ◌∷◌,
  ◌++◌, take, drop, length, ltb, if◌then◌else◌,
}

-- A `Uint8Array`.
abbrev pub Bytes : Type 0
Bytes = List ℕ

unfoldable pub max_frame_bytes : ℕ
max_frame_bytes = 8 * 1024 * 1024

-- `getUint32(0, false)`
abbrev pub get_uint32 : ℕ → ℕ → ℕ → ℕ → ℕ
get_uint32 a b c d = ((a * 256 + b) * 256 + c) * 256 + d

-- `setUint32(0, n, false)`, which keeps the last 32 bits.
abbrev pub set_uint32 : ℕ → Bytes
set_uint32 n = n / 256 / 256 / 256 % 256 ∷ n / 256 / 256 % 256 ∷ n / 256 % 256 ∷ n % 256 ∷ []

-- What one round of the loop in `push` finds at the head of the buffer.
pub data Next {ℓ} (V : Type ℓ) : Type ℓ where
  wait : Next V
  too_large : Next V
  bad_json : Next V
  frame : V → Bytes → Next V

-- What `push` comes to: the frames it returns, or what it throws. `unfinished` is the loop that ran
-- out of fuel.
pub data Pushed {ℓ} (V : Type ℓ) : Type ℓ where
  frames : List V → Pushed V
  throws_too_large : Pushed V
  throws_bad_json : Pushed V
  unfinished : Pushed V

abbrev pub with_frame {ℓ} : {V : Type ℓ} → V → Bytes × Pushed V → Bytes × Pushed V
with_frame v (buf, frames vs) = (buf, frames (v ∷ vs))
with_frame v (buf, e) = (buf, e)

abbrev pub with_frames {ℓ} : {V : Type ℓ} → List V → Bytes × Pushed V → Bytes × Pushed V
with_frames vs (buf, frames ws) = (buf, frames (vs ++ ws))
with_frames vs (buf, e) = (buf, e)

abbrev pub parsed {ℓ} : {V : Type ℓ} → Bytes → Option V → Next V
parsed rest none = bad_json
parsed rest (some v) = frame v rest

-- A round of the loop: `k` is the rounds after it.
abbrev pub round {ℓ} : {V : Type ℓ} → Bytes → Next V → (Bytes → Bytes × Pushed V) → Bytes × Pushed V
round buf wait k = (buf, frames [])
round buf too_large k = (buf, throws_too_large)
round buf bad_json k = (buf, throws_bad_json)
round buf (frame v rest) k = with_frame v (k rest)

-- `stringify` and `parse` are the JSON text of a value as UTF-8 bytes, and back; `parse` fails where
-- `JSON.parse` throws.
module _ {ℓ} {V : Type ℓ} (stringify : V → Bytes) (parse : Bytes → Option V) where
  -- Nothing is what the throw on a frame that is too large leaves.
  unfoldable pub encode_frame : V → Option Bytes
  encode_frame v =
      let json = stringify v in
      if ltb max_frame_bytes (length json) then none else some (set_uint32 (length json) ++ json)

  abbrev pub next : Bytes → Next V
  next (a ∷ b ∷ c ∷ d ∷ rest) =
      let len = get_uint32 a b c d in
      if ltb max_frame_bytes len
      then too_large
      else if ltb (length rest) len
      then wait
      else parsed (drop len rest) (parse (take len rest))
  next _ = wait

  unfoldable pub drain : ℕ → Bytes → Bytes × Pushed V
  drain zero buf = (buf, unfinished)
  drain (suc n) buf = round buf (next buf) (λ rest. drain n rest)

  -- The buffer that is left, and what `push` returns or throws. Each round takes 4 bytes at least.
  unfoldable pub push : Bytes → Bytes → Bytes × Pushed V
  unfolding drain
  push buf chunk = let all = buf ++ chunk in drain (suc (length all)) all

  abbrev pub and_then : Bytes × Pushed V → (Bytes → Bytes × Pushed V) → Bytes × Pushed V
  and_then (buf, frames vs) k = with_frames vs (k buf)
  and_then (buf, e) k = (buf, e)

  -- The chunks of a connection as they arrive, up to the first throw.
  unfoldable pub push_all : Bytes → List Bytes → Bytes × Pushed V
  unfolding push
  push_all buf [] = (buf, frames [])
  push_all buf (chunk ∷ chunks) = and_then (push buf chunk) (λ rest. push_all rest chunks)
