-- ===== src/Examples/Wire.antt =====
-- Two frames that arrive in three chunks; the values are texts that stand for their own JSON.
use claude_ipc.Base.{Text, txt, Option, some, List, [], ◌∷◌, ◌++◌, ◌≡◌, ◌≢◌, refl, drop, take}
use claude_ipc.Protocol.{Bytes, encode_frame, push, push_all, frames, unfinished, max_frame_bytes}
use claude_ipc.Protocol.Streams.{push-finished, push_all-push, push_all-encode_frames}

abbrev as_is : Text → Bytes
as_is t = t

abbrev parse_all : Bytes → Option Text
parse_all b = some b

abbrev sent : Bytes
sent = 0 ∷ 0 ∷ 0 ∷ 2 ∷ txt "hi" ++ 0 ∷ 0 ∷ 0 ∷ 3 ∷ txt "you"

abbrev chunks : List Bytes
chunks = take 3 sent ∷ take 6 (drop 3 sent) ∷ drop 9 sent ∷ []

push_all-encode_frames_example :
    push_all as_is parse_all [] chunks ≡ ([], frames (txt "hi" ∷ txt "you" ∷ []))
unfolding encode_frame max_frame_bytes
push_all-encode_frames_example =
    push_all-encode_frames as_is parse_all (txt "hi" ∷ txt "you" ∷ []) chunks (λ v. refl) refl

push_all-push_example :
    push_all as_is parse_all [] (take 2 sent ∷ drop 2 (take 8 sent) ∷ [])
    ≡ (0 ∷ 0 ∷ [], frames (txt "hi" ∷ []))
unfolding push max_frame_bytes
push_all-push_example =
    push_all-push as_is parse_all (take 2 sent ∷ drop 2 (take 8 sent) ∷ []) (0 ∷ 0 ∷ [])
      (txt "hi" ∷ []) refl

push-finished_example : (push as_is parse_all (take 3 sent) (drop 3 sent)).1 ≢ unfinished
push-finished_example = push-finished as_is parse_all (take 3 sent) (drop 3 sent)
