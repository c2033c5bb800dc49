-- ===== src/Storage/Answers.antt =====
-- `IndexStreamResponse` and `S3StreamResponse` of backend/msm/apiserver/site/handlers/images.py.
use maas_site_manager.Common.{
  ℕ, zero, suc, ◌+◌, ◌-◌, ◌*◌, ◌/◌, Bool, true, false, Option, none, some, List, [], ◌∷◌, ◌++◌,
  length, if◌then◌else◌,
}
use maas_site_manager.Storage.Chunks.{Bytes, take, drop}

-- The messages of the server interface; the status and the headers are left out.
pub data Message : Type 0 where
  response_start : Message
  response_body : Bytes → Bool → Message

abbrev pub last_message : Message
last_message = response_body [] false

-- `IndexStreamResponse.stream_response`: the loop over the range of chunks.
abbrev pub chunk_messages : ℕ → Bytes → ℕ → ℕ → List Message
chunk_messages size s zero c = []
chunk_messages size s (suc n) c =
    response_body (take size (drop (c * size) s)) true ∷ chunk_messages size s n (c + 1)

-- `ceil(len(json_str) / chunk_size)`
abbrev pub chunk_count : ℕ → Bytes → ℕ
chunk_count size s = (length s + (size - 1)) / size

unfoldable pub stream_index : ℕ → Bytes → List Message
stream_index size s =
    response_start ∷ chunk_messages size s (chunk_count size s) 0 ++ last_message ∷ []

abbrev pub before_rest : Bytes → Option Bytes → Option Bytes
before_rest s none = none
before_rest s (some t) = some (s ++ t)

-- What a client of the interface receives: the bodies up to the first message that no other follows.
abbrev pub received : List Message → Option Bytes
received [] = none
received (response_start ∷ l) = received l
received (response_body s more ∷ l) =
    let rest = received l in if more then before_rest s rest else some s

abbrev pub with_chunk : Bytes → Option (List Message) → Option (List Message)
with_chunk s none = none
with_chunk s (some l) = some (response_body s true ∷ l)

abbrev pub framed : Option (List Message) → Option (List Message)
framed none = none
framed (some l) = some (response_start ∷ l ++ last_message ∷ [])

-- An object in the storage as a file that is read: `read n` is `body.read(n)`.
module _ {F : Type 0} (read : ℕ → F → Bytes × F) where
  -- The loop of `S3StreamResponse.stream_response`; none means that the fuel ran out.
  unfoldable pub read_messages : ℕ → ℕ → F → Option (List Message)
  read_messages zero size f = none
  read_messages (suc fuel) size f =
      let (chunk, f') = read size f in
      elim chunk [ [] ↦ some [] | b ∷ s ↦ with_chunk (b ∷ s) (read_messages fuel size f') ]

  unfoldable pub stream_object : ℕ → ℕ → F → Option (List Message)
  stream_object fuel size f = framed (read_messages fuel size f)
